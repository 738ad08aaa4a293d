-- ===== src/Reconciliation.antt =====
-- Purchase orders from the accounting system: `normalize_unit`, `parse_tally_csv` and
-- `import_tally_csv` of services/enrichment/app/reconciliation.py.
pub mod Deltas
pub mod Orders
pub mod Imports
pub mod Received
pub mod Convergence
mod Tests
use challanse_website.Reviews.{VerifiedRow, upsert_verified}
use challanse_website.Prelude.{
  ℕ, String, Bool, true, false, not, ◌||◌, ◌&&◌, Option, none, some, List, [], ◌∷◌, ◌++◌, map, ◌+◌,
  ltb, leb, ◌==◌, ◌!=◌, if◌then◌else◌, nat_eq, string_eq, Result, ok, err, Action, length, find?,
  select, delete, exists_in, sort_by,
}

-- `PurchaseOrderRow`; the quantity counts thousandths.
pub record PurchaseOrderRow : Type 0 where
  pub po_number : String
  pub material_code : String
  pub quantity : ℕ
  pub unit : String

-- A finite float
pub data Number : Type 0 where
  thousandths : ℕ → Number
  minus_thousandths : ℕ → Number

-- A row of `csv.DictReader`, the cells that the importer reads; a cell that is missing is None.
pub record RawRow : Type 0 where
  pub po_number : Option String
  pub material_code : Option String
  pub quantity : Option String
  pub unit : Option String

-- What the functions outside the repository answer: `csv.DictReader`, `str.strip`, `str.upper`, `float`,
-- `str.replace` of the line ends and SHA-256.
pub record Csv : Type 0 where
  pub fieldnames : String → List String
  pub raw_rows : String → List RawRow
  pub strip : String → String
  pub upper : String → String
  pub float : String → Option Number
  pub unix_lines : String → String
  pub sha256 : String → String

-- `aliases.get(normalized, normalized)`
abbrev pub alias_of : String → String
alias_of unit =
    if unit == "BAGS"
    then "BAG"
    else if unit == "BAG"
    then "BAG"
    else if unit == "TONNES"
    then "MT"
    else if unit == "TONNE"
    then "MT"
    else if unit == "TON"
    then "MT"
    else if unit == "MTS"
    then "MT"
    else unit

-- `str(cell)`
abbrev pub str_of : Option String → String
str_of none = "None"
str_of (some text) = text

abbrev pub has_field : List String → String → Bool
has_field names name = exists_in (λ n. n == name) names

abbrev pub required_fields : List String → Bool
required_fields names =
    has_field names "po_number"
    && has_field names "material_code"
    && has_field names "quantity"
    && has_field names "unit"

abbrev pub same_order : PurchaseOrderRow → PurchaseOrderRow → Bool
same_order x y =
    x.po_number == y.po_number && x.material_code == y.material_code && x.unit == y.unit

-- The set of the identities of the rows
abbrev pub identities : List PurchaseOrderRow → List PurchaseOrderRow
identities [] = []
identities (x ∷ xs) =
    let rest = identities xs in if exists_in (same_order x) xs then rest else x ∷ rest

abbrev pub append_row :
    PurchaseOrderRow → Result (List PurchaseOrderRow) → Result (List PurchaseOrderRow)
append_row row (ok rows) = ok (row ∷ rows)
append_row row (err e) = err e

abbrev pub check_rows : Result (List PurchaseOrderRow) → Result (List PurchaseOrderRow)
check_rows (err e) = err e
check_rows (ok []) = err "empty_tally_import"
check_rows (ok (row ∷ rows)) =
    if length (identities (row ∷ rows)) != length (row ∷ rows)
    then err "duplicate_tally_row"
    else ok (row ∷ rows)

abbrev pub is_incomplete : PurchaseOrderRow → Bool
is_incomplete row = row.po_number == "" || row.material_code == "" || row.unit == ""

module _ (csv : Csv) where
  unfoldable pub normalize_unit : String → String
  normalize_unit value = alias_of (csv.upper (csv.strip value))

  abbrev pub cell : Option String → String
  cell value = csv.upper (csv.strip (str_of value))

  -- `float(raw["quantity"])`, which raises on None and on a text that is no number
  abbrev pub quantity_of : Option String → Option Number
  quantity_of none = none
  quantity_of (some text) = csv.float text

  abbrev pub row_of : RawRow → ℕ → PurchaseOrderRow
  unfolding normalize_unit
  row_of raw quantity = record {
    po_number = cell raw.po_number;
    material_code = cell raw.material_code;
    quantity = quantity;
    unit = normalize_unit (str_of raw.unit);
  }

  -- What `float` raises on a cell
  abbrev pub float_error : Option String → String
  float_error none = "TypeError"
  float_error (some text) = "ValueError"

  abbrev pub check_row : RawRow → Option Number → Result PurchaseOrderRow
  check_row raw none = err (float_error raw.quantity)
  check_row raw (some (minus_thousandths n)) = err "invalid_tally_row"
  check_row raw (some (thousandths n)) =
      if is_incomplete (row_of raw n) then err "invalid_tally_row" else ok (row_of raw n)

  abbrev pub then_rows :
      Result PurchaseOrderRow → Result (List PurchaseOrderRow) → Result (List PurchaseOrderRow)
  then_rows (err e) rest = err e
  then_rows (ok row) rest = append_row row rest

  abbrev pub parse_rows : List RawRow → Result (List PurchaseOrderRow)
  parse_rows [] = ok []
  parse_rows (raw ∷ raws) =
      let rest = parse_rows raws in then_rows (check_row raw (quantity_of raw.quantity)) rest

  unfoldable pub parse_tally_csv : String → Result (List PurchaseOrderRow)
  parse_tally_csv content =
      if required_fields (csv.fieldnames content)
      then check_rows (parse_rows (csv.raw_rows content))
      else err "invalid_tally_schema"

-- A row of `tally_imports`
pub record TallyImport : Type 0 where
  pub id : ℕ
  pub organization_id : ℕ
  pub site_id : ℕ
  pub checksum : String
  pub imported_by : String
  pub imported_at : ℕ

-- A row of `tally_import_rows`
pub record TallyRow : Type 0 where
  pub id : ℕ
  pub organization_id : ℕ
  pub import_id : ℕ
  pub site_id : ℕ
  pub order : PurchaseOrderRow

pub record Books : Type 0 where
  pub tally_imports : List TallyImport
  pub tally_import_rows : List TallyRow
  pub verified_receipts : List VerifiedRow
  pub next_id : ℕ

abbrev pub same_import : ℕ → ℕ → String → TallyImport → Bool
same_import organization site checksum i =
    i.organization_id == organization && i.site_id == site && i.checksum == checksum

abbrev pub tally_rows : ℕ → ℕ → ℕ → ℕ → List PurchaseOrderRow → List TallyRow
tally_rows organization site import_id id [] = []
tally_rows organization site import_id id (row ∷ rows) =
    record {
      id = id;
      organization_id = organization;
      import_id = import_id;
      site_id = site;
      order = row;
    }
    ∷ tally_rows organization site import_id (id + 1) rows

-- The transaction with the import of the same content that it has found.
abbrev pub import_rows :
    ℕ
    → ℕ
    → String
    → ℕ
    → String
    → List PurchaseOrderRow
    → Option TallyImport
    → Action Books (ℕ × Bool × ℕ)
import_rows organization site by now checksum rows (some existing) s =
    (ok (existing.id, true, length rows), s)
import_rows organization site by now checksum rows none s = (
  ok (s.next_id, false, length rows),
  record s {
    tally_imports =
        s.tally_imports
        ++ record {
          id = s.next_id;
          organization_id = organization;
          site_id = site;
          checksum = checksum;
          imported_by = by;
          imported_at = now;
        }
          ∷ [];
    tally_import_rows =
        s.tally_import_rows ++ tally_rows organization site s.next_id (s.next_id + 1) rows;
    next_id = s.next_id + 1 + length rows;
  },
)

abbrev pub import_parsed :
    ℕ → ℕ → String → ℕ → String → Result (List PurchaseOrderRow) → Action Books (ℕ × Bool × ℕ)
import_parsed organization site by now checksum (err e) s = (err e, s)
import_parsed organization site by now checksum (ok rows) s =
    import_rows organization site by now checksum rows
      (find? (same_import organization site checksum) s.tally_imports) s

unfoldable pub import_tally_csv : Csv → ℕ → ℕ → String → ℕ → String → Action Books (ℕ × Bool × ℕ)
import_tally_csv csv organization site by now content s =
    import_parsed organization site by now (csv.sha256 (csv.unix_lines content))
      (parse_tally_csv csv content) s
