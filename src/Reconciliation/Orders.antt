-- ===== src/Reconciliation/Orders.antt =====
-- Files of purchase orders: `parse_tally_csv` of services/enrichment/app/reconciliation.py.
use challanse_website.Reconciliation.{
  Csv, PurchaseOrderRow, RawRow, Number, thousandths, minus_thousandths, same_order, identities,
  check_rows, row_of, is_incomplete, check_row, then_rows, parse_rows, parse_tally_csv,
  required_fields, quantity_of,
}
use challanse_website.Prelude.{
  ℕ, suc, String, ◌≡◌, refl, ap, subst, inl, inr, false, Option, none, some, List, [], ◌∷◌, arith,
  ◌≤◌, ◌<◌, ◌!=◌, Bool-cases, nat_eq, string_eq, exists_in, All, Result, ok, err, length,
}

-- No row has the order number, the material and the unit of a later one.
abbrev pub Unique : List PurchaseOrderRow → Type 0
Unique [] = Unit
Unique (x ∷ xs) = (exists_in (same_order x) xs ≡ false) × Unique xs

identities-le : (rows : List PurchaseOrderRow) → length (identities rows) ≤ length rows
identities-le [] = omega arith
identities-le (x ∷ xs) = ground (arith, identities-le xs)

identities-Unique :
    (rows : List PurchaseOrderRow) → length (identities rows) ≡ length rows → Unique rows
identities-Unique [] h = tt
identities-Unique (x ∷ xs) h = elim (Bool-cases (exists_in (same_order x) xs)) [
  | inl e ↦
      let h' : length (identities xs) ≡ suc (length xs) = rw e at h in
      absurd (omega (arith, h', identities-le xs))
  | inr e ↦ (e, identities-Unique xs (ground (arith, rw e at h)))
]

ok_inj {ℓ} : {A : Type ℓ} (x y : A) → ok x ≡ ok y → x ≡ y
ok_inj x y h = ground (arith, h)

-- The row has an order number, a material and a unit.
abbrev pub IsComplete : PurchaseOrderRow → Type 0
IsComplete row = is_incomplete row ≡ false

differ-eq : (a b : ℕ) → a != b ≡ false → a ≡ b
differ-eq a b h = ground (arith, h)

check_rows-Unique :
    (parsed : Result (List PurchaseOrderRow)) (rows : List PurchaseOrderRow)
    → check_rows parsed ≡ ok rows
    → (parsed ≡ ok rows) × Unique rows × (0 < length rows)
check_rows-Unique (err e) rows h = ground (arith, h)
check_rows-Unique (ok []) rows h = ground (arith, h)
check_rows-Unique (ok (x ∷ xs)) rows h =
    elim (Bool-cases (length (identities (x ∷ xs)) != length (x ∷ xs))) [
      | inl e ↦ ground (arith, rw e at h)
      | inr e ↦
          let k : ok (x ∷ xs) ≡ ok rows = rw e at h in
          let same : x ∷ xs ≡ rows = ok_inj (x ∷ xs) rows k in
          (
            k,
            subst Unique same (
                identities-Unique (x ∷ xs)
                  (differ-eq (length (identities (x ∷ xs))) (length (x ∷ xs)) e)),
            subst (λ l. 0 < length l) same (omega arith),
          )
    ]

module _ (csv : Csv) where
  check_row-IsComplete :
      (raw : RawRow) (number : Option Number) (row : PurchaseOrderRow)
      → check_row csv raw number ≡ ok row
      → IsComplete row
  check_row-IsComplete raw none row h = ground (arith, h)
  check_row-IsComplete raw (some (minus_thousandths n)) row h = ground (arith, h)
  check_row-IsComplete raw (some (thousandths n)) row h =
      elim (Bool-cases (is_incomplete (row_of csv raw n))) [
        | inl e ↦ ground (arith, rw e at h)
        | inr e ↦
            let k : ok (row_of csv raw n) ≡ ok row = rw e at h in
            subst IsComplete (ok_inj (row_of csv raw n) row k) e
      ]

  -- What the rows that are read satisfy, as long as there are as many as lines.
  abbrev AreRead : List RawRow → List PurchaseOrderRow → Type 0
  AreRead raws rows = All IsComplete rows × (length rows ≡ length raws)

  then_rows-AreRead :
      (raw : RawRow) (raws : List RawRow) (first : Result PurchaseOrderRow)
      (rest : Result (List PurchaseOrderRow)) (rows : List PurchaseOrderRow)
      → ((row : PurchaseOrderRow) → first ≡ ok row → IsComplete row)
      → ((rows : List PurchaseOrderRow) → rest ≡ ok rows → AreRead raws rows)
      → then_rows csv first rest ≡ ok rows
      → AreRead (raw ∷ raws) rows
  then_rows-AreRead raw raws (err e) rest rows f r h = ground (arith, h)
  then_rows-AreRead raw raws (ok row) (err e) rows f r h = ground (arith, h)
  then_rows-AreRead raw raws (ok row) (ok rows') rows f r h =
      let old = r rows' refl in
      subst (AreRead (raw ∷ raws)) (ok_inj (row ∷ rows') rows h) ((f row refl, old.0), ap suc old.1)

  parse_rows-AreRead :
      (raws : List RawRow) (rows : List PurchaseOrderRow)
      → parse_rows csv raws ≡ ok rows
      → AreRead raws rows
  parse_rows-AreRead [] rows h = subst (AreRead []) (ok_inj [] rows h) (tt, refl)
  parse_rows-AreRead (raw ∷ raws) rows h =
      then_rows-AreRead raw raws (check_row csv raw (quantity_of csv raw.quantity))
        (parse_rows csv raws) rows (check_row-IsComplete raw (quantity_of csv raw.quantity))
        (parse_rows-AreRead raws) h

  -- If a file is read without an error, then it has a row, every line of it gave one, every row has an
  -- order number, a material and a unit, and no two rows agree in all three.
  pub parse_tally_csv-AreOrders :
      (content : String) (rows : List PurchaseOrderRow)
      → parse_tally_csv csv content ≡ ok rows
      → (0 < length rows)
        × (length rows ≡ length (csv.raw_rows content))
        × All IsComplete rows
        × Unique rows
  unfolding parse_tally_csv
  parse_tally_csv-AreOrders content rows h =
      elim (Bool-cases (required_fields (csv.fieldnames content))) [
        | inl e ↦
            let (parsed, unique, some_row) =
              check_rows-Unique (parse_rows csv (csv.raw_rows content)) rows (rw e at h) in
            let (complete, count) = parse_rows-AreRead (csv.raw_rows content) rows parsed in
            (some_row, count, complete, unique)
        | inr e ↦ ground (arith, rw e at h)
      ]
