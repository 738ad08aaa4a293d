-- ===== src/Reconciliation/Imports.antt =====
-- Imports of purchase orders: `import_tally_csv` of services/enrichment/app/reconciliation.py.
use challanse_website.Reconciliation.{
  Csv, PurchaseOrderRow, TallyImport, Books, parse_tally_csv, same_import, import_parsed,
  import_tally_csv,
}
use challanse_website.Prelude.{
  ℕ, String, ◌≡◌, refl, inl, inr, Bool, true, false, some, List, [], ◌∷◌, ◌++◌, arith, Option-cases,
  nat_beq_iff, nat_eq, string_eq, Result, ok, err, length, find?, find?-append_none,
}

-- A call of `import_tally_csv`.
pub record ImportCall : Type 0 where
  pub organization_id : ℕ
  pub site_id : ℕ
  pub imported_by : String
  pub now : ℕ
  pub content : String

find?-append_found :
    (p : TallyImport → Bool) (xs ys : List TallyImport) (x : TallyImport)
    → find? p xs ≡ some x
    → find? p (xs ++ ys) ≡ some x
find?-append_found p [] ys x h = ground (arith, h)
find?-append_found p (y ∷ xs) ys x h = ground (arith, h, find?-append_found p xs ys x)

import_parsed-keeps :
    (organization site : ℕ) (by : String) (now : ℕ) (checksum : String)
    (parsed : Result (List PurchaseOrderRow)) (s : Books) (p : TallyImport → Bool) (x : TallyImport)
    → find? p s.tally_imports ≡ some x
    → find? p (import_parsed organization site by now checksum parsed s).1.tally_imports ≡ some x
import_parsed-keeps organization site by now checksum (err e) s p x h = h
import_parsed-keeps organization site by now checksum (ok rows) s p x h =
    elim (Option-cases (find? (same_import organization site checksum) s.tally_imports)) [
      | inl e ↦ rw e (
          find?-append_found p s.tally_imports
            (record {
              id = s.next_id;
              organization_id = organization;
              site_id = site;
              checksum = checksum;
              imported_by = by;
              imported_at = now;
            }
              ∷ [])
            x h)
      | inr (i, e) ↦ rw e h
    ]

same_import-new :
    (id organization site : ℕ) (checksum by : String) (now : ℕ)
    → same_import organization site checksum record {
      id = id;
      organization_id = organization;
      site_id = site;
      checksum = checksum;
      imported_by = by;
      imported_at = now;
    }
      ≡ true
same_import-new id organization site checksum by now =
    rw ((nat_beq_iff organization organization).1 refl)
      (rw ((nat_beq_iff site site).1 refl) ((string_eq.same_iff checksum checksum).1 refl))

import_parsed-stores :
    (organization site : ℕ) (by : String) (now : ℕ) (checksum : String)
    (parsed : Result (List PurchaseOrderRow)) (s : Books) (id : ℕ) (again : Bool) (n : ℕ)
    → (import_parsed organization site by now checksum parsed s).0 ≡ ok (id, again, n)
    → (rows : List PurchaseOrderRow) × (x : TallyImport) × (parsed ≡ ok rows)
      × (length rows ≡ n)
      × (x.id ≡ id)
      × (find?
            (same_import organization site checksum)
            (import_parsed organization site by now checksum parsed s).1.tally_imports
          ≡ some x)
import_parsed-stores organization site by now checksum (err e) s id again n h = ground (arith, h)
import_parsed-stores organization site by now checksum (ok rows) s id again n h =
    elim (Option-cases (find? (same_import organization site checksum) s.tally_imports)) [
      | inl e ↦
          let k : ok (s.next_id, false, length rows) ≡ ok (id, again, n) = rw e at h in
          let new : TallyImport = record {
            id = s.next_id;
            organization_id = organization;
            site_id = site;
            checksum = checksum;
            imported_by = by;
            imported_at = now;
          } in
          (
            rows,
            new,
            refl,
            ground (arith, k),
            ground (arith, k),
            rw e (
                find?-append_none (same_import organization site checksum) s.tally_imports new e
                  (same_import-new s.next_id organization site checksum by now)),
          )
      | inr (i, e) ↦
          let k : ok (i.id, true, length rows) ≡ ok (id, again, n) = rw e at h in
          (rows, i, refl, ground (arith, k), ground (arith, k), rw e e)
    ]

module _ (csv : Csv) where
  abbrev pub call_import : ImportCall → Books → Result (ℕ × Bool × ℕ) × Books
  call_import c s = import_tally_csv csv c.organization_id c.site_id c.imported_by c.now c.content s

  unfoldable pub run_imports : List ImportCall → Books → Books
  run_imports [] s = s
  run_imports (c ∷ cs) s = run_imports cs (call_import c s).1

  run_imports-keeps :
      (cs : List ImportCall) (s : Books) (p : TallyImport → Bool) (x : TallyImport)
      → find? p s.tally_imports ≡ some x
      → find? p (run_imports cs s).tally_imports ≡ some x
  unfolding run_imports import_tally_csv
  run_imports-keeps [] s p x h = h
  run_imports-keeps (c ∷ cs) s p x h = run_imports-keeps cs (call_import c s).1 p x (
      import_parsed-keeps c.organization_id c.site_id c.imported_by c.now
        (csv.sha256 (csv.unix_lines c.content)) (parse_tally_csv csv c.content) s p x h)

  -- A file that was imported at a site is not imported there again: whoever sends it at whatever time,
  -- and whatever imports came in between, the answer names the first import and its number of rows, and
  -- nothing changes.
  pub import_again :
      (organization site : ℕ) (by by' : String) (now later : ℕ) (content : String) (s : Books)
      (id : ℕ) (again : Bool) (n : ℕ) (between : List ImportCall)
      → (import_tally_csv csv organization site by now content s).0 ≡ ok (id, again, n)
      → let after =
          run_imports between (import_tally_csv csv organization site by now content s).1 in
        import_tally_csv csv organization site by' later content after ≡ (ok (id, true, n), after)
  unfolding import_tally_csv
  import_again organization site by by' now later content s id again n between h =
      let checksum = csv.sha256 (csv.unix_lines content) in
      let (rows, x, parsed, count, same, found) =
        import_parsed-stores organization site by now checksum (parse_tally_csv csv content) s id
          again n h in
      let kept =
        run_imports-keeps between (import_tally_csv csv organization site by now content s).1
          (same_import organization site checksum) x found in
      rw parsed (rw (rw parsed at kept) (rw (same, count) refl))
