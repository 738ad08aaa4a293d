-- ===== src/Audit/Breaks.antt =====
-- Ways of writing the audit table after which services/enrichment/app/audit_chain.py reports a broken
-- chain: the retention job of services/enrichment/app/jobs.py, transactions that commit in
-- another order than they began, and a row that was edited.
use challanse_website.Audit.{
  AuditEvent, in_chain, comes_before, text_of, last_hash, ordered, previous_of, Happening, broken,
  new_event, append_event, verify_rows, verify_audit_chains, string_eq,
}
use challanse_website.Prelude.{
  ℕ, String, ◌≡◌, refl, ◌≢◌, Bool, true, false, Option, List, [], ◌∷◌, ◌++◌, arith, select, delete,
  All, sort_by, All-sort_by, sort_by-append_first, All-select_both,
}

-- `DELETE FROM audit_events WHERE receipt_id = ANY(…)`
unfoldable pub delete_expired : (Option ℕ → Bool) → List AuditEvent → List AuditEvent
delete_expired is_expired rows = delete (λ row. is_expired row.receipt_id) rows

module _ (sha256 : String → String → String) where
  -- A first row that claims a predecessor breaks its chain.
  headless_breaks :
      (row : AuditEvent) (rows : List AuditEvent)
      → text_of row.previous_hash ≢ ""
      → verify_rows sha256 (row ∷ rows) (λ org site. "") 0
        ≡ broken 0 row.organization_id row.site_id
  unfolding verify_rows
  headless_breaks row rows h = ground (arith, string_eq.same_iff (text_of row.previous_hash) "")

  -- The hash is one (CHECK of the table): not empty.
  abbrev pub IsDigested : AuditEvent → Type 0
  IsDigested row = row.event_hash ≢ ""

  last_hash-digest :
      (h : String) (rows : List AuditEvent) → h ≢ "" → All IsDigested rows → last_hash h rows ≢ ""
  last_hash-digest h [] p q = p
  last_hash-digest h (row ∷ rows) p q = last_hash-digest row.event_hash rows q.0 q.1

  chain_digest : (rows : List AuditEvent) → rows ≢ [] → All IsDigested rows → last_hash "" rows ≢ ""
  chain_digest [] h q = absurd (h refl)
  chain_digest (row ∷ rows) h q = last_hash-digest row.event_hash rows q.0 q.1

  previous_of-digest :
      (org site : ℕ) (rows : List AuditEvent)
      → select (in_chain org site) (ordered rows) ≢ []
      → All IsDigested rows
      → previous_of org site rows ≢ ""
  unfolding previous_of
  previous_of-digest org site rows some_event h =
      chain_digest (select (in_chain org site) (ordered rows)) some_event (
        All-select_both IsDigested (in_chain org site) (ordered rows)
          (All-sort_by IsDigested comes_before rows h))

  delete_leaves_new :
      (p : AuditEvent → Bool) (rows : List AuditEvent) (n : AuditEvent)
      → All (λ row. p row ≡ true) rows
      → p n ≡ false
      → delete p (rows ++ n ∷ []) ≡ n ∷ []
  delete_leaves_new p [] n h kept = rw kept
  delete_leaves_new p (row ∷ rows) n h kept = rw h.0 (delete_leaves_new p rows n h.1 kept)

  -- After an event is appended to a chain that has events, the retention job that deletes all the
  -- earlier rows and keeps the event makes the verification fail at that event: the first row that is left
  -- names a predecessor that is gone.
  pub retention_breaks :
      (e : Happening) (now : ℕ) (rows : List AuditEvent) (is_expired : Option ℕ → Bool)
      → select (in_chain e.organization_id e.site_id) (ordered rows) ≢ []
      → All IsDigested rows
      → All (λ row. is_expired row.receipt_id ≡ true) rows
      → is_expired e.receipt_id ≡ false
      → verify_audit_chains sha256 (delete_expired is_expired (append_event sha256 e now rows))
        ≡ broken 0 e.organization_id e.site_id
  unfolding verify_audit_chains delete_expired append_event sort_by
  retention_breaks e now rows is_expired some_event digests expired kept =
      let n = new_event sha256 e (previous_of e.organization_id e.site_id rows) now in
      rw (delete_leaves_new (λ row. is_expired row.receipt_id) rows n expired kept) (
        headless_breaks n [] (λ none_before.
          previous_of-digest e.organization_id e.site_id rows some_event digests
            (ground (arith, string_eq.same_iff (previous_of e.organization_id e.site_id rows) ""))))

  -- An event that stands before all events of the table in the order in which the verification reads
  -- them, though its chain already has some (its transaction began first and took the lock last),
  -- makes the verification fail at that event.
  late_commit_breaks :
      (e : Happening) (now : ℕ) (rows : List AuditEvent)
      → select (in_chain e.organization_id e.site_id) (ordered rows) ≢ []
      → All IsDigested rows
      → All
          (λ row.
            comes_before row (new_event sha256 e (previous_of e.organization_id e.site_id rows) now)
            ≡ false)
          rows
      → verify_audit_chains sha256 (append_event sha256 e now rows)
        ≡ broken 0 e.organization_id e.site_id
  unfolding verify_audit_chains append_event
  late_commit_breaks e now rows some_event digests early =
      let n = new_event sha256 e (previous_of e.organization_id e.site_id rows) now in
      rw (sort_by-append_first comes_before n rows early) (
        headless_breaks n (ordered rows) (λ none_before.
          previous_of-digest e.organization_id e.site_id rows some_event digests
            (ground (arith, string_eq.same_iff (previous_of e.organization_id e.site_id rows) ""))))
