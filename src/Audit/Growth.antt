-- ===== src/Audit/Growth.antt =====
-- An audit chain that is extended in the order of time stays valid.
use challanse_website.Audit.{
  AuditEvent, in_chain, comes_before, text_of, none_if_empty, last_hash, ordered, previous_of,
  Happening, valid, Chains, set_chain, new_event, append_event, is_linked, verify_rows,
  verify_audit_chains, string_eq,
}
use challanse_website.Prelude.{
  ℕ, String, ◌≡◌, refl, sym, ap, inl, inr, true, List, [], ◌∷◌, ◌++◌, arith, ◌+◌, ◌≤◌, ◌∙◌,
  Bool-cases, length, select, All, sort_by, All-append_one, All-mono, ◌<◌, not, insert_by, IsOrder,
  IsSorted, sort_by-IsSorted, sort_by-append, All-sort_by, false, All-both,
}

-- Every event is earlier than the time.
abbrev pub IsUpTo : ℕ → List AuditEvent → Type 0
IsUpTo now rows = All (λ row. row.created_at < now) rows

comes_before-IsOrder : IsOrder comes_before
comes_before-IsOrder = record {
  trans = λ x y z h k. ground (arith, h, k);
  total = λ x y h. ground (arith, h);
}

-- The row has no tie, and stands after every row of its chain.
abbrev IsLast : AuditEvent → AuditEvent → Type 0
IsLast n row =
    (comes_before row n ≡ not (comes_before n row))
    × (comes_before n row ≡ true → in_chain n.organization_id n.site_id row ≡ false)

early-IsLast : (n row : AuditEvent) → row.created_at < n.created_at → IsLast n row
early-IsLast n row h = (ground (arith, h), λ k. ground (arith, h, k))

last_hash-append :
    (h : String) (xs : List AuditEvent) (n : AuditEvent) → last_hash h (xs ++ n ∷ []) ≡ n.event_hash
last_hash-append h [] n = refl
last_hash-append h (x ∷ xs) n = last_hash-append x.event_hash xs n

text_of-none_if_empty : (h : String) → text_of (none_if_empty h) ≡ h
text_of-none_if_empty h = ground (arith, string_eq.same_iff h "")

module _ (sha256 : String → String → String) where
  -- The state of the loop after the rows, if it gets that far: the hash that each chain has reached.
  abbrev has_reached : Chains → List AuditEvent → ℕ → ℕ → String
  has_reached chains rows org site = last_hash (chains org site) (select (in_chain org site) rows)

  has_reached-step :
      (row : AuditEvent) (rows : List AuditEvent) (chains : Chains) (org site : ℕ)
      → is_linked sha256 (chains row.organization_id row.site_id) row ≡ true
      → has_reached
          (set_chain row.organization_id row.site_id
            (sha256 (chains row.organization_id row.site_id) row.event_json)
            chains)
          rows
          org
          site
        ≡ has_reached chains (row ∷ rows) org site
  has_reached-step row rows chains org site linked = ground (
    arith,
    string_eq.same_iff row.event_hash
        (sha256 (chains row.organization_id row.site_id) row.event_json),
  )

  -- The chains of the rows have reached the same hashes.
  abbrev Agree : Chains → Chains → AuditEvent → Type 0
  Agree chains chains' row =
      chains' row.organization_id row.site_id ≡ chains row.organization_id row.site_id

  verify_rows-Agree :
      (rows : List AuditEvent) (chains chains' : Chains) (checked k : ℕ)
      → All (Agree chains chains') rows
      → verify_rows sha256 rows chains checked ≡ valid k
      → verify_rows sha256 rows chains' (checked + 1) ≡ valid (k + 1)
  unfolding verify_rows
  verify_rows-Agree [] chains chains' checked k agree h = ground (arith, h)
  verify_rows-Agree (row ∷ rows) chains chains' checked k (same, agree) h =
      elim (Bool-cases (is_linked sha256 (chains row.organization_id row.site_id) row)) [
        | inl good ↦
            let hash = sha256 (chains row.organization_id row.site_id) row.event_json in
            let set = set_chain row.organization_id row.site_id hash in
            rw same (
              rw good (
                verify_rows-Agree rows (set chains) (set chains') (checked + 1) k
                  (All-mono (Agree chains chains') (Agree (set chains) (set chains')) rows
                    (λ z e. ground (arith, e)) agree)
                  (rw good at h)))
        | inr bad ↦ cc (rw bad at h)
      ]

  has_reached-others :
      (rows : List AuditEvent) (chains : Chains) (org site : ℕ)
      → All (λ row. in_chain org site row ≡ false) rows
      → has_reached chains rows org site ≡ chains org site
  has_reached-others [] chains org site h = refl
  has_reached-others (row ∷ rows) chains org site h =
      rw h.0 (has_reached-others rows chains org site h.1)

  -- A row that continues its chain is accepted before the rows of other chains.
  verify_rows-first :
      (rows : List AuditEvent) (n : AuditEvent) (chains : Chains) (checked k : ℕ)
      → All (λ row. in_chain n.organization_id n.site_id row ≡ false) rows
      → verify_rows sha256 rows chains checked ≡ valid k
      → text_of n.previous_hash ≡ chains n.organization_id n.site_id
      → n.event_hash ≡ sha256 (text_of n.previous_hash) n.event_json
      → verify_rows sha256 (n ∷ rows) chains checked ≡ valid (k + 1)
  unfolding verify_rows
  verify_rows-first rows n chains checked k others good linked hashed =
      let expected = chains n.organization_id n.site_id in
      let set = set_chain n.organization_id n.site_id (sha256 expected n.event_json) in
      let rest =
        verify_rows-Agree rows chains (set chains) checked k
          (All-mono (λ row. in_chain n.organization_id n.site_id row ≡ false)
            (Agree chains (set chains)) rows (λ z other. ground (arith, other)) others)
          good in
      ground (
        arith,
        rest,
        string_eq.same_iff (text_of n.previous_hash) expected,
        string_eq.same_iff n.event_hash (sha256 expected n.event_json),
      )

  -- A row that continues its chain and stands last in it is accepted among rows that are accepted.
  verify_rows-insert :
      (rows : List AuditEvent) (n : AuditEvent) (chains : Chains) (checked k : ℕ)
      → IsSorted comes_before rows
      → All (IsLast n) rows
      → verify_rows sha256 rows chains checked ≡ valid k
      → text_of n.previous_hash ≡ has_reached chains rows n.organization_id n.site_id
      → n.event_hash ≡ sha256 (text_of n.previous_hash) n.event_json
      → verify_rows sha256 (insert_by comes_before n rows) chains checked ≡ valid (k + 1)
  unfolding verify_rows insert_by
  verify_rows-insert [] n chains checked k sorted lasts good linked hashed = ground (
    arith,
    string_eq.same_iff (text_of n.previous_hash) (chains n.organization_id n.site_id),
    string_eq.same_iff n.event_hash (sha256 (chains n.organization_id n.site_id) n.event_json),
  )
  verify_rows-insert (row ∷ rows) n chains checked k sorted lasts good linked hashed =
      elim (Bool-cases (comes_before n row)) [
        | inl first ↦
            let others =
              All-both (λ z. comes_before row z ≡ true) (IsLast n)
                (λ z. in_chain n.organization_id n.site_id z ≡ false) rows
                (λ z follows last. last.1 (comes_before-IsOrder.trans n row z first follows))
                sorted.0 lasts.1 in
            rw first (
              verify_rows-first (row ∷ rows) n chains checked k (lasts.0.1 first, others) good
                (linked
                  ∙ has_reached-others (row ∷ rows) chains n.organization_id n.site_id
                      (lasts.0.1 first, others))
                hashed)
        | inr later ↦
            elim (Bool-cases (is_linked sha256 (chains row.organization_id row.site_id) row)) [
              | inl good_row ↦
                  let chains' =
                    set_chain row.organization_id row.site_id
                      (sha256 (chains row.organization_id row.site_id) row.event_json) chains in
                  rw later (
                    rw good_row (
                      verify_rows-insert rows n chains' (checked + 1) k sorted.1 lasts.1
                        (rw good_row at good)
                        (linked
                          ∙ sym (
                              has_reached-step row rows chains n.organization_id n.site_id
                                good_row))
                        hashed))
              | inr bad ↦ cc (rw bad at good)
            ]
      ]

  -- If the chains are valid and every event is earlier than `now`, they are valid after an event is
  -- appended at `now`, with one event more.
  pub append_event-valid :
      (e : Happening) (now k : ℕ) (rows : List AuditEvent)
      → IsUpTo now rows
      → verify_audit_chains sha256 rows ≡ valid k
      → verify_audit_chains sha256 (append_event sha256 e now rows) ≡ valid (k + 1)
  unfolding verify_audit_chains append_event
  append_event-valid e now k rows up_to ok_rows =
      let n = new_event sha256 e (previous_of e.organization_id e.site_id rows) now in
      let sorted = sort_by-IsSorted comes_before comes_before-IsOrder rows in
      let lasts =
        All-mono (λ (row : AuditEvent). row.created_at < now) (IsLast n) rows
          (λ row early. early-IsLast n row early) up_to in
      rw
        (sort_by-append comes_before comes_before-IsOrder n rows (
          All-mono (IsLast n) (λ row. comes_before row n ≡ not (comes_before n row)) rows
            (λ row l. l.0) lasts))
        (verify_rows-insert (ordered rows) n (λ org site. "") 0 k sorted
          (All-sort_by (IsLast n) comes_before rows lasts) ok_rows
          (text_of-none_if_empty (previous_of e.organization_id e.site_id rows))
          (rw text_of-none_if_empty refl))

  -- Events appended one after the other.
  unfoldable pub append_all : List (Happening × ℕ) → List AuditEvent → List AuditEvent
  append_all [] rows = rows
  append_all ((e, now) ∷ more) rows = append_all more (append_event sha256 e now rows)

  -- The times grow, from `t` on.
  abbrev pub IsInTime : ℕ → List (Happening × ℕ) → Type 0
  IsInTime t [] = Unit
  IsInTime t ((e, now) ∷ more) = (t ≤ now) × IsInTime (now + 1) more

  IsUpTo-append :
      (e : Happening) (t now : ℕ) (rows : List AuditEvent)
      → t ≤ now
      → IsUpTo t rows
      → IsUpTo (now + 1) (append_event sha256 e now rows)
  unfolding append_event
  IsUpTo-append e t now rows le h =
      All-append_one (λ (row : AuditEvent). row.created_at < now + 1) rows
        (new_event sha256 e (previous_of e.organization_id e.site_id rows) now)
        (All-mono (λ (row : AuditEvent). row.created_at < t) (λ row. row.created_at < now + 1) rows
          (λ row early. omega arith) h)
        (omega arith)

  append_all-valid_from :
      (events : List (Happening × ℕ)) (t k : ℕ) (rows : List AuditEvent)
      → IsInTime t events
      → IsUpTo t rows
      → verify_audit_chains sha256 rows ≡ valid k
      → verify_audit_chains sha256 (append_all events rows) ≡ valid (k + length events)
  unfolding append_all
  append_all-valid_from [] t k rows h up_to good = good ∙ ap valid (omega arith)
  append_all-valid_from ((e, now) ∷ more) t k rows (le, h) up_to good =
      let later = IsUpTo-append e t now rows le up_to in
      append_all-valid_from more (now + 1) (k + 1) (append_event sha256 e now rows) h later (
        append_event-valid e now k rows
          (All-mono (λ (row : AuditEvent). row.created_at < t) (λ row. row.created_at < now) rows
            (λ row early. omega arith) up_to)
          good)
      ∙ ap valid (omega arith)

  -- From an empty table, events of any organizations and sites that are appended each at a later
  -- time than the one before verify, and each is counted.
  pub append_all-valid :
      (events : List (Happening × ℕ))
      → IsInTime 0 events
      → verify_audit_chains sha256 (append_all events []) ≡ valid (length events)
  append_all-valid events h =
      append_all-valid_from events 0 0 [] h tt (unfold verify_audit_chains sort_by in refl)
      ∙ ap valid (omega arith)
