-- ===== src/Audit.antt =====
-- The hash chain of the audit events: services/enrichment/app/audit_chain.py, and the statements that
-- append an event in services/enrichment/app/authoritative.py (`_append_admin_audit`, and the same
-- statements in the other handlers).
pub mod Growth
pub mod Breaks
mod Tests
use challanse_website.Prelude.{
  ℕ, String, Bool, not, Option, none, some, List, [], ◌∷◌, ◌++◌, ◌+◌, ◌&&◌, ◌||◌, ◌==◌, ◌!=◌,
  select, sort_by, ltb, leb, if◌then◌else◌, nat_eq, string_eq,
}

-- A row of `audit_events`. `event_json` is the canonical text of the event.
pub record AuditEvent : Type 0 where
  pub id : ℕ
  pub organization_id : ℕ
  pub site_id : ℕ
  pub receipt_id : Option ℕ
  pub event_type : String
  pub actor_id : ℕ
  pub event_json : String
  pub source_class : String
  pub previous_hash : Option String
  pub event_hash : String
  pub created_at : ℕ

abbrev pub in_chain : ℕ → ℕ → AuditEvent → Bool
in_chain org site row = row.organization_id == org && row.site_id == site

-- `str(row["previous_hash"] or "")`
abbrev pub text_of : Option String → String
text_of none = ""
text_of (some h) = h

-- `previous_hash or None`
abbrev pub none_if_empty : String → Option String
none_if_empty h = if h == "" then none else some h

abbrev pub last_hash : String → List AuditEvent → String
last_hash h [] = h
last_hash h (row ∷ rows) = last_hash row.event_hash rows

-- `ORDER BY organization_id, site_id, created_at, id`. Within a chain the order is that of
-- `ORDER BY created_at, id`.
abbrev pub comes_before : AuditEvent → AuditEvent → Bool
comes_before x y =
    ltb x.organization_id y.organization_id
    || (x.organization_id == y.organization_id
        && (ltb x.site_id y.site_id
            || (x.site_id == y.site_id
                && (ltb x.created_at y.created_at
                    || (x.created_at == y.created_at && leb x.id y.id)))))

unfoldable pub ordered : List AuditEvent → List AuditEvent
ordered rows = sort_by comes_before rows

-- The hash of the latest event of a chain, or "".
unfoldable pub previous_of : ℕ → ℕ → List AuditEvent → String
unfolding ordered
previous_of org site rows = last_hash "" (select (in_chain org site) (ordered rows))

-- What an event says, without its place in the chain; `id` is what `uuid4()` draws for it.
pub record Happening : Type 0 where
  pub id : ℕ
  pub organization_id : ℕ
  pub site_id : ℕ
  pub receipt_id : Option ℕ
  pub event_type : String
  pub actor_id : ℕ
  pub event_json : String
  pub source_class : String

-- The answer: `valid` with the events checked, or `broken` with the events checked before the first
-- row that does not fit and its chain. The count of chains is left out.
pub data Verification : Type 0 where
  valid : ℕ → Verification
  broken : ℕ → ℕ → ℕ → Verification

abbrev pub Chains : Type 0
Chains = ℕ → ℕ → String

abbrev pub set_chain : ℕ → ℕ → String → Chains → Chains
set_chain org site h chains org' site' =
    if org == org' && site == site' then h else chains org' site'

-- `audit_event_hash`: the SHA-256 of the previous hash, a colon and the canonical JSON.
module _ (sha256 : String → String → String) where
  abbrev pub audit_event_hash : String → String → String
  audit_event_hash previous event = sha256 previous event

  unfoldable pub new_event : Happening → String → ℕ → AuditEvent
  new_event e previous now = record {
    id = e.id;
    organization_id = e.organization_id;
    site_id = e.site_id;
    receipt_id = e.receipt_id;
    event_type = e.event_type;
    actor_id = e.actor_id;
    event_json = e.event_json;
    source_class = e.source_class;
    previous_hash = none_if_empty previous;
    event_hash = audit_event_hash previous e.event_json;
    created_at = now;
  }

  -- `_append_admin_audit`; the advisory lock makes the appends to one chain follow one another.
  unfoldable pub append_event : Happening → ℕ → List AuditEvent → List AuditEvent
  unfolding new_event previous_of
  append_event e now rows =
      rows ++ new_event e (previous_of e.organization_id e.site_id rows) now ∷ []

  -- The test of one row against the hash that its chain has reached.
  abbrev pub is_linked : String → AuditEvent → Bool
  is_linked expected_previous row = not (
      text_of row.previous_hash != expected_previous
      || row.event_hash != audit_event_hash expected_previous row.event_json)

  -- The loop of `verify_audit_chains`.
  unfoldable pub verify_rows : List AuditEvent → Chains → ℕ → Verification
  verify_rows [] chains checked = valid checked
  verify_rows (row ∷ rows) chains checked =
      let expected_previous = chains row.organization_id row.site_id in
      let rest =
        verify_rows rows
          (set_chain row.organization_id row.site_id
            (audit_event_hash expected_previous row.event_json) chains)
          (checked + 1) in
      if is_linked expected_previous row
      then rest
      else broken checked row.organization_id row.site_id

  unfoldable pub verify_audit_chains : List AuditEvent → Verification
  unfolding verify_rows ordered
  verify_audit_chains rows = verify_rows (ordered rows) (λ org site. "") 0
