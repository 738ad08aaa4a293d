-- ===== src/Pilot/Ended.antt =====
-- What holds over sequences of operations of the pilot
-- (services/enrichment/app/pilot_control.py).
use challanse_website.Pilot.{
  synthetic_demo, controlled_client_pilot, Control, Pilot, PilotTexts, Activation, day,
  require_capture_enabled,
}
use challanse_website.Pilot.Protocol.{
  IsEvidence, Transition, stays, configures, activates, ends, purges,
}
use challanse_website.Pilot.Steps.{PilotOp, step, step-Transition}
use challanse_website.Prelude.{
  ℕ, ◌≡◌, refl, sym, ap, ◌∙◌, subst, true, Option, none, some, List, [], ◌∷◌, arith, ◌+◌, ◌*◌, ◌≤◌,
  ◌<◌, All, err, nat_eq, string_eq,
}

-- The pilot has ended, and its data are retained until the time.
abbrev pub IsHeld : ℕ → Option Control → Type 0
IsHeld limit control =
    (c : Control) × (ended : ℕ) × (control ≡ some c)
    × (c.mode ≡ controlled_client_pilot)
    × (c.ended_at ≡ some ended)
    × (limit ≤ ended + c.retention_days * day)

-- An active pilot has the evidence of an activation; one that is not active has not ended.
abbrev pub IsConsistent : Option Control → Type 0
IsConsistent none = Unit
IsConsistent (some c) =
    (c.mode ≡ controlled_client_pilot
      → (a : Activation) × IsEvidence a
        × (c.retention_days ≡ a.retention_days)
        × (c.client_approval_sha256 ≡ some a.client_approval_sha256)
        × (c.security_review_sha256 ≡ some a.security_review_sha256)
        × (c.backup_restore_sha256 ≡ some a.backup_restore_sha256))
    × (c.mode ≡ synthetic_demo → c.ended_at ≡ none)

same-control : (c d : Control) (o : Option Control) → o ≡ some c → o ≡ some d → c ≡ d
same-control c d o p q = let k : some c ≡ some d = sym p ∙ q in ground (arith, k)

modes-differ :
    (c d : Control) (o : Option Control)
    → o ≡ some c
    → o ≡ some d
    → c.mode ≡ synthetic_demo
    → d.mode ≡ controlled_client_pilot
    → ⊥
modes-differ c d o p q synthetic controlled =
    let same = ap (λ (k : Control). k.mode) (same-control c d o p q) in
    let clash : synthetic_demo ≡ controlled_client_pilot = sym synthetic ∙ same ∙ controlled in
    ground (arith, clash)

Transition-IsHeld :
    (limit now : ℕ) (before after : Option Control)
    → now < limit
    → Transition now before after
    → IsHeld limit before
    → IsHeld limit after
Transition-IsHeld limit now before after soon (stays same) h = subst (IsHeld limit) (sym same) h
Transition-IsHeld limit now before after soon (configures k digest at mode new)
      (c, ended, own, active, over, long) =
    absurd (modes-differ k c before at own mode active)
Transition-IsHeld limit now before after soon (activates k operator a at mode good new)
      (c, ended, own, active, over, long) =
    absurd (modes-differ k c before at own mode active)
Transition-IsHeld limit now before after soon (ends k operator at mode fresh new)
      (c, ended, own, active, over, long) =
    absurd (
      let same = ap (λ (k : Control). k.ended_at) (same-control k c before at own) in
      let clash : none ≡ some ended = sym fresh ∙ same ∙ over in ground (arith, clash))
Transition-IsHeld limit now before after soon (purges k late at mode gone passed new)
      (c, ended, own, active, over, long) =
    absurd (
      let same = same-control k c before at own in
      let times : some late ≡ some ended =
        sym gone ∙ ap (λ (k : Control). k.ended_at) same ∙ over in
      let late_same : late ≡ ended = ground (arith, times) in
      let days : k.retention_days * day ≡ c.retention_days * day =
        ap (λ (k : Control). k.retention_days * day) same in
      omega (arith, soon, long, passed, late_same, days))

Transition-IsConsistent :
    (now : ℕ) (before after : Option Control)
    → Transition now before after
    → IsConsistent before
    → IsConsistent after
Transition-IsConsistent now before after (stays same) h = subst IsConsistent (sym same) h
Transition-IsConsistent now before after (configures c digest at mode new) h =
    subst IsConsistent (sym new) (subst IsConsistent at h)
Transition-IsConsistent now before after (activates c operator a at mode good new) h =
    subst IsConsistent (sym new)
      ((λ active. (a, good, refl, refl, refl, refl)), λ clash. ground (arith, clash))
Transition-IsConsistent now before after (ends c operator at mode fresh new) h =
    let old : IsConsistent (some c) = subst IsConsistent at h in
    subst IsConsistent (sym new) (
      old.0,
      λ synthetic. absurd (
          let clash : synthetic_demo ≡ controlled_client_pilot = sym synthetic ∙ mode in
          ground (arith, clash)),
    )
Transition-IsConsistent now before after (purges c ended at mode over passed new) h =
    subst IsConsistent (sym new) ((λ clash. ground (arith, clash)), λ synthetic. refl)

module _ (texts : PilotTexts) where
  unfoldable pub run : List (PilotOp × ℕ) → Pilot → Pilot
  run [] s = s
  run ((op, now) ∷ ops) s = run ops (step texts op now s)

  -- Whatever operations follow one another, whatever else changes the other tables: a pilot that is
  -- active has the three hashes and the retention of an activation that passed the checks, each hash
  -- of 64 hexadecimal digits and 1 to 30 days, and a pilot that is not active has not ended.
  pub run-IsConsistent :
      (ops : List (PilotOp × ℕ)) (s : Pilot)
      → IsConsistent s.control
      → IsConsistent (run ops s).control
  unfolding run
  run-IsConsistent [] s h = h
  run-IsConsistent ((op, now) ∷ ops) s h = run-IsConsistent ops (step texts op now s) (
      Transition-IsConsistent now s.control (step texts op now s).control
        (step-Transition texts op now s) h)

  run-IsHeld :
      (limit : ℕ) (ops : List (PilotOp × ℕ)) (s : Pilot)
      → All (λ o. o.1 < limit) ops
      → IsHeld limit s.control
      → IsHeld limit (run ops s).control
  unfolding run
  run-IsHeld limit [] s soon h = h
  run-IsHeld limit ((op, now) ∷ ops) s (first, soon) h =
      run-IsHeld limit ops (step texts op now s) soon (
        Transition-IsHeld limit now s.control (step texts op now s).control first
          (step-Transition texts op now s) h)

  -- After a controlled pilot has ended, capture stays refused until its retention is over: no operation
  -- before that time, whatever it is, enables it again.
  pub capture_refused :
      (ops : List (PilotOp × ℕ)) (s : Pilot) (c : Control) (ended : ℕ)
      → s.control ≡ some c
      → c.mode ≡ controlled_client_pilot
      → c.ended_at ≡ some ended
      → All (λ o. o.1 < ended + c.retention_days * day) ops
      → require_capture_enabled true (run ops s) ≡ err "controlled_client_pilot_ended"
  unfolding require_capture_enabled
  capture_refused ops s c ended at mode over soon =
      let (k, late, at', mode', over', long) =
        run-IsHeld (ended + c.retention_days * day) ops s soon
          (c, ended, at, mode, over, omega arith) in
      rw at' (rw mode' (rw over'))
