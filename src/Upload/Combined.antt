-- ===== src/Upload/Combined.antt =====
-- The loop of `complete_upload_session` (services/enrichment/app/authoritative.py) over the parts of
-- an upload.
use challanse_website.Prelude.{
  ℕ, String, ◌≡◌, refl, ◌⊎◌, inl, inr, Option, none, some, List, [], ◌∷◌, ◌++◌, arith, ◌+◌, ◌!=◌,
  Bool-cases, length, Result, ok, err, nat_eq,
}
use challanse_website.Upload.{ObjectKey, UploadPart, part_key}
use challanse_website.Upload.Complete.{Faults, combine, answer_object}

abbrev Objects : Type 0
Objects = ObjectKey → Option (List ℕ)

-- The parts cut the body into pieces that follow one another from the offset on, and the object
-- store has each piece.
abbrev pub IsCut : Objects → List UploadPart → ℕ → List ℕ → Type 0
IsCut objects [] offset body = body ≡ []
IsCut objects (part ∷ parts) offset body =
    (piece : List ℕ) × (more : List ℕ) × (body ≡ piece ++ more)
    × (part.byte_offset ≡ offset)
    × (part.byte_length ≡ length piece)
    × (objects (part_key part.upload_id part.part_number) ≡ some piece)
    × IsCut objects parts (offset + length piece) more

Result-cases {ℓ} :
    {A : Type ℓ} (r : Result A) → ((a : A) × (r ≡ ok a)) ⊎ ((e : String) × (r ≡ err e))
Result-cases (ok a) = inl (a, refl)
Result-cases (err e) = inr (e, refl)

answer_object-stored :
    (fault : Option String) (object : Option (List ℕ)) (piece : List ℕ)
    → answer_object fault object ≡ ok piece
    → object ≡ some piece
answer_object-stored (some e) object piece h = ground (arith, h)
answer_object-stored none none piece h = ground (arith, h)
answer_object-stored none (some body) piece h = ground (arith, h)

module _ (faults : Faults) (objects : Objects) where
  -- What the loop returns is cut by the parts.
  pub combine-IsCut :
      (parts : List UploadPart) (offset : ℕ) (body : List ℕ)
      → combine faults objects parts offset ≡ ok body
      → IsCut objects parts offset body
  unfolding combine
  combine-IsCut [] offset body h = ground (arith, h)
  combine-IsCut (part ∷ parts) offset body h =
      let key = part_key part.upload_id part.part_number in
      elim (Bool-cases (part.byte_offset != offset)) [
        | inl e ↦ ground (arith, rw e at h)
        | inr e ↦ elim (Result-cases (answer_object (faults.reads key) (objects key))) [
          | inr (error, f) ↦ ground (arith, rw f at rw e at h)
          | inl (piece, f) ↦ elim (Bool-cases (length piece != part.byte_length)) [
            | inl g ↦ ground (arith, rw g at rw f at rw e at h)
            | inr g ↦ elim (Result-cases (combine faults objects parts (offset + length piece))) [
              | inr (error, k) ↦ ground (arith, rw k at rw g at rw f at rw e at h)
              | inl (more, k) ↦ (
                piece,
                more,
                ground (arith, rw k at rw g at rw f at rw e at h),
                ground arith,
                ground arith,
                answer_object-stored (faults.reads key) (objects key) piece f,
                combine-IsCut parts (offset + length piece) more k,
              )
            ]
          ]
        ]
      ]

  -- A body that the parts cut is what the loop returns, if no read fails.
  pub combine-cut :
      (parts : List UploadPart) (offset : ℕ) (body : List ℕ)
      → ((key : ObjectKey) → faults.reads key ≡ none)
      → IsCut objects parts offset body
      → combine faults objects parts offset ≡ ok body
  unfolding combine
  combine-cut [] offset body reads h = ground (arith, h)
  combine-cut (part ∷ parts) offset body reads (piece, more, eq, at_offset, long, stored, cut) =
      rw (reads (part_key part.upload_id part.part_number))
        (rw stored (ground (arith, combine-cut parts (offset + length piece) more reads cut)))
