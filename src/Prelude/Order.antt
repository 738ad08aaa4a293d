-- ===== src/Prelude/Order.antt =====
-- `ORDER BY` as a sort by insertion: what it does to a table that one row is appended to.
use mathlib.Core.Path.{◌≡◌, refl, ap, ◌∙◌}
use mathlib.Core.Bool.{Bool, true, false, not}
use mathlib.Core.Logic.{inl, inr}
use mathlib.Core.List.{List, [], ◌∷◌, ◌++◌}
use native.Mathlib.Omega.{arith}
use challanse_website.Prelude.Tests.{Bool-cases}
use challanse_website.Prelude.Table.{All, insert_by, sort_by}

-- A test that orders the rows.
pub record IsOrder {ℓ} {A : Type ℓ} (before : A → A → Bool) : Type ℓ where
  pub trans : (x y z : A) → before x y ≡ true → before y z ≡ true → before x z ≡ true
  pub total : (x y : A) → before x y ≡ false → before y x ≡ true

module _ {ℓ} {A : Type ℓ} (before : A → A → Bool) where
  -- Each row may stand before those after it.
  abbrev pub IsSorted : List A → Type 0
  IsSorted [] = Unit
  IsSorted (x ∷ xs) = All (λ y. before x y ≡ true) xs × IsSorted xs

  module _ (order : IsOrder before) where
    All-insert_before :
        (y x : A) (ys : List A)
        → before y x ≡ true
        → All (λ z. before y z ≡ true) ys
        → All (λ z. before y z ≡ true) (insert_by before x ys)
    unfolding insert_by
    All-insert_before y x [] h all = (h, tt)
    All-insert_before y x (z ∷ zs) h all = elim (Bool-cases (before x z)) [
      | inl e ↦ rw e (h, all)
      | inr e ↦ rw e (all.0, All-insert_before y x zs h all.1)
    ]

    All-trans :
        (x y : A) (ys : List A)
        → before x y ≡ true
        → All (λ z. before y z ≡ true) ys
        → All (λ z. before x z ≡ true) ys
    All-trans x y [] h all = tt
    All-trans x y (z ∷ zs) h all = (order.trans x y z h all.0, All-trans x y zs h all.1)

    insert_by-IsSorted : (x : A) (ys : List A) → IsSorted ys → IsSorted (insert_by before x ys)
    unfolding insert_by
    insert_by-IsSorted x [] h = (tt, tt)
    insert_by-IsSorted x (y ∷ ys) h = elim (Bool-cases (before x y)) [
      | inl e ↦ rw e ((e, All-trans x y ys e h.0), h)
      | inr e ↦ rw e (All-insert_before y x ys (order.total x y e) h.0, insert_by-IsSorted x ys h.1)
    ]

    pub sort_by-IsSorted : (xs : List A) → IsSorted (sort_by before xs)
    unfolding sort_by
    sort_by-IsSorted [] = tt
    sort_by-IsSorted (x ∷ xs) = insert_by-IsSorted x (sort_by before xs) (sort_by-IsSorted xs)

    insert_by_comm :
        (x n : A) (ys : List A)
        → before x n ≡ not (before n x)
        → insert_by before x (insert_by before n ys) ≡ insert_by before n (insert_by before x ys)
    unfolding insert_by
    insert_by_comm x n [] h = ground (arith, h)
    insert_by_comm x n (y ∷ ys) h =
        ground (arith, h, insert_by_comm x n ys h, order.trans x n y, order.trans n x y)

    -- A row that ties with none is inserted into the sorted table.
    pub sort_by-append :
        (n : A) (xs : List A)
        → All (λ x. before x n ≡ not (before n x)) xs
        → sort_by before (xs ++ n ∷ []) ≡ insert_by before n (sort_by before xs)
    unfolding sort_by
    sort_by-append n [] h = refl
    sort_by-append n (x ∷ xs) h =
        ap (insert_by before x) (sort_by-append n xs h.1)
        ∙ insert_by_comm x n (sort_by before xs) h.0

module _ {ℓ} {A : Type ℓ} (before : A → A → Bool) (n : A) where
  -- A row that all others must follow comes first.
  pub sort_by-append_first :
      (xs : List A)
      → All (λ x. before x n ≡ false) xs
      → sort_by before (xs ++ n ∷ []) ≡ n ∷ sort_by before xs
  unfolding sort_by insert_by
  sort_by-append_first [] h = refl
  sort_by-append_first (x ∷ xs) h = rw (sort_by-append_first xs h.1) (ground arith)
