-- ===== src/Prelude/Table.antt =====
-- SQL tables as lists of rows in insertion order, and what statements do to them.
use Prim.Native.Nat.{ℕ, zero, suc, ◌+◌, ◌≤◌}
use mathlib.Core.Path.{◌≡◌, refl, subst}
use mathlib.Core.Bool.{Bool, true, false, ◌||◌}
use mathlib.Core.Logic.{inl, inr}
use mathlib.Core.Option.{Option, none, some}
use mathlib.Core.List.{List, [], ◌∷◌, ◌++◌, map}
use native.Mathlib.Omega.{arith}
use challanse_website.Prelude.Tests.{if◌then◌else◌, is_some, leb, Bool-cases}

module _ {ℓ} {A : Type ℓ} where
  abbrev pub length : List A → ℕ
  length [] = 0
  length (x ∷ xs) = suc (length xs)

  -- `SELECT … WHERE p`, the first row
  abbrev pub find? : (A → Bool) → List A → Option A
  find? p [] = none
  find? p (x ∷ xs) = if p x then some x else find? p xs

  -- `SELECT … WHERE p`
  abbrev pub select : (A → Bool) → List A → List A
  select p [] = []
  select p (x ∷ xs) = let rest = select p xs in if p x then x ∷ rest else rest

  -- `UPDATE … SET f WHERE p`
  abbrev pub update : (A → Bool) → (A → A) → List A → List A
  update p f [] = []
  update p f (x ∷ xs) = let rest = update p f xs in if p x then f x ∷ rest else x ∷ rest

  -- `DELETE … WHERE p`
  abbrev pub delete : (A → Bool) → List A → List A
  delete p [] = []
  delete p (x ∷ xs) = let rest = delete p xs in if p x then rest else x ∷ rest

  abbrev pub All {κ} : (A → Type κ) → List A → Type κ
  All P [] = Unit
  All P (x ∷ xs) = P x × All P xs

  abbrev pub take : ℕ → List A → List A
  take zero xs = []
  take (suc n) [] = []
  take (suc n) (x ∷ xs) = x ∷ take n xs

  pub length-append : (xs ys : List A) → length (xs ++ ys) ≡ length xs + length ys
  length-append [] ys = omega arith
  length-append (x ∷ xs) ys = omega (arith, length-append xs ys)

  -- A row that is inserted is found by what it satisfies.
  pub find?-append_self :
      (p : A → Bool) (xs : List A) (y : A) → p y ≡ true → is_some (find? p (xs ++ y ∷ [])) ≡ true
  find?-append_self p [] y h = rw h
  find?-append_self p (x ∷ xs) y h = ground (arith, find?-append_self p xs y h)

  -- Appending a row loses none.
  pub find?-append_old :
      (p : A → Bool) (xs : List A) (y : A)
      → is_some (find? p xs) ≡ true
      → is_some (find? p (xs ++ y ∷ [])) ≡ true
  find?-append_old p [] y h = cc
  find?-append_old p (x ∷ xs) y h = ground (arith, find?-append_old p xs y)

  pub find?-append_none :
      (p : A → Bool) (xs : List A) (y : A)
      → find? p xs ≡ none
      → p y ≡ true
      → find? p (xs ++ y ∷ []) ≡ some y
  find?-append_none p [] y h q = rw q refl
  find?-append_none p (x ∷ xs) y h q = ground (arith, find?-append_none p xs y)

  pub find?-append_other :
      (p : A → Bool) (xs : List A) (y : A) → p y ≡ false → find? p (xs ++ y ∷ []) ≡ find? p xs
  find?-append_other p [] y h = rw h refl
  find?-append_other p (x ∷ xs) y h = ground (arith, find?-append_other p xs y h)

  -- The row that a statement updates, by the test by which it was found.
  pub find?-update_found :
      (p : A → Bool) (f : A → A) (xs : List A) (x : A)
      → ((y : A) → p (f y) ≡ p y)
      → find? p xs ≡ some x
      → find? p (update p f xs) ≡ some (f x)
  find?-update_found p f [] x h e = ground (arith, e)
  find?-update_found p f (y ∷ ys) x h e = ground (arith, h y, e, find?-update_found p f ys x h)

  -- An update of other rows.
  pub find?-update_other :
      (p q : A → Bool) (f : A → A) (xs : List A)
      → ((y : A) → q y ≡ true → p y ≡ false)
      → ((y : A) → q y ≡ true → p (f y) ≡ false)
      → find? p (update q f xs) ≡ find? p xs
  find?-update_other p q f [] before after = refl
  find?-update_other p q f (y ∷ ys) before after =
      ground (arith, before y, after y, find?-update_other p q f ys before after)

  pub find?-delete_other :
      (p q : A → Bool) (xs : List A)
      → ((x : A) → p x ≡ true → q x ≡ false)
      → find? p (delete q xs) ≡ find? p xs
  find?-delete_other p q [] h = refl
  find?-delete_other p q (x ∷ xs) h = ground (arith, h x, find?-delete_other p q xs h)

  pub find?-IsNone : (p : A → Bool) (xs : List A) → All (λ x. p x ≡ false) xs → find? p xs ≡ none
  find?-IsNone p [] h = refl
  find?-IsNone p (x ∷ xs) h = rw h.0 (find?-IsNone p xs h.1)

  unfoldable pub insert_by : (A → A → Bool) → A → List A → List A
  insert_by before x [] = x ∷ []
  insert_by before x (y ∷ ys) = if before x y then x ∷ y ∷ ys else y ∷ insert_by before x ys

  -- `ORDER BY`, by a test that says whether the first row may stand before the second
  unfoldable pub sort_by : (A → A → Bool) → List A → List A
  unfolding insert_by
  sort_by before [] = []
  sort_by before (x ∷ xs) = insert_by before x (sort_by before xs)

  -- `ORDER BY key`, rows with one key in the order of the table
  abbrev pub by_key : (A → ℕ) → A → A → Bool
  by_key key x y = leb (key x) (key y)

  -- Some row has the property.
  abbrev pub exists_in : (A → Bool) → List A → Bool
  exists_in p [] = false
  exists_in p (x ∷ xs) = p x || exists_in p xs

  pub exists_in-append :
      (p : A → Bool) (xs : List A) (y : A) → exists_in p (xs ++ y ∷ []) ≡ exists_in p xs || p y
  exists_in-append p [] y = ground arith
  exists_in-append p (x ∷ xs) y = ground (arith, exists_in-append p xs y)

  pub exists_in-weaken :
      (p q : A → Bool) (xs : List A)
      → ((x : A) → p x ≡ true → q x ≡ true)
      → exists_in p xs ≡ true
      → exists_in q xs ≡ true
  exists_in-weaken p q [] h e = e
  exists_in-weaken p q (x ∷ xs) h e = ground (arith, h x, e, exists_in-weaken p q xs h)

  -- A deletion that spares what is asked for
  pub exists_in-delete :
      (p q : A → Bool) (xs : List A)
      → ((x : A) → p x ≡ true → q x ≡ false)
      → exists_in p xs ≡ true
      → exists_in p (delete q xs) ≡ true
  exists_in-delete p q [] h e = e
  exists_in-delete p q (x ∷ xs) h e = ground (arith, h x, e, exists_in-delete p q xs h)

  -- An update that does not change what is asked.
  pub exists_in-update :
      (p q : A → Bool) (f : A → A) (xs : List A)
      → ((x : A) → p (f x) ≡ p x)
      → exists_in p (update q f xs) ≡ exists_in p xs
  exists_in-update p q f [] h = refl
  exists_in-update p q f (x ∷ xs) h = ground (arith, h x, exists_in-update p q f xs h)

  pub length-take-le : (n : ℕ) (xs : List A) → length (take n xs) ≤ n
  length-take-le zero xs = omega arith
  length-take-le (suc n) [] = omega arith
  length-take-le (suc n) (x ∷ xs) = omega (arith, length-take-le n xs)

module _ {ℓ κ} {A : Type ℓ} (P : A → Type κ) where
  pub All-select : (p : A → Bool) (xs : List A) → ((x : A) → p x ≡ true → P x) → All P (select p xs)
  All-select p [] h = tt
  All-select p (x ∷ xs) h = elim (Bool-cases (p x)) [
    | inl e ↦ rw e (h x e, All-select p xs h)
    | inr e ↦ rw e (All-select p xs h)
  ]

  All-insert_by :
      (before : A → A → Bool) (x : A) (xs : List A) → P x → All P xs → All P (insert_by before x xs)
  unfolding insert_by
  All-insert_by before x [] px h = (px, tt)
  All-insert_by before x (y ∷ ys) px h = elim (Bool-cases (before x y)) [
    | inl e ↦ rw e (px, h)
    | inr e ↦ rw e (h.0, All-insert_by before x ys px h.1)
  ]

  pub All-sort_by : (before : A → A → Bool) (xs : List A) → All P xs → All P (sort_by before xs)
  unfolding sort_by
  All-sort_by before [] h = tt
  All-sort_by before (x ∷ xs) h =
      All-insert_by before x (sort_by before xs) h.0 (All-sort_by before xs h.1)

  pub All-take : (n : ℕ) (xs : List A) → All P xs → All P (take n xs)
  All-take zero xs h = tt
  All-take (suc n) [] h = tt
  All-take (suc n) (x ∷ xs) h = (h.0, All-take n xs h.1)

  pub All-update :
      (p : A → Bool) (f : A → A) (xs : List A)
      → ((x : A) → p x ≡ true → P x → P (f x))
      → All P xs
      → All P (update p f xs)
  All-update p f [] step h = tt
  All-update p f (x ∷ xs) step h = elim (Bool-cases (p x)) [
    | inl e ↦ rw e (step x e h.0, All-update p f xs step h.1)
    | inr e ↦ rw e (h.0, All-update p f xs step h.1)
  ]

  -- What every updated row and every row that is left alone satisfies.
  pub All-updated :
      (p : A → Bool) (f : A → A) (xs : List A)
      → ((x : A) → p x ≡ true → P (f x))
      → ((x : A) → p x ≡ false → P x)
      → All P (update p f xs)
  All-updated p f [] yes_case no_case = tt
  All-updated p f (x ∷ xs) yes_case no_case = elim (Bool-cases (p x)) [
    | inl e ↦ rw e (yes_case x e, All-updated p f xs yes_case no_case)
    | inr e ↦ rw e (no_case x e, All-updated p f xs yes_case no_case)
  ]

pub All-both {ℓ κ} :
    {A : Type ℓ} (P Q R : A → Type κ) (xs : List A)
    → ((x : A) → P x → Q x → R x)
    → All P xs
    → All Q xs
    → All R xs
All-both P Q R [] f hp hq = tt
All-both P Q R (x ∷ xs) f hp hq = (f x hp.0 hq.0, All-both P Q R xs f hp.1 hq.1)

pub All-always {ℓ κ} : {A : Type ℓ} (P : A → Type κ) (xs : List A) → ((x : A) → P x) → All P xs
All-always P [] f = tt
All-always P (x ∷ xs) f = (f x, All-always P xs f)

pub All-map {ℓ κ ι} :
    {A : Type ℓ} {B : Type κ} (P : B → Type ι) (f : A → B) (xs : List A)
    → All (λ x. P (f x)) xs
    → All P (map f xs)
All-map P f [] h = tt
All-map P f (x ∷ xs) h = (h.0, All-map P f xs h.1)

pub All-select_both {ℓ κ} :
    {A : Type ℓ} (P : A → Type κ) (p : A → Bool) (xs : List A) → All P xs → All P (select p xs)
All-select_both P p [] h = tt
All-select_both P p (x ∷ xs) h = elim (Bool-cases (p x)) [
  | inl e ↦ rw e (h.0, All-select_both P p xs h.1)
  | inr e ↦ rw e (All-select_both P p xs h.1)
]

pub select-append {ℓ} :
    {A : Type ℓ} (p : A → Bool) (xs ys : List A) → select p (xs ++ ys) ≡ select p xs ++ select p ys
select-append p [] ys = refl
select-append p (x ∷ xs) ys = ground (arith, select-append p xs ys)

module _ {ℓ κ} {A : Type ℓ} (P : A → Type κ) where
  pub All-append_one : (xs : List A) (y : A) → All P xs → P y → All P (xs ++ y ∷ [])
  All-append_one [] y h p = (p, tt)
  All-append_one (x ∷ xs) y h p = (h.0, All-append_one xs y h.1 p)

  pub All-mono {ι} : (Q : A → Type ι) (xs : List A) → ((x : A) → P x → Q x) → All P xs → All Q xs
  All-mono Q [] f h = tt
  All-mono Q (x ∷ xs) f h = (f x h.0, All-mono Q xs f h.1)

  some_inj : (x y : A) → some x ≡ some y → x ≡ y
  some_inj x y h = ground (arith, h)

  -- What all rows satisfy, the row that is found satisfies.
  pub find?-All :
      (p : A → Bool) (xs : List A) (x : A) → All P xs → find? p xs ≡ some x → P x × (p x ≡ true)
  find?-All p [] x h found = ground (arith, found)
  find?-All p (y ∷ ys) x h found = elim (Bool-cases (p y)) [
    | inl e ↦
        let found' : some y ≡ some x = rw e at found in
        let same = some_inj y x found' in (subst P same h.0, subst (λ z. p z ≡ true) same e)
    | inr e ↦ find?-All p ys x h.1 (rw e at found)
  ]
