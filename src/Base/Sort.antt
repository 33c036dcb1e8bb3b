-- ===== src/Base/Sort.antt =====
-- Python's stable `sort` by a strict comparison, and membership in a list.
use mathlib.Core.Path.{◌≡◌, refl, ap, ◌∙◌, sym}
use mathlib.Core.Logic.{◌⊎◌, inl, inr}
use mathlib.Core.Bool.{Bool, true, false}
use mathlib.Core.List.{List, [], ◌∷◌, map, Perm}
use mathlib.Core.List.Perm
use native.Mathlib.Omega.{arith}
use telemetryd.Base.Tests.{if◌then◌else◌, Bool-cases}
use telemetryd.Base.Lists.{select}

pub data Member {ℓ} {A : Type ℓ} (x : A) : List A → Type ℓ where
  here : {y : A} {ys : List A} → x ≡ y → Member x (y ∷ ys)
  there : {y : A} {ys : List A} → Member x ys → Member x (y ∷ ys)

module _ {ℓ κ} {A : Type ℓ} {B : Type κ} (f : A → B) where
  pub Member-map : {x : A} {xs : List A} → Member x xs → Member (f x) (map f xs)
  Member-map (here e) = here (ap f e)
  Member-map (there m) = there (Member-map m)

  pub Member-map_inv :
      (xs : List A) {y : B} → Member y (map f xs) → (x : A) × Member x xs × (y ≡ f x)
  Member-map_inv [] m = elim m [ ]
  Member-map_inv (x ∷ xs) (here e) = (x, here refl, e)
  Member-map_inv (x ∷ xs) (there m) = let (z, n, e) = Member-map_inv xs m in (z, there n, e)

module _ {ℓ} {A : Type ℓ} where
  cons_inv : {z x y : A} {ys : List A} → Member z (x ∷ y ∷ ys) → (z ≡ x) ⊎ Member z (y ∷ ys)
  cons_inv (here e) = inl e
  cons_inv (there m) = inr m

  there_inr : {z x y : A} {ys : List A} → (z ≡ x) ⊎ Member z ys → (z ≡ x) ⊎ Member z (y ∷ ys)
  there_inr (inl e) = inl e
  there_inr (inr m) = inr (there m)

  below_inv :
      {z x y : A} {ys zs : List A}
      → Member z (y ∷ zs)
      → (Member z zs → (z ≡ x) ⊎ Member z ys)
      → (z ≡ x) ⊎ Member z (y ∷ ys)
  below_inv (here e) ih = inr (here e)
  below_inv (there m) ih = there_inr (ih m)

  join_inv :
      {z x : A} {ys zs : List A}
      → (z ≡ x) ⊎ Member z zs
      → (Member z zs → Member z ys)
      → Member z (x ∷ ys)
  join_inv (inl e) ih = here e
  join_inv (inr m) ih = there (ih m)

module _ {ℓ} {A : Type ℓ} (p : A → Bool) where
  pub Member-select : {z : A} (xs : List A) → Member z xs → p z ≡ true → Member z (select p xs)
  Member-select [] m h = elim m [ ]
  Member-select (x ∷ xs) (here same) h = rw (sym (ap p same) ∙ h) (here same)
  Member-select (x ∷ xs) (there m) h = elim (Bool-cases (p x)) [
    | inl e ↦ rw e (there (Member-select xs m h))
    | inr e ↦ rw e (Member-select xs m h)
  ]

  below_select :
      {z x : A} {xs ys : List A}
      → p x ≡ true
      → Member z (x ∷ ys)
      → (Member z ys → Member z xs × (p z ≡ true))
      → Member z (x ∷ xs) × (p z ≡ true)
  below_select h (here same) ih = (here same, ap p same ∙ h)
  below_select h (there m) ih = let (n, k) = ih m in (there n, k)

  pub Member-select_inv :
      {z : A} (xs : List A) → Member z (select p xs) → Member z xs × (p z ≡ true)
  Member-select_inv [] m = elim m [ ]
  Member-select_inv (x ∷ xs) m = elim (Bool-cases (p x)) [
    | inl e ↦ below_select e (rw e at m) (Member-select_inv xs)
    | inr e ↦ let (n, k) = Member-select_inv xs (rw e at m) in (there n, k)
  ]

module _ {ℓ} {A : Type ℓ} (lt : A → A → Bool) where
  -- In front of the first element that is not below `x`.
  unfoldable pub insert_by : A → List A → List A
  insert_by x [] = x ∷ []
  insert_by x (y ∷ ys) = if lt y x then y ∷ insert_by x ys else x ∷ y ∷ ys

  unfoldable pub sort_by : List A → List A
  unfolding insert_by
  sort_by [] = []
  sort_by (x ∷ xs) = insert_by x (sort_by xs)

  insert_by-perm : (x : A) (ys : List A) → Perm (insert_by x ys) (x ∷ ys)
  unfolding insert_by
  insert_by-perm x [] = Perm.refl (x ∷ [])
  insert_by-perm x (y ∷ ys) = elim (Bool-cases (lt y x)) [
    | inl below ↦ rw below (Perm.trans (Perm.cons y (insert_by-perm x ys)) (Perm.swap x y ys))
    | inr above ↦ rw above (Perm.refl (x ∷ y ∷ ys))
  ]

  pub sort_by-perm : (xs : List A) → Perm (sort_by xs) xs
  unfolding sort_by
  sort_by-perm [] = Perm.refl []
  sort_by-perm (x ∷ xs) = Perm.trans (insert_by-perm x (sort_by xs)) (Perm.cons x (sort_by-perm xs))

  Member-insert_by : {z x : A} (ys : List A) → (z ≡ x) ⊎ Member z ys → Member z (insert_by x ys)
  unfolding insert_by
  Member-insert_by [] (inl e) = here e
  Member-insert_by [] (inr m) = there m
  Member-insert_by {z} {x} (y ∷ ys) (inl e) = elim (Bool-cases (lt y x)) [
    | inl below ↦ rw below (there (Member-insert_by ys (inl e)))
    | inr above ↦ rw above (here e)
  ]
  Member-insert_by {z} {x} (y ∷ ys) (inr (here e)) = elim (Bool-cases (lt y x)) [
    | inl below ↦ rw below (here e)
    | inr above ↦ rw above (there (here e))
  ]
  Member-insert_by {z} {x} (y ∷ ys) (inr (there m)) = elim (Bool-cases (lt y x)) [
    | inl below ↦ rw below (there (Member-insert_by ys (inr m)))
    | inr above ↦ rw above (there (there m))
  ]

  pub Member-sort_by : {z : A} (xs : List A) → Member z xs → Member z (sort_by xs)
  unfolding sort_by
  Member-sort_by [] m = elim m [ ]
  Member-sort_by (x ∷ xs) (here e) = Member-insert_by (sort_by xs) (inl e)
  Member-sort_by (x ∷ xs) (there m) = Member-insert_by (sort_by xs) (inr (Member-sort_by xs m))

  Member-insert_by_inv : {z x : A} (ys : List A) → Member z (insert_by x ys) → (z ≡ x) ⊎ Member z ys
  unfolding insert_by
  Member-insert_by_inv [] (here e) = inl e
  Member-insert_by_inv [] (there m) = inr m
  Member-insert_by_inv {z} {x} (y ∷ ys) m = elim (Bool-cases (lt y x)) [
    | inl below ↦ below_inv (rw below at m) (Member-insert_by_inv ys)
    | inr above ↦ cons_inv (rw above at m)
  ]

  pub Member-sort_by_inv : {z : A} (xs : List A) → Member z (sort_by xs) → Member z xs
  unfolding sort_by
  Member-sort_by_inv [] m = elim m [ ]
  Member-sort_by_inv (x ∷ xs) m =
      join_inv (Member-insert_by_inv (sort_by xs) m) (Member-sort_by_inv xs)

  -- No element is below the one in front of it.
  abbrev pub IsSorted : List A → Type 0
  IsSorted [] = Unit
  IsSorted (x ∷ []) = Unit
  IsSorted (x ∷ y ∷ ys) = (lt y x ≡ false) × IsSorted (y ∷ ys)

  module _ (asym : (a b : A) → lt a b ≡ true → lt b a ≡ false) where
    IsSorted-insert_by : (x : A) (ys : List A) → IsSorted ys → IsSorted (insert_by x ys)
    unfolding insert_by
    IsSorted-insert_by x [] s = tt
    IsSorted-insert_by x (y ∷ []) s = ground (arith, asym y x)
    IsSorted-insert_by x (y ∷ z ∷ ys) s =
        ground (arith, asym y x, asym z x, IsSorted-insert_by x (z ∷ ys) s.1)

    -- The result is in order.
    pub sort_by-IsSorted : (xs : List A) → IsSorted (sort_by xs)
    unfolding sort_by
    sort_by-IsSorted [] = tt
    sort_by-IsSorted (x ∷ xs) = IsSorted-insert_by x (sort_by xs) (sort_by-IsSorted xs)
