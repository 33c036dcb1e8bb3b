-- ===== src/Base/Dicts.antt =====
-- Python's `dict` as an association list in insertion order, over keys with a Boolean equality.
use Prim.Native.Nat.{ℕ}
use mathlib.Core.Path.{◌≡◌, refl, ap, ap₂, sym}
use mathlib.Core.Logic.{◌↔◌, inl, inr}
use mathlib.Core.Bool.{Bool, true, false, ◌&&◌}
use mathlib.Core.Option.{Option, none, some}
use mathlib.Core.List.{List, [], ◌∷◌}
use native.Mathlib.Omega.{arith}
use telemetryd.Base.Tests.{◌==◌, ==_iff, if◌then◌else◌, Bool-cases}
use telemetryd.Base.Int.{ℤ, int_eq, int_eq_iff}
use telemetryd.Base.Sort.{Member, here, there}
use telemetryd.Base.Strings.{Text, text_eq, text_eq_iff}

pub record Eq {ℓ} (A : Type ℓ) : Type ℓ where
  pub beq : A → A → Bool
  pub beq_iff : (a b : A) → (beq a b ≡ true) ↔ (a ≡ b)

instance abbrev pub nat_keys : Eq ℕ
nat_keys = record { beq = ◌==◌; beq_iff = ==_iff }

instance abbrev pub text_keys : Eq Text
text_keys = record { beq = text_eq; beq_iff = text_eq_iff }

instance abbrev pub int_keys : Eq ℤ
int_keys = record { beq = int_eq; beq_iff = int_eq_iff }

abbrev pub pair_beq {ℓ κ} : {A : Type ℓ} {B : Type κ} → Eq A → Eq B → A × B → A × B → Bool
pair_beq e f (a, b) (c, d) = e.beq a c && f.beq b d

pub pair_beq_iff {ℓ κ} :
    {A : Type ℓ} {B : Type κ} (e : Eq A) (f : Eq B) (p q : A × B)
    → (pair_beq e f p q ≡ true) ↔ (p ≡ q)
pair_beq_iff e f (a, b) (c, d) = ground (arith, e.beq_iff a c, f.beq_iff b d)

instance abbrev pub pair_keys {ℓ κ} : {A : Type ℓ} {B : Type κ} ⦃e : Eq A⦄ ⦃f : Eq B⦄ → Eq (A × B)
pair_keys ⦃e⦄ ⦃f⦄ = record { beq = pair_beq e f; beq_iff = pair_beq_iff e f }

abbrev pub Dict {ℓ κ} : Type ℓ → Type κ → Type (ℓ ⊔ κ)
Dict K V = List (K × V)

beq_flip {ℓ} : {K : Type ℓ} (e : Eq K) (j k : K) → e.beq j k ≡ false → e.beq k j ≡ false
beq_flip e j k other = ground (arith, e.beq_iff j k, e.beq_iff k j)

module _ {ℓ κ} {K : Type ℓ} {V : Type κ} ⦃e : Eq K⦄ where
  -- `d.get(k)`
  unfoldable pub get : Dict K V → K → Option V
  get [] k = none
  get ((j, v) ∷ d) k = if e.beq j k then some v else get d k

  -- `d[k] = v`: an old key keeps its place.
  unfoldable pub put : Dict K V → K → V → Dict K V
  put [] k v = (k, v) ∷ []
  put ((j, w) ∷ d) k v = if e.beq j k then (j, v) ∷ d else (j, w) ∷ put d k v

  -- `d.pop(k, None)`
  unfoldable pub pop : Dict K V → K → Dict K V
  pop [] k = []
  pop ((j, w) ∷ d) k = let rest = pop d k in if e.beq j k then rest else (j, w) ∷ rest

  pub get-put :
      (d : Dict K V) (k j : K) (v : V) → get (put d k v) j ≡ (if e.beq k j then some v else get d j)
  unfolding get put
  get-put [] k j v = refl
  get-put ((i, w) ∷ d) k j v =
      ground (arith, get-put d k j v, e.beq_iff k j, e.beq_iff i k, e.beq_iff i j)

  pub get-pop : (d : Dict K V) (k j : K) → get (pop d k) j ≡ (if e.beq k j then none else get d j)
  unfolding get pop
  get-pop [] k j = ground arith
  get-pop ((i, w) ∷ d) k j =
      ground (arith, get-pop d k j, e.beq_iff k j, e.beq_iff i k, e.beq_iff i j)

  get-nil : (k : K) → get [] k ≡ none
  unfolding get
  get-nil k = refl

  absent-put :
      (d : Dict K V) (k j : K) (v : V)
      → e.beq k j ≡ false
      → get d j ≡ none
      → get (put d k v) j ≡ none
  absent-put d k j v other absent = ground (arith, get-put d k j v, other, absent)

  -- No key stands twice.
  abbrev pub NoDup : Dict K V → Type κ
  NoDup [] = Unit
  NoDup ((k, v) ∷ d) = (get d k ≡ none) × NoDup d

  pub NoDup-put : (d : Dict K V) (k : K) (v : V) → NoDup d → NoDup (put d k v)
  unfolding put
  NoDup-put [] k v h = (get-nil k, tt)
  NoDup-put ((j, w) ∷ d) k v h = elim (Bool-cases (e.beq j k)) [
    | inl same ↦ rw same h
    | inr other ↦ rw other (absent-put d k j v (beq_flip e j k other) h.0, NoDup-put d k v h.1)
  ]

  pub get-Member : (d : Dict K V) (k : K) (v : V) → NoDup d → Member (k, v) d → get d k ≡ some v
  unfolding get
  get-Member [] k v h m = elim m [ ]
  get-Member ((j, w) ∷ d) k v h (here same) =
      let key : k ≡ j = ap (λ p. p.0) same in
      let value : v ≡ w = ap (λ p. p.1) same in ground (arith, (e.beq_iff j k).1, key, value)
  get-Member ((j, w) ∷ d) k v h (there m) =
      ground (arith, (e.beq_iff j k).0, h.0, get-Member d k v h.1 m)

  pub Member-get : (d : Dict K V) (k : K) (v : V) → get d k ≡ some v → Member (k, v) d
  unfolding get
  Member-get [] k v found = absurd (ground (arith, found))
  Member-get ((j, w) ∷ d) k v found = elim (Bool-cases (e.beq j k)) [
    | inl same ↦
        let value : w ≡ v = ground (arith, same, found) in
        here (ap₂ (λ (x : K) (y : V). (x, y)) (sym ((e.beq_iff j k).0 same)) (sym value))
    | inr other ↦ there (Member-get d k v (rw other at found))
  ]

-- `d.get(k, default)`
abbrev pub get_or {ℓ κ} : {K : Type ℓ} {V : Type κ} ⦃e : Eq K⦄ → Dict K V → K → V → V
get_or d k default = elim (get d k) [ none ↦ default | some v ↦ v ]

pub beq_refl {ℓ} : {K : Type ℓ} ⦃e : Eq K⦄ (k : K) → e.beq k k ≡ true
beq_refl ⦃e⦄ k = (e.beq_iff k k).1 refl
