-- ===== src/Queues/Flat.antt =====
-- Physical memory that can be read everywhere, and what decode.py's reads give of it.
use telemetryd.Base.{
  ℕ, zero, suc, ◌+◌, ◌-◌, ◌*◌, ◌≤◌, ◌≡◌, refl, ap, ◌∙◌, min, arith, some, List, [], ◌∷◌, ◌++◌,
  length, take,
}
use telemetryd.Queues.Decode.{le_value, unpack}

-- The n bytes of a flat memory from an address on.
abbrev pub flat : (ℕ → ℕ) → ℕ → ℕ → List ℕ
flat f p zero = []
flat f p (suc n) = f p ∷ flat f (suc p) n

-- The PRP entry at an address: eight bytes, little-endian.
abbrev pub prp_entry : (ℕ → ℕ) → ℕ → ℕ
prp_entry f p = le_value (flat f p 8)

pub length-flat : (f : ℕ → ℕ) (p n : ℕ) → length (flat f p n) ≡ n
length-flat f p zero = refl
length-flat f p (suc n) = ap suc (length-flat f (suc p) n)

pub take-flat : (f : ℕ → ℕ) (k p n : ℕ) → take k (flat f p n) ≡ flat f p (min k n)
take-flat f zero p n = let e : zero ≡ min zero n = omega arith in ap (flat f p) e
take-flat f (suc k) p zero = let e : zero ≡ min (suc k) zero = omega arith in ap (flat f p) e
take-flat f (suc k) p (suc n) =
    ap (◌∷◌ (f p)) (take-flat f k (suc p) n) ∙ ap (flat f p) (min_suc k n)
  where
    min_suc : (k n : ℕ) → suc (min k n) ≡ min (suc k) (suc n)
    min_suc k n = omega arith

pub take-append_past :
    (k : ℕ) (xs ys : List ℕ) → length xs ≤ k → take k (xs ++ ys) ≡ xs ++ take (k - length xs) ys
take-append_past k [] ys h = ap (λ (m : ℕ). take m ys) (omega arith)
take-append_past zero (x ∷ xs) ys h = absurd (omega arith)
take-append_past (suc k) (x ∷ xs) ys h =
    ap (◌∷◌ x)
      (take-append_past k xs ys (omega arith) ∙ ap (λ (m : ℕ). xs ++ take m ys) (omega arith))

pub take-append_within : (k : ℕ) (xs ys : List ℕ) → k ≤ length xs → take k (xs ++ ys) ≡ take k xs
take-append_within zero xs ys h = refl
take-append_within (suc k) [] ys h = absurd (omega arith)
take-append_within (suc k) (x ∷ xs) ys h = ap (◌∷◌ x) (take-append_within k xs ys (omega arith))

pub append_nil : (xs : List ℕ) → xs ++ [] ≡ xs
append_nil [] = refl
append_nil (x ∷ xs) = ap (◌∷◌ x) (append_nil xs)

unfoldable pub prp_entries : (ℕ → ℕ) → ℕ → ℕ → List ℕ
prp_entries f p zero = []
prp_entries f p (suc n) = prp_entry f p ∷ prp_entries f (p + 8) n

pub unpack-flat :
    (f : ℕ → ℕ) (n p m : ℕ) → m ≡ n * 8 → unpack n (flat f p m) ≡ some (prp_entries f p n)
unfolding unpack prp_entries
unpack-flat f zero p m h = rw h
unpack-flat f (suc n) p m h =
    let e : m ≡ suc (suc (suc (suc (suc (suc (suc (suc (n * 8)))))))) = omega arith in
    let ih = unpack-flat f n (p + 8) (n * 8) refl in
    let q : suc (suc (suc (suc (suc (suc (suc (suc p))))))) ≡ p + 8 = omega arith in
    rw e (rw q (ground (arith, ih)))
