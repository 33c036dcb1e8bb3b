-- ===== src/Targets/SessionIds.antt =====
-- backend/targets.py `_session_id`. `stamp` is the local time as `%Y%m%d_%H%M%S`.
use telemetryd.Base.{
  ℕ, zero, suc, ◌≤◌, ◌<◌, ◌%◌, ◌≡◌, refl, sym, ap, ◌∙◌, Bool, true, false, not, List, [], ◌∷◌, ◌++◌,
  length, select, Text, text_eq, text_eq_iff, text_in, codes, decimal, value-decimal, value_from,
  hex_pad, if◌then◌else◌, arith, Bool-cases, inl, inr, Member, here, there, Member-select,
}

abbrev pub base_id : Text → ℕ → Text
base_id stamp pid = codes "sess_" ++ (stamp ++ (codes "_" ++ decimal pid))

-- `f"{base}_{start_ns & 0xFFFF:04x}"`
abbrev pub with_start : Text → ℕ → Text
with_start base start_ns = base ++ (codes "_" ++ hex_pad 4 (start_ns % 65536))

abbrev pub numbered : Text → ℕ → Text
numbered candidate n = candidate ++ (codes "_" ++ decimal n)

-- The loop, from the n-th candidate on; what the fuel's end gives is never reached.
unfoldable pub first_free : ℕ → Text → List Text → ℕ → Text
first_free zero candidate taken n = numbered candidate n
first_free (suc fuel) candidate taken n =
    let rest = first_free fuel candidate taken (suc n) in
    if text_in taken (numbered candidate n) then rest else numbered candidate n

unfoldable pub session_id : Text → ℕ → ℕ → List Text → Text
session_id stamp pid start_ns taken =
    let base = base_id stamp pid in
    let candidate = with_start base start_ns in
    if text_in taken base
    then (if text_in taken candidate
        then first_free (length taken) candidate taken 2
        else candidate)
    else base

text_in-Member : (xs : List Text) (t : Text) → text_in xs t ≡ true → Member t xs
text_in-Member [] t h = absurd (ground (arith, h))
text_in-Member (x ∷ xs) t h = elim (Bool-cases (text_eq x t)) [
  | inl e ↦ here (sym ((text_eq_iff x t).0 e))
  | inr e ↦ there (text_in-Member xs t (rw e at h))
]

append_cancel : (p a b : Text) → p ++ a ≡ p ++ b → a ≡ b
append_cancel [] a b e = e
append_cancel (c ∷ p) a b e = append_cancel p a b (ground (arith, e))

decimal_injective : (m n : ℕ) → decimal m ≡ decimal n → m ≡ n
decimal_injective m n e = sym (value-decimal m) ∙ ap (value_from 0) e ∙ value-decimal n

numbered_injective : (c : Text) (m n : ℕ) → numbered c m ≡ numbered c n → m ≡ n
numbered_injective c m n e = decimal_injective m n (
    append_cancel (codes "_") (decimal m) (decimal n)
      (append_cancel c (codes "_" ++ decimal m) (codes "_" ++ decimal n) e))

-- The list without a text.
without : Text → List Text → List Text
without t xs = select (λ x. not (text_eq x t)) xs

length-select-le : (p : Text → Bool) (xs : List Text) → length (select p xs) ≤ length xs
length-select-le p [] = omega arith
length-select-le p (x ∷ xs) = ground (arith, length-select-le p xs)

length-without : (t : Text) (xs : List Text) → Member t xs → length (without t xs) < length xs
unfolding without
length-without t [] m = elim m [ ]
length-without t (x ∷ xs) (here e) =
    ground (arith, (text_eq_iff x t).1 (sym e), length-select-le (λ y. not (text_eq y t)) xs)
length-without t (x ∷ xs) (there m) = ground (arith, length-without t xs m)

nonempty : (t : Text) (xs : List Text) → Member t xs → 0 < length xs
nonempty t [] m = elim m [ ]
nonempty t (x ∷ xs) m = omega arith

kept_numbered : (c : Text) (m n : ℕ) → n < m → not (text_eq (numbered c m) (numbered c n)) ≡ true
kept_numbered c m n above = elim (Bool-cases (text_eq (numbered c m) (numbered c n))) [
  | inl same ↦
      absurd (
        omega
          (arith, numbered_injective c m n ((text_eq_iff (numbered c m) (numbered c n)).0 same)))
  | inr other ↦ ground (arith, other)
]

-- Some candidate among the next ones is free, as many as there are taken texts that a candidate
-- from the n-th on can be, and one more.
first_free_in :
    (fuel : ℕ) (c : Text) (taken left : List Text) (n : ℕ)
    → length left ≤ fuel
    → ((m : ℕ) → n ≤ m → Member (numbered c m) taken → Member (numbered c m) left)
    → text_in taken (first_free fuel c taken n) ≡ false
unfolding first_free without
first_free_in zero c taken left n short h = elim (Bool-cases (text_in taken (numbered c n))) [
  | inl e ↦
      let held = h n (omega arith) (text_in-Member taken (numbered c n) e) in
      absurd (omega (arith, nonempty (numbered c n) left held))
  | inr e ↦ e
]
first_free_in (suc fuel) c taken left n short h = elim (Bool-cases (text_in taken (numbered c n))) [
  | inl e ↦
      let held = h n (omega arith) (text_in-Member taken (numbered c n) e) in
      rw (e, first_free)
        (first_free_in fuel c taken (without (numbered c n) left) (suc n)
          (omega (arith, length-without (numbered c n) left held))
          (λ m above mem.
            Member-select (λ x. not (text_eq x (numbered c n))) left (h m (omega arith) mem)
              (kept_numbered c m n (omega arith))))
  | inr e ↦ rw (e, first_free) e
]

-- The loop ends with a free id: a new session's id is none of those that are taken, whatever they
-- are.
pub session_id-free :
    (stamp : Text) (pid start_ns : ℕ) (taken : List Text)
    → text_in taken (session_id stamp pid start_ns taken) ≡ false
unfolding session_id
session_id-free stamp pid start_ns taken =
    let base = base_id stamp pid in
    let candidate = with_start base start_ns in
    elim (Bool-cases (text_in taken base)) [
      | inr free ↦ rw (free, session_id) free
      | inl base_taken ↦ elim (Bool-cases (text_in taken candidate)) [
        | inr free ↦ rw (base_taken, free) free
        | inl taken_too ↦
            rw (base_taken, taken_too)
              (first_free_in (length taken) candidate taken taken 2 (omega arith)
                (λ m above mem. mem))
      ]
    ]

-- Where the plain form is free it is the id.
pub session_id-base :
    (stamp : Text) (pid start_ns : ℕ) (taken : List Text)
    → text_in taken (base_id stamp pid) ≡ false
    → session_id stamp pid start_ns taken ≡ base_id stamp pid
unfolding session_id
session_id-base stamp pid start_ns taken free = rw free refl
