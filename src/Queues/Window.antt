-- ===== src/Queues/Window.antt =====
-- The ring window of decode.py: which slots it shows, and in which order.
use telemetryd.Base.{
  ℕ, zero, suc, ◌+◌, ◌-◌, ◌%◌, ◌≤◌, ◌<◌, ◌≡◌, refl, ap, ◌∙◌, ℤ, pos, arith, some, [], map, length,
  length-map, length-range_from, range, range_from, get_elem?, sub_mod, ◌⊎◌, inl, inr, leb, ltb,
  negsuc, if◌then◌else◌,
}
use telemetryd.Queues.Decode.{window_indices, window_count}

-- The window has as many slots as asked for, and at most the whole ring.
pub length-window_indices :
    (doorbell depth : ℕ) (limit : ℤ)
    → length (window_indices doorbell depth limit) ≡ window_count limit depth
unfolding window_indices
length-window_indices doorbell depth limit =
    length-map _ (range (window_count limit depth)) ∙ length-range_from 0 _

window_count-le : (limit : ℤ) (depth : ℕ) → window_count limit depth ≤ depth
window_count-le limit depth = ground arith

get_elem?-map :
    (f : ℕ → ℕ) (start n k : ℕ)
    → k < n
    → get_elem? (map f (range_from start n)) k ≡ some (f (start + k))
get_elem?-map f start zero k h = elim h [ ]
get_elem?-map f start (suc n) zero h = ap (λ (j : ℕ). some (f j)) (omega arith)
get_elem?-map f start (suc n) (suc k) h =
    get_elem?-map f (suc start) n k (omega arith) ∙ ap (λ (j : ℕ). some (f j)) (omega arith)

-- Within the ring the remainder is one step round it.
wrapped : (a b d : ℕ) → a < d → b ≤ d → sub_mod a b d ≡ (if leb b a then a - b else d - (b - a))
wrapped a b d h k = grind arith

-- Where the window has its k-th slot, if the doorbell is inside the ring.
abbrev slot : ℕ → ℕ → ℕ → ℕ
slot doorbell depth k =
    if leb (1 + k) doorbell then doorbell - (1 + k) else depth - (1 + k - doorbell)

pub get_elem?-window_indices :
    (doorbell depth k : ℕ) (limit : ℤ)
    → doorbell < depth
    → k < window_count limit depth
    → get_elem? (window_indices doorbell depth limit) k ≡ some (slot doorbell depth k)
unfolding window_indices
get_elem?-window_indices doorbell depth k limit h m =
    get_elem?-map _ 0 (window_count limit depth) k m
    ∙ ap some (
        ap (λ (j : ℕ). sub_mod doorbell (1 + j) depth) (omega arith)
        ∙ wrapped doorbell (1 + k) depth h (omega (arith, window_count-le limit depth)))

once_round : (a d s : ℕ) → a < d → (s ≡ a) ⊎ (s ≡ a + d) → s % d ≡ a
once_round a d s h (inl e) = grind arith
once_round a d s h (inr e) = grind arith

-- For a doorbell inside the ring, the k-th slot shown is a slot of the ring, and k + 1 steps
-- forward from it, round the ring, stands the doorbell: the newest entry comes first.
pub window_indices-behind :
    (doorbell depth k : ℕ) (limit : ℤ)
    → doorbell < depth
    → k < window_count limit depth
    → (s : ℕ) × (get_elem? (window_indices doorbell depth limit) k ≡ some s)
      × (s < depth)
      × ((s + (k + 1)) % depth ≡ doorbell)
window_indices-behind doorbell depth k limit h m =
    let le = window_count-le limit depth in
    (
      slot doorbell depth k,
      get_elem?-window_indices doorbell depth k limit h m,
      grind arith,
      once_round doorbell depth _ h (forward le),
    )
  where
    forward :
        window_count limit depth ≤ depth
        → (slot doorbell depth k + (k + 1) ≡ doorbell)
          ⊎ (slot doorbell depth k + (k + 1) ≡ doorbell + depth)
    forward le = ground arith

-- A limit of 0 shows every slot of the ring.
pub window_indices-whole :
    (doorbell depth s : ℕ)
    → doorbell < depth
    → s < depth
    → (k : ℕ) × (k < depth) × (get_elem? (window_indices doorbell depth (pos 0)) k ≡ some s)
window_indices-whole doorbell depth s h m =
    let k = if ltb s doorbell then doorbell - (s + 1) else doorbell + depth - (s + 1) in
    (
      k,
      ground arith,
      get_elem?-window_indices doorbell depth k (pos 0) h (ground arith) ∙ ap some (ground arith),
    )

-- A negative limit shows nothing: `range` has no round.
pub window_indices-negative : (doorbell depth n : ℕ) → window_indices doorbell depth (negsuc n) ≡ []
unfolding window_indices
window_indices-negative doorbell depth n = refl
