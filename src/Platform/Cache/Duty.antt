-- ===== src/Platform/Cache/Duty.antt =====
-- How much of the time the cache can spend on computing one key: the self-regulation that the module
-- comment of cache.py promises.
use telemetryd.Base.{
  ℕ, ◌+◌, ◌-◌, ◌*◌, ◌≤◌, ◌≡◌, ap, ◌∙◌, max, none, some, List, [], ◌∷◌, if◌then◌else◌, Eq, get,
  get-put, beq_refl, Result, ok, raise, arith, inl, inr, Option-cases, Bool-cases,
}
use telemetryd.Platform.Cache.{Entry, AdaptiveTtlCache, is_fresh, store_computed, get_or_compute}
use telemetryd.Platform.Cache.Reads.{IsStale, get_or_compute-computes, get_or_compute-fresh}

enough :
    (f cost now m least : ℕ)
    → m ≤ now
    → (f + 1) * cost + m ≤ now + cost + max least ((now + cost - now) * f)
enough f cost now m least h =
    let e : now + cost - now ≡ cost = omega arith in
    let d : (f + 1) * cost ≡ cost * f + cost = grind arith in rw e (omega (arith, d))

join : (f a b x y z : ℕ) → (f + 1) * a + x ≤ y → (f + 1) * b + y ≤ z → (f + 1) * (a + b) + x ≤ z
join f a b x y z h k =
    let d : (f + 1) * (a + b) ≡ (f + 1) * a + (f + 1) * b = grind arith in omega (arith, d)

-- A call at a time, with what its computation would take, and return or raise.
pub record Call {ℓ} (E T : Type ℓ) : Type ℓ where
  pub now : ℕ
  pub cost : ℕ
  pub outcome : Result E T

-- The time of a computation that returned.
abbrev pub returned_in {ℓ} : {E T : Type ℓ} → ℕ → Result E T → ℕ
returned_in cost (ok value) = cost
returned_in cost (raise err) = 0

module _ {ℓ} {K T : Type ℓ} (E : Type ℓ) ⦃e : Eq K⦄ (key : K) where
  -- The time that a call spends on a computation that returns.
  abbrev pub spent : AdaptiveTtlCache K T → Call E T → ℕ
  spent c call = elim (get c.entries key) [
    | none ↦ returned_in call.cost call.outcome
    | some hit ↦ if is_fresh call.now hit then 0 else returned_in call.cost call.outcome
  ]

  abbrev pub after : AdaptiveTtlCache K T → Call E T → AdaptiveTtlCache K T
  after c call = (get_or_compute {E = E} c key call.now (call.now + call.cost) call.outcome).0

  -- The cache after the calls, and the time that they spent on computations that returned.
  unfoldable pub run : AdaptiveTtlCache K T → List (Call E T) → AdaptiveTtlCache K T × ℕ
  run c [] = (c, 0)
  run c (call ∷ calls) = let (c', busy) = run (after c call) calls in (c', spent c call + busy)

  computed_entry : AdaptiveTtlCache K T → ℕ → ℕ → T → Entry T
  computed_entry c now cost value = record {
    cached_at = now + cost;
    value = value;
    ttl = max c.min_ttl ((now + cost - now) * c.duration_factor);
  }

  -- When the entry of the key expires; `start` if there is none.
  abbrev expiry : ℕ → AdaptiveTtlCache K T → ℕ
  expiry start c = elim (get c.entries key) [ none ↦ start | some hit ↦ hit.cached_at + hit.ttl ]

  abbrev call_at : ℕ → ℕ → Result E T → Call E T
  call_at now cost outcome = record { now = now; cost = cost; outcome = outcome }

  factor-after :
      (c : AdaptiveTtlCache K T) (now cost : ℕ) (o : Result E T)
      → (after c (call_at now cost o)).duration_factor ≡ c.duration_factor
  unfolding get_or_compute store_computed
  factor-after c now cost (ok value) = ground arith
  factor-after c now cost (raise err) = ground arith

  -- A computation that raises leaves the cache as it was.
  after-raise :
      (c : AdaptiveTtlCache K T) (now cost : ℕ) (err : E)
      → after c (call_at now cost (raise err)) ≡ c
  unfolding get_or_compute store_computed
  after-raise c now cost err = ground arith

  stored-expiry :
      (start : ℕ) (c : AdaptiveTtlCache K T) (now cost : ℕ) (value : T)
      → expiry start (store_computed {E = E} c key now (now + cost) (ok value)).0
        ≡ now + cost + max c.min_ttl ((now + cost - now) * c.duration_factor)
  unfolding store_computed computed_entry
  stored-expiry start c now cost value =
      ground (arith, get-put c.entries key key (computed_entry c now cost value), beq_refl key)

  spent-stale :
      (start m : ℕ) (c : AdaptiveTtlCache K T) (now cost : ℕ) (value : T)
      → IsStale c key now
      → m ≤ now
      → (c.duration_factor + 1) * cost + m ≤ expiry start (after c (call_at now cost (ok value)))
  spent-stale start m c now cost value stale h =
      let same =
        ap (λ (p : AdaptiveTtlCache K T × Result E T). expiry start p.0)
          (get_or_compute-computes {E = E} c key now (now + cost) (ok value) stale)
        ∙ stored-expiry start c now cost value in
      rw same (enough c.duration_factor cost now m c.min_ttl h)

  spent-after :
      (start : ℕ) (c : AdaptiveTtlCache K T) (now cost : ℕ) (o : Result E T)
      → start ≤ now
      → (c.duration_factor + 1) * spent c (call_at now cost o) + expiry start c
        ≤ expiry start (after c (call_at now cost o))
  spent-after start c now cost (raise err) h =
      let nothing : spent c (call_at now cost (raise err)) ≡ 0 = ground arith in
      rw (after-raise c now cost err) (rw nothing (omega arith))
  spent-after start c now cost (ok value) h =
      let call = call_at now cost (ok value) in
      elim (Option-cases (get c.entries key)) [
        | inl missing ↦
            let whole : spent c call ≡ cost = ground (arith, missing) in
            let old : expiry start c ≡ start = ground (arith, missing) in
            rw whole (
              rw old (
                spent-stale start start c now cost value
                  (λ hit found. absurd (ground (arith, missing, found))) h))
        | inr (hit, found) ↦
            let old : expiry start c ≡ hit.cached_at + hit.ttl = ground (arith, found) in
            elim (Bool-cases (is_fresh now hit)) [
              | inl fresh ↦
                  let nothing : spent c call ≡ 0 = ground (arith, found, fresh) in
                  let same =
                    ap (λ (p : AdaptiveTtlCache K T × Result E T). expiry start p.0)
                      (get_or_compute-fresh {E = E} c key now (now + cost) hit (ok value) found
                        (ground arith)) in
                  rw nothing (rw same (omega arith))
              | inr expired ↦
                  let whole : spent c call ≡ cost = ground (arith, found, expired) in
                  let stale : IsStale c key now = λ hit' found'. ground (arith, found, found') in
                  rw whole (
                    rw old (
                      spent-stale start (hit.cached_at + hit.ttl) c now cost value stale
                        (ground arith)))
            ]
      ]

  abbrev NotBefore : ℕ → List (Call E T) → Type 0
  NotBefore start [] = Unit
  NotBefore start (call ∷ calls) = (start ≤ call.now) × NotBefore start calls

  run-expiry :
      (start : ℕ) (c : AdaptiveTtlCache K T) (calls : List (Call E T))
      → NotBefore start calls
      → (c.duration_factor + 1) * (run c calls).1 + expiry start c ≤ expiry start (run c calls).0
  unfolding run
  run-expiry start c [] h = omega arith
  run-expiry start c (call ∷ calls) h =
      let ih = run-expiry start (after c call) calls h.1 in
      let step = spent-after start c call.now call.cost call.outcome h.0 in
      join c.duration_factor (spent c call) (run (after c call) calls).1 _ _ _ step
        (rw (factor-after c call.now call.cost call.outcome) at ih)

  -- From a cache without an entry of the key on, whatever the calls after `start` and whether their
  -- computations return or raise, with no invalidation between them: at any time at which a call has
  -- to compute, at most one part in `duration_factor + 1` of the time since `start` has been spent on
  -- computations that returned.
  pub run-duty :
      (start : ℕ) (c : AdaptiveTtlCache K T) (calls : List (Call E T)) (now : ℕ)
      → get c.entries key ≡ none
      → NotBefore start calls
      → start ≤ now
      → IsStale (run c calls).0 key now
      → (c.duration_factor + 1) * (run c calls).1 + start ≤ now
  run-duty start c calls now missing h k again =
      let all = run-expiry start c calls h in
      let old : expiry start c ≡ start = ground (arith, missing) in
      let over : expiry start (run c calls).0 ≤ now =
        elim (Option-cases (get (run c calls).0.entries key)) [
          | inl e ↦ rw (e, expiry) k
          | inr (hit, found) ↦ rw (found, expiry) (again hit found)
        ] in
      omega (arith, all)
