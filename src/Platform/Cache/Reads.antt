-- ===== src/Platform/Cache/Reads.antt =====
-- What a call of the cache returns, and what the next calls see.
use telemetryd.Base.{
  ℕ, ◌+◌, ◌-◌, ◌*◌, ◌≤◌, ◌<◌, ◌≡◌, ◌≢◌, refl, ap, max, false, none, some, Eq, get, put, get-put,
  get-pop, beq_refl, Result, ok, raise, arith, inl, inr, Option-cases,
}
use telemetryd.Platform.Cache.{
  Entry, AdaptiveTtlCache, is_fresh, store_computed, get_or_compute, peek, invalidate,
}

-- No entry of the key is fresh.
abbrev pub IsStale {ℓ} : {K T : Type ℓ} ⦃e : Eq K⦄ → AdaptiveTtlCache K T → K → ℕ → Type ℓ
IsStale {T = T} c key now =
    (hit : Entry T) → get c.entries key ≡ some hit → hit.cached_at + hit.ttl ≤ now

module _ {ℓ} {K T E : Type ℓ} ⦃e : Eq K⦄ (c : AdaptiveTtlCache K T) (key : K)
    (now finished : ℕ) where
  -- While an entry is fresh a call returns its value and changes nothing, whatever a new
  -- computation would give.
  pub get_or_compute-fresh :
      (hit : Entry T) (computed : Result E T)
      → get c.entries key ≡ some hit
      → now < hit.cached_at + hit.ttl
      → get_or_compute c key now finished computed ≡ (c, ok hit.value)
  unfolding get_or_compute
  get_or_compute-fresh hit computed found fresh = ground arith

  pub get_or_compute-computes :
      (computed : Result E T)
      → IsStale c key now
      → get_or_compute c key now finished computed ≡ store_computed c key now finished computed
  unfolding get_or_compute
  get_or_compute-computes computed stale = elim (Option-cases (get c.entries key)) [
    | inl missing ↦ rw (missing, get_or_compute) refl
    | inr (hit, found) ↦
        let old : is_fresh now hit ≡ false = let h = stale hit found in ground arith in
        rw (found, get_or_compute) (rw old refl)
  ]

-- What a call sees of a key depends on the key's own entry.
get_or_compute-same {ℓ} :
    {K T E : Type ℓ} ⦃e : Eq K⦄ (c d : AdaptiveTtlCache K T) (j : K) (t f : ℕ) (r : Result E T)
    → get d.entries j ≡ get c.entries j
    → (get_or_compute d j t f r).1 ≡ (get_or_compute c j t f r).1
unfolding get_or_compute store_computed
get_or_compute-same c d j t f (ok value) h = ground (arith, h)
get_or_compute-same c d j t f (raise err) h = ground (arith, h)

module _ {ℓ} {K T E : Type ℓ} ⦃e : Eq K⦄ (c : AdaptiveTtlCache K T) (key : K)
    (now finished : ℕ) where
  -- A call without a fresh entry passes on what the computation raises, and the cache is as it was; a
  -- computed value is returned, and every later call returns it without a change and whatever it would
  -- compute, up to the least time to live or the factor times the duration behind the computation's
  -- end, whichever is longer; from then on a call computes. What calls of other keys return is the
  -- same as before.
  pub get_or_compute-serves :
      (value : T)
      → IsStale c key now
      → let until = finished + max c.min_ttl ((finished - now) * c.duration_factor) in
        ((err : E) → get_or_compute c key now finished (raise err) ≡ (c, raise err))
        × (c' : AdaptiveTtlCache K T) × (get_or_compute {E = E} c key now finished (ok value)
            ≡ (c', ok value))
        × ((t f : ℕ) (r : Result E T) → t < until → get_or_compute c' key t f r ≡ (c', ok value))
        × ((t f : ℕ) (v : T) → until ≤ t → (get_or_compute {E = E} c' key t f (ok v)).1 ≡ ok v)
        × ((j : K) (t f : ℕ) (r : Result E T)
            → key ≢ j
            → (get_or_compute c' j t f r).1 ≡ (get_or_compute c j t f r).1)
  unfolding store_computed
  get_or_compute-serves value stale =
      let ttl = max c.min_ttl ((finished - now) * c.duration_factor) in
      let entry : Entry T = record { cached_at = finished; value = value; ttl = ttl } in
      let c' = record c { entries = put c.entries key entry } in
      let self : get c'.entries key ≡ some entry =
        ground (arith, get-put c.entries key key entry, beq_refl key) in
      (
        λ err. get_or_compute-computes c key now finished (raise err) stale,
        c',
        get_or_compute-computes {E = E} c key now finished (ok value) stale,
        λ t f r early. get_or_compute-fresh c' key t f entry r self early,
        λ t f v late.
            ap (λ (p : AdaptiveTtlCache K T × Result E T). p.1)
              (get_or_compute-computes {E = E} c' key t f (ok v)
                (λ hit found. ground (arith, self, found, late))),
        λ j t f r other.
            get_or_compute-same c c' j t f r
              (ground (arith, get-put c.entries key j entry, e.beq_iff key j)),
      )

module _ {ℓ} {K T : Type ℓ} ⦃e : Eq K⦄ (c : AdaptiveTtlCache K T) (key : K) where
  forgotten : get (invalidate c (some key)).entries key ≡ none
  unfolding invalidate
  forgotten = ground (arith, get-pop c.entries key key, beq_refl key)

  cleared : get (invalidate c none).entries key ≡ none
  unfolding invalidate get
  cleared = refl

  IsStale-of_none : (now : ℕ) → get c.entries key ≡ none → IsStale c key now
  IsStale-of_none now h hit found = absurd (ground (arith, h, found))

module _ {ℓ} {K T E : Type ℓ} ⦃e : Eq K⦄ (c : AdaptiveTtlCache K T) (key : K) where
  -- After a key or the whole cache is invalidated, the next call of the key computes at once,
  -- however young the entry was; another key is not touched by the first.
  pub invalidate-computes :
      (now finished : ℕ) (computed : Result E T)
      → (get_or_compute (invalidate c (some key)) key now finished computed
          ≡ store_computed (invalidate c (some key)) key now finished computed)
        × (get_or_compute (invalidate c none) key now finished computed
            ≡ store_computed (invalidate c none) key now finished computed)
        × ((j : K) → key ≢ j → peek (invalidate c (some key)) j ≡ peek c j)
  invalidate-computes now finished computed = (
    get_or_compute-computes (invalidate c (some key)) key now finished computed
        (IsStale-of_none (invalidate c (some key)) key now (forgotten c key)),
    get_or_compute-computes (invalidate c none) key now finished computed
        (IsStale-of_none (invalidate c none) key now (cleared c key)),
    λ j other. unfold invalidate peek in ground (arith, get-pop c.entries key j, e.beq_iff key j),
  )
