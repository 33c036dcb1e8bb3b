-- ===== src/Platform/Cache.antt =====
-- platform/cache.py. Clock readings are whole ticks and the duration factor is a whole number; what
-- `compute` returns or raises is an argument.
pub mod Reads
pub mod Duty
use telemetryd.Base.{
  ℕ, ◌+◌, ◌-◌, ◌*◌, max, Bool, true, false, Option, none, some, [], ltb, if◌then◌else◌, Eq, Dict,
  get, put, pop, Result, ok, raise,
}

-- `(cached_at, value, ttl)`
pub record Entry {ℓ} (T : Type ℓ) : Type ℓ where
  pub cached_at : ℕ
  pub value : T
  pub ttl : ℕ

pub record AdaptiveTtlCache {ℓ} (K T : Type ℓ) : Type ℓ where
  pub min_ttl : ℕ
  pub duration_factor : ℕ
  pub entries : Dict K (Entry T)

-- `(now - cached_at) < ttl`
abbrev pub is_fresh {ℓ} : {T : Type ℓ} → ℕ → Entry T → Bool
is_fresh now e = ltb now (e.cached_at + e.ttl)

module _ {ℓ} {K T E : Type ℓ} ⦃e : Eq K⦄ where
  -- The part behind the lookup: `compute()` started at `now` and was over at `finished`.
  unfoldable pub store_computed :
      AdaptiveTtlCache K T → K → ℕ → ℕ → Result E T → AdaptiveTtlCache K T × Result E T
  store_computed c key now finished (raise err) = (c, raise err)
  store_computed c key now finished (ok value) =
      let ttl = max c.min_ttl ((finished - now) * c.duration_factor) in
      let entry : Entry T = record { cached_at = finished; value = value; ttl = ttl } in
      (record c { entries = put c.entries key entry }, ok value)

  unfoldable pub get_or_compute :
      AdaptiveTtlCache K T → K → ℕ → ℕ → Result E T → AdaptiveTtlCache K T × Result E T
  unfolding store_computed
  get_or_compute c key now finished computed = elim (get c.entries key) [
    | none ↦ store_computed c key now finished computed
    | some hit ↦
        if is_fresh now hit then (c, ok hit.value) else store_computed c key now finished computed
  ]

module _ {ℓ} {K T : Type ℓ} ⦃e : Eq K⦄ where
  unfoldable pub peek : AdaptiveTtlCache K T → K → Option T
  peek c key = elim (get c.entries key) [ none ↦ none | some hit ↦ some hit.value ]

  -- `none` clears the whole cache.
  unfoldable pub invalidate : AdaptiveTtlCache K T → Option K → AdaptiveTtlCache K T
  invalidate c none = record c { entries = [] }
  invalidate c (some key) = record c { entries = pop c.entries key }

  unfoldable pub ttl_of : AdaptiveTtlCache K T → K → Option ℕ
  ttl_of c key = elim (get c.entries key) [ none ↦ none | some hit ↦ some hit.ttl ]
