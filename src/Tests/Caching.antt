-- ===== src/Tests/Caching.antt =====
-- The cache on concrete calls.
use telemetryd.Base.{
  ℕ, ◌+◌, ◌*◌, ◌-◌, ◌≤◌, ◌<◌, ◌≡◌, ◌≢◌, refl, max, none, some, List, [], ◌∷◌, get, put, nat_keys,
  Result, ok, raise, arith,
}
use telemetryd.Platform.Cache.{Entry, AdaptiveTtlCache, get_or_compute, store_computed}
use telemetryd.Platform.Cache.Reads.{IsStale, get_or_compute-serves}
use telemetryd.Platform.Cache.Duty.{Call, run, run-duty}

abbrev hit : Entry ℕ
hit = record { cached_at = 10; value = 42; ttl = 6 }

abbrev cache : AdaptiveTtlCache ℕ ℕ
cache = record { min_ttl = 5; duration_factor = 3; entries = (1, hit) ∷ [] }

abbrev empty_cache : AdaptiveTtlCache ℕ ℕ
empty_cache = record cache { entries = [] }

abbrev failed : Result ℕ ℕ
failed = raise 9

abbrev computed : Result ℕ ℕ
computed = ok 43

hit_found : get cache.entries 1 ≡ some hit
unfolding get
hit_found = refl

stale : IsStale cache 1 30
unfolding get
stale hit' found = ground (arith, found)

-- The value is kept up to 34 + 12.
get_or_compute-serves_example :
    ((err : ℕ) → get_or_compute cache 1 30 34 (raise err) ≡ (cache, raise err))
    × (c' : AdaptiveTtlCache ℕ ℕ) × (get_or_compute cache 1 30 34 computed ≡ (c', ok 43))
    × ((t f : ℕ) (r : Result ℕ ℕ)
        → t < 34 + max 5 ((34 - 30) * 3)
        → get_or_compute c' 1 t f r ≡ (c', ok 43))
    × ((t f : ℕ) (v : ℕ)
        → 34 + max 5 ((34 - 30) * 3) ≤ t
        → (get_or_compute {E = ℕ} c' 1 t f (ok v)).1 ≡ ok v)
    × ((j : ℕ) (t f : ℕ) (r : Result ℕ ℕ)
        → 1 ≢ j
        → (get_or_compute c' j t f r).1 ≡ (get_or_compute cache j t f r).1)
get_or_compute-serves_example = get_or_compute-serves cache 1 30 34 43 stale

-- The second computation raises.
abbrev calls : List (Call ℕ ℕ)
calls =
    record { now = 2; cost = 4; outcome = ok 1 }
    ∷ record { now = 37; cost = 9; outcome = raise 9 }
    ∷ []

no_entry : get empty_cache.entries 1 ≡ none
unfolding get
no_entry = refl

expired : IsStale (run ℕ 1 empty_cache calls).0 1 40
unfolding run get_or_compute store_computed get put
expired hit' found = ground (arith, found)

run-duty_example : (3 + 1) * (run ℕ 1 empty_cache calls).1 + 0 ≤ 40
run-duty_example =
    run-duty ℕ 1 0 empty_cache calls 40 no_entry (omega arith, (omega arith, tt)) (omega arith)
      expired
