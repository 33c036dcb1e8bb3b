-- ===== src/Perf/Percentile.antt =====
-- What a percentile of a histogram says of its samples.
use telemetryd.Base.{
  ltb, ℕ, ◌+◌, ◌*◌, ◌≤◌, ◌<◌, ◌≡◌, refl, ap, ◌∙◌, false, Option, some, List, [], ◌∷◌, leb, ◌==◌,
  if◌then◌else◌, sort_by, insert_by, arith, Bool-cases, inl, inr, All,
}
use telemetryd.Perf.{Bucket, lo_before, total_count, first_reaching, percentile_ns}

-- The samples in the buckets up to a bound.
abbrev pub count_up_to : ℕ → List Bucket → ℕ
count_up_to h [] = 0
count_up_to h (b ∷ bs) = (if leb b.hi h then b.count else 0) + count_up_to h bs

count_up_to-insert_by :
    (h : ℕ) (b : Bucket) (bs : List Bucket)
    → count_up_to h (insert_by lo_before b bs) ≡ count_up_to h (b ∷ bs)
unfolding insert_by
count_up_to-insert_by h b [] = refl
count_up_to-insert_by h b (c ∷ bs) = ground (arith, count_up_to-insert_by h b bs)

count_up_to-sort_by :
    (h : ℕ) (bs : List Bucket) → count_up_to h (sort_by lo_before bs) ≡ count_up_to h bs
unfolding sort_by
count_up_to-sort_by h [] = refl
count_up_to-sort_by h (b ∷ bs) =
    count_up_to-insert_by h b (sort_by lo_before bs)
    ∙ ap (λ (n : ℕ). (if leb b.hi h then b.count else 0) + n) (count_up_to-sort_by h bs)

total_count-insert_by :
    (b : Bucket) (bs : List Bucket)
    → total_count (insert_by lo_before b bs) ≡ b.count + total_count bs
unfolding insert_by
total_count-insert_by b [] = refl
total_count-insert_by b (c ∷ bs) = ground (arith, total_count-insert_by b bs)

total_count-sort_by : (bs : List Bucket) → total_count (sort_by lo_before bs) ≡ total_count bs
unfolding sort_by
total_count-sort_by [] = refl
total_count-sort_by (b ∷ bs) =
    total_count-insert_by b (sort_by lo_before bs)
    ∙ ap (λ (n : ℕ). b.count + n) (total_count-sort_by bs)

-- The buckets' upper bounds rise.
abbrev pub Rising : List Bucket → Type 0
Rising [] = Unit
Rising (b ∷ bs) = All (λ c. b.hi ≤ c.hi) bs × Rising bs

scaled : (p q t : ℕ) → p ≤ q → p * t ≤ q * t
scaled p q t h = grind arith

-- With all samples the target is reached.
first_reaching-found :
    (p total cum : ℕ) (bs : List Bucket)
    → p ≤ 1000
    → cum + total_count bs ≡ total
    → 0 < total_count bs
    → (hi : ℕ) × (first_reaching p total cum bs ≡ some hi)
unfolding first_reaching
first_reaching-found p total cum [] small whole some_left = absurd (omega arith)
first_reaching-found p total cum (b ∷ bs) small whole some_left =
    elim (Bool-cases (leb (p * total) (1000 * (cum + b.count)))) [
      | inl e ↦ (b.hi, rw e refl)
      | inr e ↦
          let over : 1000 * (cum + b.count) < p * total = ground (arith, e) in
          let (hi, found) =
            first_reaching-found p total (cum + b.count) bs small (omega arith)
              (omega (arith, scaled p 1000 total small)) in
          (hi, rw e found)
    ]

some_injective : (a b : ℕ) → ◌≡◌ {A = Option ℕ} (some a) (some b) → a ≡ b
some_injective a b e = cc

-- What is found is the bound of a bucket.
first_reaching-ge :
    (x p total cum h : ℕ) (bs : List Bucket)
    → All (λ c. x ≤ c.hi) bs
    → first_reaching p total cum bs ≡ some h
    → x ≤ h
unfolding first_reaching
first_reaching-ge x p total cum h [] all found = absurd (ground (arith, found))
first_reaching-ge x p total cum h (c ∷ bs) all found =
    elim (Bool-cases (leb (p * total) (1000 * (cum + c.count)))) [
      | inl e ↦ omega (arith, all.0, some_injective c.hi h (rw e at found))
      | inr e ↦ first_reaching-ge x p total (cum + c.count) h bs all.1 (rw e at found)
    ]

-- A greater fraction has no smaller percentile.
first_reaching_mono :
    (p q total cum h k : ℕ) (bs : List Bucket)
    → p ≤ q
    → Rising bs
    → first_reaching p total cum bs ≡ some h
    → first_reaching q total cum bs ≡ some k
    → h ≤ k
unfolding first_reaching
first_reaching_mono p q total cum h k [] le rising a b = absurd (ground (arith, a))
first_reaching_mono p q total cum h k (c ∷ bs) le rising a b =
    elim (Bool-cases (leb (p * total) (1000 * (cum + c.count)))) [
      | inl e ↦
          let is_first = some_injective c.hi h (rw e at a) in
          elim (Bool-cases (leb (q * total) (1000 * (cum + c.count)))) [
            | inl f ↦ omega (arith, is_first, some_injective c.hi k (rw f at b))
            | inr f ↦ omega (
              arith,
              is_first,
              first_reaching-ge c.hi q total (cum + c.count) k bs rising.0 (rw f at b),
            )
          ]
      | inr e ↦
          let f : leb (q * total) (1000 * (cum + c.count)) ≡ false =
            ground (arith, e, scaled p q total le) in
          first_reaching_mono p q total (cum + c.count) h k bs le rising.1 (rw e at a) (rw f at b)
    ]

-- The samples up to what is found reach the target.
first_reaching-covers :
    (p total cum h : ℕ) (bs : List Bucket)
    → Rising bs
    → first_reaching p total cum bs ≡ some h
    → p * total ≤ 1000 * (cum + count_up_to h bs)
unfolding first_reaching
first_reaching-covers p total cum h [] rising found = absurd (ground (arith, found))
first_reaching-covers p total cum h (c ∷ bs) rising found =
    elim (Bool-cases (leb (p * total) (1000 * (cum + c.count)))) [
      | inl e ↦ ground (arith, e, some_injective c.hi h (rw e at found))
      | inr e ↦
          let below =
            first_reaching-ge c.hi p total (cum + c.count) h bs rising.0 (rw e at found) in
          ground (
            arith,
            below,
            first_reaching-covers p total (cum + c.count) h bs rising.1 (rw e at found),
          )
    ]

-- The samples in the buckets whose bound is below another.
abbrev pub count_below : ℕ → List Bucket → ℕ
count_below h [] = 0
count_below h (b ∷ bs) = (if ltb b.hi h then b.count else 0) + count_below h bs

count_below-insert_by :
    (h : ℕ) (b : Bucket) (bs : List Bucket)
    → count_below h (insert_by lo_before b bs) ≡ count_below h (b ∷ bs)
unfolding insert_by
count_below-insert_by h b [] = refl
count_below-insert_by h b (c ∷ bs) = ground (arith, count_below-insert_by h b bs)

count_below-sort_by :
    (h : ℕ) (bs : List Bucket) → count_below h (sort_by lo_before bs) ≡ count_below h bs
unfolding sort_by
count_below-sort_by h [] = refl
count_below-sort_by h (b ∷ bs) =
    count_below-insert_by h b (sort_by lo_before bs)
    ∙ ap (λ (n : ℕ). (if ltb b.hi h then b.count else 0) + n) (count_below-sort_by h bs)

none_below : (h : ℕ) (bs : List Bucket) → All (λ c. h ≤ c.hi) bs → count_below h bs ≡ 0
none_below h [] all = refl
none_below h (c ∷ bs) all = ground (arith, all.0, none_below h bs all.1)

-- The samples below what is found do not reach the target.
first_reaching-least :
    (p total cum h : ℕ) (bs : List Bucket)
    → Rising bs
    → first_reaching p total cum bs ≡ some h
    → 1000 * cum < p * total
    → 1000 * (cum + count_below h bs) < p * total
unfolding first_reaching
first_reaching-least p total cum h [] rising found short = absurd (ground (arith, found))
first_reaching-least p total cum h (c ∷ bs) rising found short =
    elim (Bool-cases (leb (p * total) (1000 * (cum + c.count)))) [
      | inl e ↦
          let is_first = some_injective c.hi h (rw e at found) in
          let rest : count_below c.hi bs ≡ 0 = none_below c.hi bs rising.0 in
          let nothing : count_below h (c ∷ bs) ≡ 0 = ground (arith, is_first, rest) in
          omega (arith, nothing)
      | inr e ↦
          let more : 1000 * (cum + c.count) < p * total = ground (arith, e) in
          let ih =
            first_reaching-least p total (cum + c.count) h bs rising.1 (rw e at found) more in
          ground (arith, ih)
    ]

-- For a histogram whose upper bounds rise with its lower ones, a percentile is the first bound that
-- the fraction fits under: at least that part of all samples, in thousandths, is in the buckets up to
-- it, and less than that part in the buckets with a smaller bound. A greater fraction has no smaller
-- percentile.
pub percentile_ns-covers :
    (buckets : List Bucket) (p q : ℕ)
    → Rising (sort_by lo_before buckets)
    → p ≤ q
    → q ≤ 1000
    → (p * total_count buckets ≤ 1000 * count_up_to (percentile_ns buckets p) buckets)
      × (0 < p * total_count buckets
          → 1000 * count_below (percentile_ns buckets p) buckets < p * total_count buckets)
      × (percentile_ns buckets p ≤ percentile_ns buckets q)
unfolding percentile_ns
percentile_ns-covers buckets p q rising le small = elim (Bool-cases (total_count buckets == 0)) [
  | inl e ↦
      let none_at_all : total_count buckets ≡ 0 = ground (arith, e) in
      let nothing : p * total_count buckets ≡ 0 = ap (λ (n : ℕ). p * n) none_at_all ∙ omega arith in
      (omega (arith, nothing), λ any. absurd (omega (arith, nothing)), rw e (omega arith))
  | inr e ↦
      let sorted = sort_by lo_before buckets in
      let total = total_count buckets in
      let whole : 0 + total_count sorted ≡ total = omega (arith, total_count-sort_by buckets) in
      let some_left : 0 < total_count sorted = ground (arith, e, total_count-sort_by buckets) in
      let (h, found_h) = first_reaching-found p total 0 sorted (omega arith) whole some_left in
      let (k, found_k) = first_reaching-found q total 0 sorted small whole some_left in
      rw (e, found_h, found_k)
        (
          ground (
            arith,
            first_reaching-covers p total 0 h sorted rising found_h,
            count_up_to-sort_by h buckets,
          ),
          λ any. omega (
            arith,
            first_reaching-least p total 0 h sorted rising found_h (omega arith),
            count_below-sort_by h buckets,
          ),
          first_reaching_mono p q total 0 h k sorted le rising found_h found_k,
        )
]
