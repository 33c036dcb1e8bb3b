-- ===== src/Perf/Sums.antt =====
-- What the aggregate row says of the queues' rows.
use telemetryd.Base.{
  ℕ, ◌+◌, ◌≡◌, refl, sym, ap, ◌∙◌, subst, ℤ, pos, negsuc, Option, none, some, List, [], ◌∷◌, map,
  sum, Text, text_eq, text_eq_iff, codes, text_keys, nat_keys, int_keys, pair_keys, Dict, get, put,
  get-put, get_or, NoDup, Member, here, there, Member-sort_by_inv, sort_by, int_eq, if◌then◌else◌,
  arith, Bool-cases, inl, inr,
}
use telemetryd.Models.Perf.{QueuePerf}
use telemetryd.Perf.{
  Bucket, Counters, QueueKey, merge_buckets, build_queue_perf, add_counters, sum_counters,
  queue_perfs, hist_of, with_aggregate, of_device, performance_of, key_before,
}

abbrev value : Option ℕ → ℕ
value none = 0
value (some n) = n

-- The sum of the values of a key, each entry counted.
abbrev sum_at : Text → Counters → ℕ
sum_at k [] = 0
sum_at k ((j, v) ∷ rest) = (if text_eq j k then v else 0) + sum_at k rest

value-get :
    (sums : Counters) (k j : Text) (n : ℕ)
    → value (get (put sums j n) k) ≡ (if text_eq j k then n else value (get sums k))
value-get sums k j n = elim (Bool-cases (text_eq j k)) [
  | inl e ↦ rw (get-put sums j k n, e) refl
  | inr e ↦ rw (get-put sums j k n, e) refl
]

get-add_counters :
    (sums more : Counters) (k : Text)
    → value (get (add_counters sums more) k) ≡ value (get sums k) + sum_at k more
unfolding add_counters
get-add_counters sums [] k = omega arith
get-add_counters sums ((j, v) ∷ rest) k =
    let next = put sums j (get_or sums j 0 + v) in
    get-add_counters next rest k ∙ elim (Bool-cases (text_eq j k)) [
      | inl e ↦
          let same : value (get sums j) ≡ value (get sums k) =
            ap (λ x. value (get sums x)) ((text_eq_iff j k).0 e) in
          rw (value-get sums k j (get_or sums j 0 + v), e) (omega (arith, same))
      | inr e ↦ rw (value-get sums k j (get_or sums j 0 + v), e) (omega arith)
    ]

sum_at-absent : (k : Text) (c : Counters) → get c k ≡ none → sum_at k c ≡ 0
unfolding get
sum_at-absent k [] h = refl
sum_at-absent k ((j, v) ∷ rest) h = elim (Bool-cases (text_eq j k)) [
  | inl e ↦ absurd (ground (arith, e, h))
  | inr e ↦ rw e (omega (arith, sum_at-absent k rest (rw e at h)))
]

-- In a dictionary the sum is the value.
sum_at-get : (k : Text) (c : Counters) → NoDup c → sum_at k c ≡ value (get c k)
unfolding get
sum_at-get k [] h = refl
sum_at-get k ((j, v) ∷ rest) h = elim (Bool-cases (text_eq j k)) [
  | inl e ↦
      let gone : get rest k ≡ none = subst (λ x. get rest x ≡ none) ((text_eq_iff j k).0 e) h.0 in
      rw (e, get) (omega (arith, sum_at-absent k rest gone))
  | inr e ↦ rw (e, get) (omega (arith, sum_at-get k rest h.1))
]

-- The queues' values of a key together.
abbrev values_of : Text → List (ℤ × Counters) → ℕ
values_of k [] = 0
values_of k (q ∷ qs) = value (get q.1 k) + values_of k qs

abbrev AllNoDup : List (ℤ × Counters) → Type 0
AllNoDup [] = Unit
AllNoDup (q ∷ qs) = NoDup q.1 × AllNoDup qs

get-sum_counters :
    (sums : Counters) (qs : List (ℤ × Counters)) (k : Text)
    → AllNoDup qs
    → value (get (sum_counters sums qs) k) ≡ value (get sums k) + values_of k qs
unfolding sum_counters
get-sum_counters sums [] k h = omega arith
get-sum_counters sums ((qid, c) ∷ qs) k h = omega (
  arith,
  get-sum_counters (add_counters sums c) qs k h.1,
  get-add_counters sums c k,
  sum_at-get k c h.0,
)

AllNoDup-of_device :
    (i : ℕ) (entries : List (QueueKey × Counters))
    → ((key : QueueKey) (c : Counters) → Member (key, c) entries → NoDup c)
    → AllNoDup (of_device i entries)
unfolding of_device
AllNoDup-of_device i [] h = tt
AllNoDup-of_device i (((ctrl, qid), c) ∷ rest) h =
    let others = AllNoDup-of_device i rest (λ key d m. h key d (there m)) in
    elim (Bool-cases (int_eq ctrl (pos i))) [
      | inl e ↦ rw e (h (ctrl, qid) c (here refl), others)
      | inr e ↦ rw e others
    ]

-- The queues' rates in the rows, against the counters.
iops-queue_perfs :
    (hists : Dict QueueKey (List Bucket)) (i : ℕ) (qs : List (ℤ × Counters))
    → (sum (map (λ q. q.iops) (queue_perfs hists i qs)) ≡ values_of (codes "op_count") qs)
      × (sum (map (λ q. q.bandwidth_bytes_per_sec) (queue_perfs hists i qs))
          ≡ values_of (codes "bytes_sum") qs)
unfolding build_queue_perf
iops-queue_perfs hists i [] = (refl, refl)
iops-queue_perfs hists i ((qid, c) ∷ qs) =
    let (a, b) = iops-queue_perfs hists i qs in
    (
      ap (λ (n : ℕ). value (get c (codes "op_count")) + n) a,
      ap (λ (n : ℕ). value (get c (codes "bytes_sum")) + n) b,
    )

some_injective : (a b : QueuePerf) → ◌≡◌ {A = Option QueuePerf} (some a) (some b) → a ≡ b
some_injective a b e = cc

total_iops :
    (qs : List (ℤ × Counters)) (merged : List Bucket)
    → AllNoDup qs
    → (build_queue_perf (negsuc 0) (sum_counters [] qs) merged).iops
      ≡ values_of (codes "op_count") qs
unfolding build_queue_perf get
total_iops qs merged h = get-sum_counters [] qs (codes "op_count") h ∙ omega arith

total_bytes :
    (qs : List (ℤ × Counters)) (merged : List Bucket)
    → AllNoDup qs
    → (build_queue_perf (negsuc 0) (sum_counters [] qs) merged).bandwidth_bytes_per_sec
      ≡ values_of (codes "bytes_sum") qs
unfolding build_queue_perf get
total_bytes qs merged h = get-sum_counters [] qs (codes "bytes_sum") h ∙ omega arith

with_aggregate-sums :
    (hists : Dict QueueKey (List Bucket)) (i : ℕ) (qs : List (ℤ × Counters)) (whole : QueuePerf)
    → AllNoDup qs
    → (with_aggregate hists i qs).1 ≡ some whole
    → (whole.iops ≡ sum (map (λ q. q.iops) (with_aggregate hists i qs).0))
      × (whole.bandwidth_bytes_per_sec
          ≡ sum (map (λ q. q.bandwidth_bytes_per_sec) (with_aggregate hists i qs).0))
unfolding with_aggregate get
with_aggregate-sums hists i [] whole h found = absurd (ground (arith, found))
with_aggregate-sums hists i (q ∷ qs) whole h found =
    let all = q ∷ qs in
    let merged = merge_buckets (map (λ (x : ℤ × Counters). hist_of hists i x.0) all) in
    let total = build_queue_perf (negsuc 0) (sum_counters [] all) merged in
    let same : total ≡ whole = some_injective total whole found in
    let (a, b) = iops-queue_perfs hists i all in
    subst
      (λ (w : QueuePerf).
        (w.iops ≡ sum (map (λ x. x.iops) (queue_perfs hists i all)))
        × (w.bandwidth_bytes_per_sec
            ≡ sum (map (λ x. x.bandwidth_bytes_per_sec) (queue_perfs hists i all))))
      same (total_iops all merged h ∙ sym a, total_bytes all merged h ∙ sym b)

-- The aggregate row of a device, where there is one, has as its rate and its bandwidth the sums of
-- those of the device's queues, if no queue's map has a counter twice.
pub performance_of-sums :
    (scalars : Dict QueueKey Counters) (hists : Dict QueueKey (List Bucket)) (i : ℕ)
    (whole : QueuePerf)
    → ((key : QueueKey) (c : Counters) → Member (key, c) scalars → NoDup c)
    → (performance_of scalars hists i).1 ≡ some whole
    → (whole.iops ≡ sum (map (λ q. q.iops) (performance_of scalars hists i).0))
      × (whole.bandwidth_bytes_per_sec
          ≡ sum (map (λ q. q.bandwidth_bytes_per_sec) (performance_of scalars hists i).0))
unfolding performance_of
performance_of-sums scalars hists i whole h found =
    let mine = of_device i (sort_by key_before scalars) in
    let unique : AllNoDup mine =
      AllNoDup-of_device i (sort_by key_before scalars)
        (λ key c m. h key c (Member-sort_by_inv key_before scalars m)) in
    with_aggregate-sums hists i mine whole unique found
