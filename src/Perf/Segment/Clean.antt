-- ===== src/Perf/Segment/Clean.antt =====
-- What the parser fills has no counter twice in a queue's dictionary.
use telemetryd.Base.{
  ℕ, ◌≡◌, refl, sym, ap, ◌∙◌, subst, Option, none, some, List, [], ◌∷◌, ◌++◌, Text, strip, Dict,
  text_keys, int_keys, pair_keys, Eq, get, put, get_or, NoDup, NoDup-put, Member, here, there,
  Member-get, Bool-cases, Option-cases, ◌⊎◌, inl, inr, arith,
}
use telemetryd.Events.Pattern.{group, natural_of}
use telemetryd.Events.Stats.{splitlines}
use telemetryd.Perf.{Bucket, Counters, QueueKey}
use telemetryd.Perf.Ticks.{last_complete_tick}
use telemetryd.Perf.Segment.{
  Maps, Reading, add_bucket, no_maps, set_scalar, close_block, other_line, read_line, read_lines,
  parse_segment, parse_last_complete_tick, match_named, scalar_items, key_items, key_of,
  match_bucket, bucket_of,
}

some-injective :
    (a b : Reading × Maps) → ◌≡◌ {A = Option (Reading × Maps)} (some a) (some b) → a ≡ b
some-injective a b e = cc

-- What a dictionary holds after an entry is set.
Member-put_inv {ℓ} :
    {K : Type ℓ} {V : Type ℓ} ⦃e : Eq K⦄ (d : Dict K V) (k j : K) (v w : V)
    → Member (j, w) (put d k v)
    → (w ≡ v) ⊎ Member (j, w) d
unfolding put
Member-put_inv [] k j v w (here same) = inl (ap (λ p. p.1) same)
Member-put_inv [] k j v w (there m) = elim m [ ]
Member-put_inv ⦃e⦄ ((i, u) ∷ d) k j v w m = elim (Bool-cases (e.beq i k)) [
  | inl same ↦ after_same (rw same at m)
  | inr other ↦ after_other (rw other at m) (Member-put_inv d k j v w)
]
  where
    after_same : Member (j, w) ((i, v) ∷ d) → (w ≡ v) ⊎ Member (j, w) ((i, u) ∷ d)
    after_same (here same) = inl (ap (λ p. p.1) same)
    after_same (there n) = inr (there n)

    after_other :
        Member (j, w) ((i, u) ∷ put d k v)
        → (Member (j, w) (put d k v) → (w ≡ v) ⊎ Member (j, w) d)
        → (w ≡ v) ⊎ Member (j, w) ((i, u) ∷ d)
    after_other (here same) ih = inr (here same)
    after_other (there n) ih = elim (ih n) [ inl e ↦ inl e | inr o ↦ inr (there o) ]

-- No queue's map has a counter twice.
abbrev pub IsClean : Dict QueueKey Counters → Type 0
IsClean d = (key : QueueKey) (c : Counters) → Member (key, c) d → NoDup c

found-NoDup :
    (d : Dict QueueKey Counters) (key : QueueKey) (o : Option Counters)
    → get d key ≡ o
    → IsClean d
    → NoDup (elim o [ none ↦ [] | some c ↦ c ])
found-NoDup d key none e clean = tt
found-NoDup d key (some c) e clean = clean key c (Member-get d key c e)

set_scalar-IsClean :
    (maps : Maps) (key : QueueKey) (name : Text) (value : ℕ)
    → IsClean maps.scalars
    → IsClean (set_scalar maps key name value).scalars
unfolding set_scalar
set_scalar-IsClean maps key name value clean j c m =
    let old = get_or maps.scalars key [] in
    let new = put old name value in
    let tidy =
      NoDup-put old name value (found-NoDup maps.scalars key (get maps.scalars key) refl clean) in
    elim (Member-put_inv maps.scalars key j new c m) [
      | inl e ↦ subst NoDup (sym e) tidy
      | inr inside ↦ clean j c inside
    ]

close_block-scalars :
    (reading : Reading) (maps : Maps) → (close_block reading maps).scalars ≡ maps.scalars
unfolding close_block
close_block-scalars none maps = refl
close_block-scalars (some (key, buckets)) maps = refl

other_line-IsClean :
    (maps : Maps) (line : Text) → IsClean maps.scalars → IsClean (other_line maps line).1.scalars
unfolding other_line
other_line-IsClean maps line clean = elim (Option-cases (match_named scalar_items line)) [
  | inl e ↦ elim (Option-cases (match_named key_items line)) [
    | inl f ↦ rw (e, other_line, f) clean
    | inr ((name, groups), f) ↦ rw (e, other_line, f) clean
  ]
  | inr ((name, groups), e) ↦
      rw (e, other_line)
        (set_scalar-IsClean maps (key_of groups) name (natural_of (group groups 2)) clean)
]

got-IsClean :
    (next : Reading) (maps' : Maps) (got : Reading × Maps)
    → ◌≡◌ {A = Option (Reading × Maps)} (some got) (some (next, maps'))
    → IsClean got.1.scalars
    → IsClean maps'.scalars
got-IsClean next maps' got e clean =
    subst IsClean (ap (λ (x : Reading × Maps). x.1.scalars) (some-injective got (next, maps') e))
      clean

block_line-IsClean :
    (key : QueueKey) (buckets : List Bucket) (maps : Maps) (o : Option Bucket) (next : Reading)
    (maps' : Maps)
    → add_bucket key buckets maps o ≡ some (next, maps')
    → IsClean maps.scalars
    → IsClean maps'.scalars
block_line-IsClean key buckets maps none next maps' e clean = absurd (ground (arith, e))
block_line-IsClean key buckets maps (some b) next maps' e clean =
    got-IsClean next maps' (some (key, buckets ++ (b ∷ [])), maps) e clean

read_line-IsClean :
    (reading : Reading) (maps : Maps) (line : Text) (next : Reading) (maps' : Maps)
    → read_line reading maps line ≡ some (next, maps')
    → IsClean maps.scalars
    → IsClean maps'.scalars
unfolding read_line
read_line-IsClean none maps line next maps' e clean =
    got-IsClean next maps' (other_line maps line) e (other_line-IsClean maps line clean)
read_line-IsClean (some (key, buckets)) maps line next maps' e clean =
    elim (Option-cases (match_bucket line)) [
      | inl m ↦
          let closed = close_block (some (key, buckets)) maps in
          got-IsClean next maps' (other_line closed line) (rw (m, read_line) at e) (
            other_line-IsClean closed line
              (subst IsClean (sym (close_block-scalars (some (key, buckets)) maps)) clean))
      | inr (found, m) ↦
          block_line-IsClean key buckets maps (bucket_of found) next maps' (rw (m, read_line) at e)
            clean
    ]

maps_injective : (a b : Maps) → some a ≡ some b → a ≡ b
maps_injective a b e = cc

read_lines-IsClean :
    (reading : Reading) (maps : Maps) (lines : List Text) (maps' : Maps)
    → read_lines reading maps lines ≡ some maps'
    → IsClean maps.scalars
    → IsClean maps'.scalars
unfolding read_lines
read_lines-IsClean reading maps [] maps' e clean =
    subst IsClean
      (sym (close_block-scalars reading maps)
        ∙ ap (λ (x : Maps). x.scalars) (maps_injective (close_block reading maps) maps' e))
      clean
read_lines-IsClean reading maps (line ∷ lines) maps' e clean =
    elim (Option-cases (read_line reading maps (strip line))) [
      | inl f ↦ absurd (ground (arith, f, e))
      | inr ((next, maps1), f) ↦
          read_lines-IsClean next maps1 lines maps' (rw (f, read_lines) at e)
            (read_line-IsClean reading maps (strip line) next maps1 f clean)
    ]

nothing_read : IsClean []
nothing_read key c m = elim m [ ]

pub parse_last_complete_tick-IsClean :
    (text : Text) (maps : Maps) → parse_last_complete_tick text ≡ some maps → IsClean maps.scalars
unfolding parse_last_complete_tick parse_segment
parse_last_complete_tick-IsClean text maps e = elim (Option-cases (last_complete_tick text)) [
  | inl f ↦
      subst IsClean
        (ap (λ (x : Maps). x.scalars)
          (maps_injective no_maps maps (rw (f, parse_last_complete_tick) at e)))
        nothing_read
  | inr (segment, f) ↦
      read_lines-IsClean none no_maps (splitlines segment) maps
        (rw (f, parse_last_complete_tick) at e) nothing_read
]
