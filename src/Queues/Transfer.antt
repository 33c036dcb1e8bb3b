-- ===== src/Queues/Transfer.antt =====
-- The payload that decode.py shows against the transfer that the PRP entries describe: PRP1 up to
-- the end of its page, then either PRP2's page or the pages that the list at PRP2 names.
use telemetryd.Base.{
  ℕ, zero, suc, ◌+◌, ◌-◌, ◌*◌, ◌/◌, ◌%◌, ◌≤◌, ◌<◌, ◌≡◌, refl, ap, sym, ◌∙◌, min, arith, Bool, true,
  false, some, List, [], ◌∷◌, ◌++◌, length, take, if◌then◌else◌, leb, ◌==◌, Bool-cases, inl, inr,
  ◌||◌,
}
use telemetryd.Models.Queues.{PrpPage}
use telemetryd.NvmeConst.{page_size, prps_per_page, max_page_dump}
use telemetryd.Queues.Decode.{
  Memory, read_page, unpack_read, entry_pages, further_pages, decode_prp_pages, bytes_or_empty,
}
use telemetryd.Queues.Prp.{payload}
use telemetryd.Queues.Flat.{
  flat, prp_entry, length-flat, take-flat, take-append_past, take-append_within, append_nil,
  prp_entries, unpack-flat,
}

-- The pages that a list names, the last one in part.
pub list_transfer : (ℕ → ℕ) → ℕ → ℕ → ℕ → List ℕ
list_transfer f list zero remaining = []
list_transfer f list (suc n) remaining =
    flat f (prp_entry f list) (min page_size remaining)
    ++ list_transfer f (list + 8) n (remaining - page_size)

-- What follows PRP1's page.
transfer_rest : (ℕ → ℕ) → ℕ → ℕ → List ℕ
unfolding list_transfer
transfer_rest f prp2 rest =
    if leb rest page_size
    then flat f prp2 rest
    else list_transfer f prp2 ((rest + page_size - 1) / page_size) rest

-- All bytes of a transfer, in order.
unfoldable pub transfer : (ℕ → ℕ) → ℕ → ℕ → ℕ → List ℕ
unfolding transfer_rest
transfer f prp1 prp2 total_len =
    let first = min total_len (page_size - prp1 % page_size) in
    flat f prp1 first ++ transfer_rest f prp2 (total_len - first)

module _ (f : ℕ → ℕ) (prog : Memory) (reads : (p n : ℕ) → prog p n ≡ some (flat f p n)) where
  content-flat :
      (phys offset n : ℕ) (is_list : Bool)
      → n ≤ page_size
      → (read_page prog phys offset n is_list).content ≡ flat f phys n
  unfolding read_page
  content-flat phys offset n is_list h =
      ap bytes_or_empty (reads phys (min n page_size))
      ∙ (let e : min n page_size ≡ n = omega arith in ap (flat f phys) e)

  payload-page :
      (phys offset n : ℕ) (ps : List PrpPage)
      → n ≤ page_size
      → payload (read_page prog phys offset n false ∷ ps) ≡ flat f phys n ++ payload ps
  unfolding payload read_page
  payload-page phys offset n ps h = ap (λ c. c ++ payload ps) (content-flat phys offset n false h)

  payload-list_page :
      (phys offset n : ℕ) (ps : List PrpPage)
      → payload (read_page prog phys offset n true ∷ ps) ≡ payload ps
  unfolding payload read_page
  payload-list_page phys offset n ps = refl

  -- Once a page of payload is shown, the loop over the entries breaks.
  entry_pages-full :
      (entries : List ℕ) (i remaining shown : ℕ)
      → max_page_dump ≤ shown
      → payload (entry_pages prog entries i remaining shown) ≡ []
  unfolding entry_pages payload
  entry_pages-full [] i remaining shown h = refl
  entry_pages-full (e ∷ entries) i remaining shown h = ground arith

  entry_pages-first :
      (entry : ℕ) (entries : List ℕ) (remaining shown : ℕ)
      → page_size < remaining
      → 0 < shown
      → shown < max_page_dump
      → payload (entry_pages prog (entry ∷ entries) 0 remaining shown)
        ≡ flat f entry (max_page_dump - shown)
  unfolding entry_pages payload
  entry_pages-first entry entries remaining shown h k l =
      let n = min (min page_size (remaining - 0 * page_size)) (max_page_dump - shown) in
      let rest = entry_pages prog entries (0 + 1) remaining (shown + n) in
      let e : n ≡ max_page_dump - shown = omega arith in
      ground (
        arith,
        payload-page entry 0 n rest (omega arith),
        entry_pages-full entries (0 + 1) remaining (shown + n) (omega arith),
        append_nil (flat f entry (max_page_dump - shown)),
      )

  unpack_read-entries : (n p : ℕ) → unpack_read n (prog p (n * 8)) ≡ prp_entries f p n
  unpack_read-entries n p =
      ap (unpack_read n) (reads p (n * 8)) ∙ ap bytes_or_empty (unpack-flat f n p (n * 8) refl)

  further_pages-one :
      (prp2 remaining shown : ℕ)
      → 0 < remaining
      → remaining ≤ page_size
      → shown < max_page_dump
      → payload (further_pages prog prp2 remaining shown)
        ≡ take (max_page_dump - shown) (flat f prp2 remaining)
  unfolding further_pages payload
  further_pages-one prp2 remaining shown h k l =
      let n = min remaining (max_page_dump - shown) in
      let one : (remaining + page_size - 1) / page_size ≡ 1 = omega arith in
      let e : min (max_page_dump - shown) remaining ≡ n = omega arith in
      let goal : payload (read_page prog prp2 0 n false ∷ []) ≡ flat f prp2 n =
        payload-page prp2 0 n [] (omega arith) ∙ append_nil (flat f prp2 n) in
      ground (arith, goal, take-flat f (max_page_dump - shown) prp2 remaining, ap (flat f prp2) e)

  list_transfer-first :
      (prp2 n n' remaining shown : ℕ)
      → n ≡ suc n'
      → page_size < remaining
      → 0 < shown
      → take (max_page_dump - shown) (list_transfer f prp2 n remaining)
        ≡ flat f (prp_entry f prp2) (max_page_dump - shown)
  unfolding list_transfer
  list_transfer-first prp2 n n' remaining shown e h k =
      let page = flat f (prp_entry f prp2) (min page_size remaining) in
      let l : min page_size remaining ≡ page_size = omega arith in
      let room : max_page_dump - shown ≤ length page =
        omega (arith, length-flat f (prp_entry f prp2) (min page_size remaining)) in
      let whole : min (max_page_dump - shown) (min page_size remaining) ≡ max_page_dump - shown =
        omega arith in
      rw e (
        take-append_within (max_page_dump - shown) page
          (list_transfer f (prp2 + 8) n' (remaining - page_size)) room
        ∙ take-flat f (max_page_dump - shown) (prp_entry f prp2) (min page_size remaining)
        ∙ ap (flat f (prp_entry f prp2)) whole)

  entries-first :
      (prp2 show show' remaining shown : ℕ)
      → show ≡ suc show'
      → page_size < remaining
      → 0 < shown
      → shown < max_page_dump
      → payload (entry_pages prog (prp_entries f prp2 show) 0 remaining shown)
        ≡ flat f (prp_entry f prp2) (max_page_dump - shown)
  unfolding prp_entries
  entries-first prp2 show show' remaining shown e h k l =
      rw e (
        entry_pages-first (prp_entry f prp2) (prp_entries f (prp2 + 8) show') remaining shown h k l)

  further_pages-many :
      (prp2 remaining shown : ℕ)
      → page_size < remaining
      → 0 < shown
      → shown < max_page_dump
      → payload (further_pages prog prp2 remaining shown)
        ≡ take
            (max_page_dump - shown)
            (list_transfer f prp2 ((remaining + page_size - 1) / page_size) remaining)
  unfolding further_pages payload
  further_pages-many prp2 remaining shown h k l =
      let n_more = (remaining + page_size - 1) / page_size in
      let show = min (min n_more (prps_per_page - 1)) 8 in
      let s : show ≡ suc (show - 1) = omega arith in
      let m : n_more ≡ suc (n_more - 1) = omega arith in
      let loop =
        ap (λ es. payload (entry_pages prog es 0 remaining shown))
          (unpack_read-entries show prp2) in
      let code = loop ∙ entries-first prp2 show (show - 1) remaining shown s h k l in
      let spec = list_transfer-first prp2 n_more (n_more - 1) remaining shown m h k in
      ground (arith, code, spec)

  take_nil : (k : ℕ) → take k (flat f 0 0) ≡ []
  take_nil zero = refl
  take_nil (suc k) = refl

  after_first :
      (prp2 remaining shown : ℕ)
      → 0 < shown
      → shown ≤ max_page_dump
      → payload (
          if remaining == 0 || leb max_page_dump shown
          then []
          else further_pages prog prp2 remaining shown)
        ≡ take (max_page_dump - shown) (transfer_rest f prp2 remaining)
  unfolding transfer_rest payload
  after_first prp2 zero shown h k = sym (take_nil (max_page_dump - shown))
  after_first prp2 (suc r) shown h k = elim (Bool-cases (leb max_page_dump shown)) [
    | inl full ↦ let e : max_page_dump - shown ≡ 0 = ground arith in rw e (ground arith)
    | inr room ↦ elim (Bool-cases (leb (suc r) page_size)) [
      | inl one ↦
          ground (
            arith,
            further_pages-one prp2 (suc r) shown (omega arith) (ground arith) (ground arith),
          )
      | inr many ↦
          ground (arith, further_pages-many prp2 (suc r) shown (ground arith) h (ground arith))
    ]
  ]

  -- The spec side: the cut at one page lies after PRP1's page.
  take-transfer :
      (prp1 prp2 total_len first : ℕ)
      → first ≡ min total_len (page_size - prp1 % page_size)
      → take max_page_dump (transfer f prp1 prp2 total_len)
        ≡ flat f prp1 first
          ++ take (max_page_dump - first) (transfer_rest f prp2 (total_len - first))
  unfolding transfer
  take-transfer prp1 prp2 total_len first e =
      let rest = transfer_rest f prp2 (total_len - first) in
      let fits : length (flat f prp1 first) ≤ max_page_dump =
        omega (arith, length-flat f prp1 first) in
      rw (← e) (
        take-append_past max_page_dump (flat f prp1 first) rest fits
        ∙ ap (λ (n : ℕ). flat f prp1 first ++ take (max_page_dump - n) rest)
            (length-flat f prp1 first))

  pub transfer_zero : (prp1 prp2 : ℕ) → take max_page_dump (transfer f prp1 prp2 0) ≡ []
  unfolding transfer_rest
  transfer_zero prp1 prp2 = take-transfer prp1 prp2 0 0 (omega arith) ∙ take_nil (max_page_dump - 0)

  pub payload_nil : payload [] ≡ []
  unfolding payload
  payload_nil = refl

  -- If physical memory can be read, what is shown of a command with a data pointer is the start of
  -- its transfer, as far as one page: PRP1's page from the offset on, then PRP2's page, or the
  -- first page of the list at PRP2 if the rest is longer than a page.
  pub payload-decode :
      (prp1 prp2 total_len : ℕ)
      → 0 < prp1
      → payload (decode_prp_pages prog prp1 prp2 total_len)
        ≡ take max_page_dump (transfer f prp1 prp2 total_len)
  unfolding decode_prp_pages
  payload-decode prp1 prp2 zero h =
      let p : (prp1 == 0) ≡ false = ground arith in
      rw p (payload_nil ∙ sym (transfer_zero prp1 prp2))
  payload-decode prp1 prp2 (suc t) h =
      let first = min (suc t) (page_size - prp1 % page_size) in
      let spec = take-transfer prp1 prp2 (suc t) first refl in
      let e : min first max_page_dump ≡ first = omega arith in
      let p : (prp1 == 0) ≡ false = ground arith in
      let q : (suc t == 0) ≡ false = ground arith in
      let rest =
        if suc t - first == 0 || leb max_page_dump first
        then []
        else further_pages prog prp2 (suc t - first) first in
      let code = payload-page prp1 (prp1 % page_size) first rest (omega arith) in
      let tail = after_first prp2 (suc t - first) first (omega arith) (omega arith) in
      rw (spec, p, q, e) (code ∙ ap (λ l. flat f prp1 first ++ l) tail)
