-- ===== src/Queues/Prp.antt =====
-- The PRP pages of decode.py against the transfer that the PRP entries describe.
use telemetryd.Base.{
  ℕ, ◌+◌, ◌-◌, ◌*◌, ◌/◌, ◌%◌, ◌≤◌, min, arith, Bool, false, List, [], ◌∷◌, ◌++◌, length,
  length-append, if◌then◌else◌,
}
use telemetryd.Models.Queues.{PrpPage}
use telemetryd.NvmeConst.{page_size, prps_per_page, max_page_dump}
use telemetryd.Queues.Decode.{
  Memory, read_page, unpack_read, entry_pages, further_pages, decode_prp_pages, bytes_or_empty,
}

-- The payload that is shown: the bytes of the pages that are not lists.
unfoldable pub payload : List PrpPage → List ℕ
payload [] = []
payload (p ∷ ps) = if p.is_list_page then payload ps else p.content ++ payload ps

-- A read of n bytes gives at most n.
abbrev pub ReadsAtMost : Memory → Type 0
ReadsAtMost prog = (phys n : ℕ) → length (bytes_or_empty (prog phys n)) ≤ n

module _ (prog : Memory) (fits : ReadsAtMost prog) where
  content-le :
      (phys offset n : ℕ) (is_list : Bool)
      → length (read_page prog phys offset n is_list).content ≤ n
  unfolding read_page
  content-le phys offset n is_list = omega (arith, fits phys (min n page_size))

  payload-cons :
      (phys offset n : ℕ) (ps : List PrpPage)
      → length (payload (read_page prog phys offset n false ∷ ps)) ≤ n + length (payload ps)
  unfolding payload read_page
  payload-cons phys offset n ps = omega (
    arith,
    content-le phys offset n false,
    length-append (read_page prog phys offset n false).content (payload ps),
  )

  entry_pages-le :
      (entries : List ℕ) (i remaining shown : ℕ)
      → shown ≤ max_page_dump
      → shown + length (payload (entry_pages prog entries i remaining shown)) ≤ max_page_dump
  unfolding entry_pages payload
  entry_pages-le [] i remaining shown h = omega arith
  entry_pages-le (entry_phys ∷ entries) i remaining shown h =
      let n = min (min page_size (remaining - i * page_size)) (max_page_dump - shown) in
      let fits_page : shown + n ≤ max_page_dump = omega arith in
      ground (
        arith,
        entry_pages-le entries (i + 1) remaining (shown + n) fits_page,
        payload-cons entry_phys 0 n (entry_pages prog entries (i + 1) remaining (shown + n)),
      )

  further_pages-le :
      (prp2 remaining shown : ℕ)
      → shown ≤ max_page_dump
      → shown + length (payload (further_pages prog prp2 remaining shown)) ≤ max_page_dump
  unfolding further_pages payload
  further_pages-le prp2 remaining shown h =
      let n_more = (remaining + page_size - 1) / page_size in
      let show = min (min n_more (prps_per_page - 1)) 8 in
      let entries = unpack_read show (prog prp2 (show * 8)) in
      ground (
        arith,
        payload-cons prp2 0 (min remaining (max_page_dump - shown)) [],
        entry_pages-le entries 0 remaining shown h,
      )

  -- However long the transfer and whatever the list page holds, at most one page of payload is
  -- shown, if a read gives at most the bytes that it is asked for.
  pub length-payload-le :
      (prp1 prp2 total_len : ℕ)
      → length (payload (decode_prp_pages prog prp1 prp2 total_len)) ≤ max_page_dump
  unfolding decode_prp_pages payload
  length-payload-le prp1 prp2 total_len =
      let first = min total_len (page_size - prp1 % page_size) in
      let shown = min first max_page_dump in
      let rest = further_pages prog prp2 (total_len - first) shown in
      ground (
        arith,
        payload-cons prp1 (prp1 % page_size) shown rest,
        payload-cons prp1 (prp1 % page_size) shown [],
        further_pages-le prp2 (total_len - first) shown (omega arith),
      )
