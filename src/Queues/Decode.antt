-- ===== src/Queues/Decode.antt =====
-- services/queues/decode.py: the ring window and the PRP pages of a command.
use telemetryd.Base.{
  ℕ, zero, suc, ◌+◌, ◌-◌, ◌*◌, ◌/◌, ◌%◌, min, ℤ, sub_mod, min_ℤ, is_zero, Bool, true, false, ◌||◌,
  Option, none, some, List, [], ◌∷◌, map, length, take, drop, range, leb, ltb, ◌==◌, if◌then◌else◌,
}
use telemetryd.Models.Queues.{PrpPage}
use telemetryd.NvmeConst.{page_size, prps_per_page, max_page_dump}

-- `min(limit, depth) if limit else depth`, as the number of rounds of a `range`.
abbrev pub window_count : ℤ → ℕ → ℕ
window_count limit depth = if is_zero limit then depth else min_ℤ limit depth

unfoldable pub window_indices : ℕ → ℕ → ℤ → List ℕ
window_indices doorbell depth limit =
    map (λ i. sub_mod doorbell (1 + i) depth) (range (window_count limit depth))

-- `prog.read(phys, n, physical=True)`; `none` stands for the exception.
abbrev pub Memory : Type 0
Memory = ℕ → ℕ → Option (List ℕ)

abbrev pub bytes_or_empty : Option (List ℕ) → List ℕ
bytes_or_empty none = []
bytes_or_empty (some bytes) = bytes

unfoldable pub read_page : Memory → ℕ → ℕ → ℕ → Bool → PrpPage
read_page prog phys offset nbytes is_list_page = record {
  phys_addr = phys;
  offset_in_page = offset;
  content = bytes_or_empty (prog phys (min nbytes page_size));
  is_list_page = is_list_page;
}

-- A little-endian number.
abbrev pub le_value : List ℕ → ℕ
le_value [] = 0
le_value (b ∷ bs) = b + 256 * le_value bs

cons_some : ℕ → Option (List ℕ) → Option (List ℕ)
cons_some x none = none
cons_some x (some xs) = some (x ∷ xs)

-- `struct.unpack(f"<{n}Q", raw)`; `none` when `raw` has another size.
unfoldable pub unpack : ℕ → List ℕ → Option (List ℕ)
unfolding cons_some
unpack zero raw = if length raw == 0 then some [] else none
unpack (suc n) raw =
    if ltb (length raw) 8 then none else cons_some (le_value (take 8 raw)) (unpack n (drop 8 raw))

abbrev pub unpack_read : ℕ → Option (List ℕ) → List ℕ
unpack_read n none = []
unpack_read n (some raw) = bytes_or_empty (unpack n raw)

-- The loop over the entries of the list page. `remaining - i * PAGE_SIZE` below 0 breaks as 0 does.
unfoldable pub entry_pages : Memory → List ℕ → ℕ → ℕ → ℕ → List PrpPage
entry_pages prog [] i remaining shown = []
entry_pages prog (entry_phys ∷ entries) i remaining shown =
    let page_bytes = min (min page_size (remaining - i * page_size)) (max_page_dump - shown) in
    let rest = entry_pages prog entries (i + 1) remaining (shown + page_bytes) in
    if leb max_page_dump shown
    then []
    else if page_bytes == 0
    then []
    else read_page prog entry_phys 0 page_bytes false ∷ rest

-- After the first page: `n_more` is the number of further pages, rounded up.
unfoldable pub further_pages : Memory → ℕ → ℕ → ℕ → List PrpPage
unfolding read_page unpack entry_pages
further_pages prog prp2 remaining shown =
    let n_more = (remaining + page_size - 1) / page_size in
    let page_bytes = min remaining (max_page_dump - shown) in
    let show = min (min n_more (prps_per_page - 1)) 8 in
    if n_more == 1
    then (if page_bytes == 0 then [] else read_page prog prp2 0 page_bytes false ∷ [])
    else read_page prog prp2 0 (min remaining page_size) true
      ∷ (if leb max_page_dump shown
          then []
          else entry_pages prog (unpack_read show (prog prp2 (show * 8))) 0 remaining shown)

unfoldable pub decode_prp_pages : Memory → ℕ → ℕ → ℕ → List PrpPage
unfolding read_page further_pages
decode_prp_pages prog prp1 prp2 total_len =
    let offset = prp1 % page_size in
    let first_page_bytes = min total_len (page_size - offset) in
    let first_bytes = min first_page_bytes max_page_dump in
    let remaining = total_len - first_page_bytes in
    if prp1 == 0 || total_len == 0
    then []
    else read_page prog prp1 offset first_bytes false
      ∷ (if remaining == 0 || leb max_page_dump first_bytes
          then []
          else further_pages prog prp2 remaining first_bytes)

-- The two layouts of `cdw2`/`cdw3` in `struct nvme_common_command`, and a layout with neither.
pub data CdwLayout : Type 0 where
  separate : ℕ → ℕ → CdwLayout
  array : ℕ → ℕ → CdwLayout
  absent : CdwLayout

-- The first attempt reads two fields, the second an array of two; zeros if both raise.
unfoldable pub cdw2_cdw3 : CdwLayout → ℕ × ℕ
cdw2_cdw3 (separate a b) = (a, b)
cdw2_cdw3 (array a b) = (a, b)
cdw2_cdw3 absent = (0, 0)
