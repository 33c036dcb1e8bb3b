-- ===== src/Procinfo/PageTable.antt =====
-- backend/procinfo.py `_read_user_via_pagetable`: user memory read through the four levels of an
-- x86-64 page table, each of whose entries is read by its physical address.
pub mod Bytewise
pub mod Loop
pub mod Unit
use telemetryd.Base.{
  ℕ, zero, suc, ◌+◌, ◌-◌, ◌*◌, ◌/◌, ◌%◌, ◌^◌, min, true, false, Option, none, some, List, [], ◌++◌,
  leb, ◌==◌, if◌then◌else◌, Result, ok, raise, ◌>>=◌,
}
use telemetryd.Queues.Decode.{Memory, le_value}

-- What the function can raise: the `ValueError` of a null `mm->pgd`, and what `prog.read` raises,
-- at a negative address too.
pub data WalkError : Type 0 where
  no_pgd : WalkError
  unreadable : WalkError

-- `e & _PTE_PRESENT`, `e & _PTE_PSE`, `e & _PTE_PHYS_MASK`, with bits 12 to 51 in the mask.
abbrev pub pte_present : ℕ → ℕ
pte_present e = e % 2

abbrev pub pte_pse : ℕ → ℕ
pte_pse e = e / 2 ^ 7 % 2

abbrev pub pte_phys : ℕ → ℕ
pte_phys e = e / 2 ^ 12 % 2 ^ 40 * 2 ^ 12

abbrev pub default_page_offset : ℕ
default_page_offset = 0xFFFF888000000000

-- `none` where the symbol cannot be read.
unfoldable pub page_offset_base : Option ℕ → ℕ
page_offset_base none = default_page_offset
page_offset_base (some v) = if v == 0 then default_page_offset else v

unfoldable pub from_bytes : Option (List ℕ) → Result WalkError ℕ
from_bytes none = raise unreadable
from_bytes (some raw) = ok (le_value raw)

-- `entry(table_pa, index)`
unfoldable pub entry : Memory → ℕ → ℕ → Result WalkError ℕ
unfolding from_bytes
entry prog table_pa index = from_bytes (prog (table_pa + index * 8) 8)

-- `entry(pgd_pa, index)` with `pgd_pa = pgd_va - base`, which can be negative.
unfoldable pub top_entry : Memory → ℕ → ℕ → ℕ → Result WalkError ℕ
unfolding from_bytes
top_entry prog pgd_va base index =
    if leb base (pgd_va + index * 8)
    then from_bytes (prog (pgd_va + index * 8 - base) 8)
    else raise unreadable

-- The page of a virtual address: where its byte is, and how many bytes the page has from there on.
pub record Mapping : Type 0 where
  pub phys : ℕ
  pub room : ℕ

abbrev pub mapped : ℕ → ℕ → ℕ → Mapping
mapped e va size = record { phys = pte_phys e + va % size; room = size - va % size }

-- The branches of the loop's body, from the lowest level up; `none` stands for the `break`.
unfoldable pub at_pte : ℕ → ℕ → Option Mapping
at_pte e va = if pte_present e == 0 then none else some (mapped e va (2 ^ 12))

unfoldable pub at_pmd : Memory → ℕ → ℕ → Result WalkError (Option Mapping)
unfolding at_pte entry
at_pmd prog e va =
    if pte_present e == 0
    then ok none
    else if pte_pse e == 0
    then entry prog (pte_phys e) (va / 2 ^ 12 % 2 ^ 9) >>= (λ pte. ok (at_pte pte va))
    else ok (some (mapped e va (2 ^ 21)))

unfoldable pub at_pud : Memory → ℕ → ℕ → Result WalkError (Option Mapping)
unfolding at_pmd entry
at_pud prog e va =
    if pte_present e == 0
    then ok none
    else if pte_pse e == 0
    then entry prog (pte_phys e) (va / 2 ^ 21 % 2 ^ 9) >>= (λ pmd. at_pmd prog pmd va)
    else ok (some (mapped e va (2 ^ 30)))

unfoldable pub at_pgd : Memory → ℕ → ℕ → Result WalkError (Option Mapping)
unfolding at_pud entry
at_pgd prog e va =
    if pte_present e == 0
    then ok none
    else entry prog (pte_phys e) (va / 2 ^ 30 % 2 ^ 9) >>= (λ pud. at_pud prog pud va)

unfoldable pub find_mapping : Memory → ℕ → ℕ → ℕ → Result WalkError (Option Mapping)
unfolding top_entry at_pgd
find_mapping prog pgd_va base va =
    top_entry prog pgd_va base (va / 2 ^ 39 % 2 ^ 9) >>= (λ e. at_pgd prog e va)

unfoldable pub read_bytes : Memory → ℕ → ℕ → Result WalkError (List ℕ)
read_bytes prog phys n = elim (prog phys n) [ none ↦ raise unreadable | some raw ↦ ok raw ]

-- The end of the loop's body: a chunk is read, and the loop goes on behind it.
unfoldable pub read_chunk :
    Memory
    → (ℕ → ℕ → List ℕ → Result WalkError (List ℕ))
    → ℕ
    → ℕ
    → List ℕ
    → Option Mapping
    → Result WalkError (List ℕ)
unfolding read_bytes
read_chunk prog next va remaining out none = ok out
read_chunk prog next va remaining out (some m) =
    let chunk = min remaining m.room in
    read_bytes prog m.phys chunk >>= (λ raw. next (va + chunk) (remaining - chunk) (out ++ raw))

-- The loop: each round takes a byte at least, so as many rounds as bytes are enough.
unfoldable pub read_loop : Memory → ℕ → ℕ → ℕ → ℕ → ℕ → List ℕ → Result WalkError (List ℕ)
unfolding read_chunk find_mapping
read_loop prog pgd_va base zero va remaining out = ok out
read_loop prog pgd_va base (suc fuel) va remaining out =
    let round =
      find_mapping prog pgd_va base va
      >>= read_chunk prog (read_loop prog pgd_va base fuel) va remaining out in
    if remaining == 0 then ok out else round

-- `_read_user_via_pagetable(prog, mm, addr, size)`
unfoldable pub read_user_via_pagetable : Memory → Option ℕ → ℕ → ℕ → ℕ → Result WalkError (List ℕ)
unfolding read_loop page_offset_base
read_user_via_pagetable prog symbol pgd_va addr size =
    if pgd_va == 0
    then raise no_pgd
    else read_loop prog pgd_va (page_offset_base symbol) size addr size []
