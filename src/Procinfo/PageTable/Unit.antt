-- ===== src/Procinfo/PageTable/Unit.antt =====
-- The paging unit of the processor, written from the layout of its entries, and the walk against it.
use telemetryd.Base.{
  ℕ, zero, suc, ◌+◌, ◌-◌, ◌*◌, ◌/◌, ◌%◌, ◌^◌, ◌≤◌, ◌<◌, ◌≡◌, refl, ap, ap₂, subst, ◌∙◌, Bool, true,
  false, Option, none, some, List, [], ◌∷◌, length, ◌==◌, if◌then◌else◌, ok, Bool-cases, inl, inr,
  arith,
}
use telemetryd.Queues.Decode.{Memory}
use telemetryd.Queues.Flat.{flat}
use telemetryd.Procinfo.PageTable.{pte_present, pte_phys, page_offset_base, read_user_via_pagetable}
use telemetryd.Procinfo.PageTable.Bytewise.{table_entry, phys_from, phys_of, mapped_bytes}
use telemetryd.Procinfo.PageTable.Loop.{read_user_via_pagetable-mapped_bytes}

-- The bits `low` to `high` of an entry.
abbrev pub bits : ℕ → ℕ → ℕ → ℕ
bits e low high = e / 2 ^ low % 2 ^ (high + 1 - low)

-- Bit 0 says that an entry is present, bit 7 that one of a directory is a page.
abbrev pub is_present : ℕ → Bool
is_present e = bits e 0 0 == 1

abbrev pub is_page : ℕ → Bool
is_page e = bits e 7 7 == 1

-- Where a table, and a page of 4 KiB, of 2 MiB and of 1 GiB begins.
abbrev pub base_4k : ℕ → ℕ
base_4k e = bits e 12 51 * 2 ^ 12

abbrev pub base_2m : ℕ → ℕ
base_2m e = bits e 21 51 * 2 ^ 21

abbrev pub base_1g : ℕ → ℕ
base_1g e = bits e 30 51 * 2 ^ 30

-- The entries that an address picks, from the top on.
abbrev pub pml4_entry : (ℕ → ℕ) → ℕ → ℕ → ℕ
pml4_entry f pgd va = table_entry f pgd (bits va 39 47)

abbrev pub directory_pointer : (ℕ → ℕ) → ℕ → ℕ → ℕ
directory_pointer f pgd va = table_entry f (base_4k (pml4_entry f pgd va)) (bits va 30 38)

abbrev pub directory_entry : (ℕ → ℕ) → ℕ → ℕ → ℕ
directory_entry f pgd va = table_entry f (base_4k (directory_pointer f pgd va)) (bits va 21 29)

abbrev pub table_page : (ℕ → ℕ) → ℕ → ℕ → ℕ
table_page f pgd va = table_entry f (base_4k (directory_entry f pgd va)) (bits va 12 20)

-- What the unit makes of the four entries.
abbrev pub translated : ℕ → ℕ → ℕ → ℕ → ℕ → Option ℕ
translated pml4e pdpte pde pte va =
    if is_present pml4e
    then if is_present pdpte
      then if is_page pdpte
        then some (base_1g pdpte + va % 2 ^ 30)
        else if is_present pde
        then if is_page pde
          then some (base_2m pde + va % 2 ^ 21)
          else if is_present pte
          then some (base_4k pte + va % 2 ^ 12)
          else none
        else none
      else none
    else none

unfoldable pub translate : (ℕ → ℕ) → ℕ → ℕ → Option ℕ
translate f pgd va =
    translated (pml4_entry f pgd va) (directory_pointer f pgd va) (directory_entry f pgd va)
      (table_page f pgd va) va

-- The bytes of `size` addresses, up to the first that is not translated.
unfoldable pub unit_bytes : (ℕ → ℕ) → ℕ → ℕ → ℕ → List ℕ
unit_bytes f pgd va zero = []
unit_bytes f pgd va (suc n) =
    let rest = unit_bytes f pgd (va + 1) n in
    elim (translate f pgd va) [ none ↦ [] | some p ↦ f p ∷ rest ]

-- Where the way to an address ends at a page of 1 GiB or of 2 MiB, nothing stands in the bits between
-- the flags and the page's address, of which bit 12 selects a memory type there.
abbrev pub IsPlain : (ℕ → ℕ) → ℕ → ℕ → Type 0
IsPlain f pgd va =
    let pdpte = directory_pointer f pgd va in
    let pde = directory_entry f pgd va in
    is_present (pml4_entry f pgd va) ≡ true
    → is_present pdpte ≡ true
    → (is_page pdpte ≡ true → bits pdpte 12 29 ≡ 0)
      × (is_page pdpte ≡ false → is_present pde ≡ true → is_page pde ≡ true → bits pde 12 20 ≡ 0)

absent : (e : ℕ) → (pte_present e == 0) ≡ true → is_present e ≡ false
absent e h = ground arith

present : (e : ℕ) → (pte_present e == 0) ≡ false → is_present e ≡ true
present e h = ground arith

plain_2m : (e : ℕ) → bits e 12 20 ≡ 0 → pte_phys e ≡ base_2m e
plain_2m e h = omega arith

plain_1g : (e : ℕ) → bits e 12 29 ≡ 0 → pte_phys e ≡ base_1g e
plain_1g e h = omega arith

in_then :
    (b : Bool) (x y z : Option ℕ) → (b ≡ true → x ≡ y) → (if b then x else z) ≡ (if b then y else z)
in_then true x y z h = h refl
in_then false x y z h = refl

in_else :
    (b : Bool) (x y z : Option ℕ)
    → (b ≡ false → x ≡ y)
    → (if b then z else x) ≡ (if b then z else y)
in_else true x y z h = refl
in_else false x y z h = h refl

module _ (f : ℕ → ℕ) where
  phys_from-page :
      (e va : ℕ)
      → phys_from f 0 e va ≡ (if is_present e then some (base_4k e + va % 2 ^ 12) else none)
  unfolding phys_from
  phys_from-page e va = elim (Bool-cases (pte_present e == 0)) [
    | inl h ↦ rw (h, absent e h) refl
    | inr h ↦ rw (h, present e h) refl
  ]

  -- From a directory entry on.
  phys_from-directory :
      (e va : ℕ)
      → (is_present e ≡ true → is_page e ≡ true → bits e 12 20 ≡ 0)
      → phys_from f 1 e va ≡ (
          if is_present e
          then if is_page e
            then some (base_2m e + va % 2 ^ 21)
            else phys_from f 0 (table_entry f (base_4k e) (bits va 12 20)) va
          else none)
  unfolding phys_from
  phys_from-directory e va plain = elim (Bool-cases (pte_present e == 0)) [
    | inl h ↦ rw (h, absent e h) refl
    | inr h ↦ elim (Bool-cases (is_page e)) [
      | inl large ↦
          rw (h, present e h, large)
            (ap (λ (x : ℕ). some (x + va % 2 ^ 21)) (plain_2m e (plain (present e h) large)))
      | inr table ↦ rw (h, present e h, table) refl
    ]
  ]

  -- From an entry of a directory pointer table on.
  phys_from-pointer :
      (e va : ℕ)
      → (is_present e ≡ true → is_page e ≡ true → bits e 12 29 ≡ 0)
      → phys_from f 2 e va ≡ (
          if is_present e
          then if is_page e
            then some (base_1g e + va % 2 ^ 30)
            else phys_from f 1 (table_entry f (base_4k e) (bits va 21 29)) va
          else none)
  unfolding phys_from
  phys_from-pointer e va plain = elim (Bool-cases (pte_present e == 0)) [
    | inl h ↦ rw (h, absent e h) refl
    | inr h ↦ elim (Bool-cases (is_page e)) [
      | inl large ↦
          rw (h, present e h, large)
            (ap (λ (x : ℕ). some (x + va % 2 ^ 30)) (plain_1g e (plain (present e h) large)))
      | inr table ↦ rw (h, present e h, table) refl
    ]
  ]

  phys_from-top :
      (e va : ℕ)
      → phys_from f 3 e va ≡ (
          if is_present e
          then phys_from f 2 (table_entry f (base_4k e) (bits va 30 38)) va
          else none)
  unfolding phys_from
  phys_from-top e va = elim (Bool-cases (pte_present e == 0)) [
    | inl h ↦ rw (h, absent e h) refl
    | inr h ↦ rw (h, present e h) refl
  ]

  phys_of-translate : (pgd va : ℕ) → IsPlain f pgd va → phys_of f pgd va ≡ translate f pgd va
  unfolding phys_of translate
  phys_of-translate pgd va plain =
      let pml4e = pml4_entry f pgd va in
      let pdpte = directory_pointer f pgd va in
      let pde = directory_entry f pgd va in
      phys_from-top pml4e va
      ∙ in_then (is_present pml4e) _ _ _ (λ top.
        phys_from-pointer pdpte va (λ k. (plain top k).0)
        ∙ in_then (is_present pdpte) _ _ _ (λ pointer. in_else (is_page pdpte) _ _ _ (λ below.
          phys_from-directory pde va ((plain top pointer).1 below)
          ∙ in_then (is_present pde) _ _ _ (λ directory.
            in_else (is_page pde) _ _ _ (λ table. phys_from-page (table_page f pgd va) va)))))

  unit_bytes-mapped :
      (pgd va n : ℕ)
      → ((j : ℕ) → j < n → IsPlain f pgd (va + j))
      → mapped_bytes f pgd va n ≡ unit_bytes f pgd va n
  unfolding mapped_bytes unit_bytes
  unit_bytes-mapped pgd va zero plain = refl
  unit_bytes-mapped pgd va (suc n) plain =
      let here : IsPlain f pgd va =
        subst (λ (v : ℕ). IsPlain f pgd v) (omega arith) (plain 0 (omega arith)) in
      let ih =
        unit_bytes-mapped pgd (va + 1) n
          (λ j h. subst (λ (v : ℕ). IsPlain f pgd v) (omega arith) (plain (suc j) (omega arith))) in
      ap₂ (λ (o : Option ℕ) (rest : List ℕ). elim o [ none ↦ [] | some p ↦ f p ∷ rest ])
        (phys_of-translate pgd va here) ih

-- If physical memory can be read, and `mm->pgd` is in the direct mapping, and no page of 2 MiB or of
-- 1 GiB that an asked address lies in has a bit set between its flags and its address: what the walk
-- over whole pages returns of a user's memory is byte for byte what a paging unit that follows the
-- layout of the processor's entries, and translates each address alone, gives, up to the first address
-- that is not mapped, and no more than was asked for.
pub read_user_via_pagetable-unit_bytes :
    (f : ℕ → ℕ) (prog : Memory)
    → ((p n : ℕ) → prog p n ≡ some (flat f p n))
    → (symbol : Option ℕ) (pgd_va addr size : ℕ) → page_offset_base symbol ≤ pgd_va
    → ((j : ℕ) → j < size → IsPlain f (pgd_va - page_offset_base symbol) (addr + j))
    → (read_user_via_pagetable prog symbol pgd_va addr size
        ≡ ok (unit_bytes f (pgd_va - page_offset_base symbol) addr size))
      × (length (unit_bytes f (pgd_va - page_offset_base symbol) addr size) ≤ size)
read_user_via_pagetable-unit_bytes f prog reads symbol pgd_va addr size le plain =
    let pgd = pgd_va - page_offset_base symbol in
    let same = unit_bytes-mapped f pgd addr size plain in
    let (walked, bound) =
      read_user_via_pagetable-mapped_bytes f prog reads symbol pgd_va addr size le in
    (walked ∙ ap ok same, subst (λ (xs : List ℕ). length xs ≤ size) same bound)
