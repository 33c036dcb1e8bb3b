-- ===== src/Procinfo/PageTable/Bytewise.antt =====
-- What the walk over whole pages finds, against a walk that translates each address alone.
use telemetryd.Base.{
  ℕ, zero, suc, ◌+◌, ◌-◌, ◌*◌, ◌/◌, ◌%◌, ◌^◌, ◌≤◌, ◌<◌, ◌≡◌, refl, ap, ◌∙◌, true, false, ◌&&◌,
  Option, none, some, List, [], ◌∷◌, leb, ltb, ◌==◌, if◌then◌else◌, Result, ok, Bool-cases, inl,
  inr, arith,
}
use telemetryd.Queues.Decode.{Memory, le_value}
use telemetryd.Queues.Flat.{flat}
use telemetryd.Procinfo.PageTable.{
  WalkError, Mapping, pte_present, pte_pse, pte_phys, mapped, entry, top_entry, at_pte, at_pmd,
  at_pud, at_pgd, find_mapping,
}

-- An entry of a table in physical memory.
unfoldable pub table_entry : (ℕ → ℕ) → ℕ → ℕ → ℕ
table_entry f table index = le_value (flat f (table + index * 8) 8)

-- The walk of one address, with the same mask of the entries, from an entry of a level on: 0 for a page table, 3 for the top. An entry of the
-- levels 1 and 2 can be a large page.
unfoldable pub phys_from : (ℕ → ℕ) → ℕ → ℕ → ℕ → Option ℕ
phys_from f zero e va = if pte_present e == 0 then none else some (pte_phys e + va % 2 ^ 12)
phys_from f (suc level) e va =
    let below = table_entry f (pte_phys e) (va / 2 ^ (12 + 9 * level) % 2 ^ 9) in
    let deeper = phys_from f level below va in
    if pte_present e == 0
    then none
    else if ltb level 2 && pte_pse e == 1
    then some (pte_phys e + va % 2 ^ (12 + 9 * suc level))
    else deeper

unfoldable pub phys_of : (ℕ → ℕ) → ℕ → ℕ → Option ℕ
unfolding phys_from
phys_of f pgd va = phys_from f 3 (table_entry f pgd (va / 2 ^ 39 % 2 ^ 9)) va

-- Byte for byte, as far as the addresses are mapped.
unfoldable pub mapped_bytes : (ℕ → ℕ) → ℕ → ℕ → ℕ → List ℕ
mapped_bytes f pgd va zero = []
mapped_bytes f pgd va (suc n) =
    let rest = mapped_bytes f pgd (va + 1) n in
    elim (phys_of f pgd va) [ none ↦ [] | some p ↦ f p ∷ rest ]

-- The addresses behind `va` in its block of `size` bytes.
abbrev Block : ℕ → ℕ → Type 0
Block size va =
    (j : ℕ)
    → j < size - va % size
    → ((va + j) / size ≡ va / size) × ((va + j) % size ≡ va % size + j)

Block-page : (va : ℕ) → Block (2 ^ 12) va
Block-page va j h = omega arith

Block-pmd : (va : ℕ) → Block (2 ^ 21) va
Block-pmd va j h = omega arith

Block-pgd : (va : ℕ) → Block (2 ^ 39) va
Block-pgd va j h = omega arith

Block-pud : (va : ℕ) → Block (2 ^ 30) va
Block-pud va j h = omega arith

-- A mapping says where each address that it has room for is translated to, and stays in its block.
abbrev pub Covers : (ℕ → Option ℕ) → ℕ → ℕ → Option Mapping → Type 0
Covers g va size none = g va ≡ none
Covers g va size (some m) =
    (0 < m.room)
    × (m.room ≤ size - va % size)
    × ((j : ℕ) → j < m.room → g (va + j) ≡ some (m.phys + j))

-- A page of any size.
Covers-mapped :
    (g : ℕ → Option ℕ) (e va size : ℕ)
    → va % size < size
    → Block size va
    → ((w : ℕ) → g w ≡ some (pte_phys e + w % size))
    → Covers g va size (some (mapped e va size))
Covers-mapped g e va size inside block page =
    (omega arith, omega arith, λ j h. page (va + j) ∙ ap some (omega (arith, (block j h).1)))

-- From a table one level down, where addresses of the small block have the same entry.
Covers-below :
    (g below : ℕ → Option ℕ) (va small large : ℕ) (o : Option Mapping)
    → small - va % small ≤ large - va % large
    → Block small va
    → ((w : ℕ) → w / small ≡ va / small → g w ≡ below w)
    → Covers below va small o
    → Covers g va large o
Covers-below g below va small large none le block same c = same va refl ∙ c
Covers-below g below va small large (some m) le block same (pos, fits, covered) =
    (pos, omega arith, λ j h. same (va + j) (block j (omega arith)).0 ∙ covered j h)

pse-cases : (e : ℕ) → (pte_pse e == 0) ≡ false → (pte_pse e == 1) ≡ true
pse-cases e h = ground arith

not_large : (e : ℕ) → (pte_pse e == 0) ≡ true → (pte_pse e == 1) ≡ false
not_large e h = ground arith

-- The walk finds a mapping, or none, that covers the address.
abbrev Found : (ℕ → Option ℕ) → ℕ → ℕ → Result WalkError (Option Mapping) → Type 0
Found g va size r = (o : Option Mapping) × (r ≡ ok o) × Covers g va size o

module _ (f : ℕ → ℕ) (prog : Memory) (reads : (p n : ℕ) → prog p n ≡ some (flat f p n)) where
  entry-flat : (table index : ℕ) → entry prog table index ≡ ok (table_entry f table index)
  unfolding entry table_entry
  entry-flat table index = rw (reads (table + index * 8) 8) refl

  Covers-at_pte : (e va : ℕ) → Covers (phys_from f 0 e) va (2 ^ 12) (at_pte e va)
  unfolding at_pte phys_from
  Covers-at_pte e va = elim (Bool-cases (pte_present e == 0)) [
    | inl absent ↦ rw absent (rw absent refl)
    | inr present ↦ rw present (
        Covers-mapped (phys_from f 0 e) e va (2 ^ 12) (omega arith) (Block-page va)
          (λ w. rw present refl))
  ]

  phys_from-absent : (level e w : ℕ) → (pte_present e == 0) ≡ true → phys_from f level e w ≡ none
  unfolding phys_from
  phys_from-absent zero e w absent = rw absent refl
  phys_from-absent (suc level) e w absent = rw absent refl

  large_page :
      (level e w : ℕ)
      → (pte_present e == 0) ≡ false
      → (pte_pse e == 1) ≡ true
      → ltb level 2 ≡ true
      → phys_from f (suc level) e w ≡ some (pte_phys e + w % 2 ^ (12 + 9 * suc level))
  unfolding phys_from
  large_page level e w present large low = rw (present, large, low) refl

  -- Addresses with the same index have the same entry one level down.
  same_entry :
      (level e va w : ℕ)
      → (pte_present e == 0) ≡ false
      → (ltb level 2 && pte_pse e == 1) ≡ false
      → w / 2 ^ (12 + 9 * level) ≡ va / 2 ^ (12 + 9 * level)
      → phys_from f (suc level) e w
        ≡ phys_from f level (table_entry f (pte_phys e) (va / 2 ^ (12 + 9 * level) % 2 ^ 9)) w
  unfolding phys_from
  same_entry level e va w present table q =
      rw (present, table)
        (ap (λ (x : ℕ). phys_from f level (table_entry f (pte_phys e) (x % 2 ^ 9)) w) q)

  Found-at_pmd : (e va : ℕ) → Found (phys_from f 1 e) va (2 ^ 21) (at_pmd prog e va)
  unfolding at_pmd
  Found-at_pmd e va = elim (Bool-cases (pte_present e == 0)) [
    | inl absent ↦ (none, rw absent refl, phys_from-absent 1 e va absent)
    | inr present ↦ elim (Bool-cases (pte_pse e == 0)) [
      | inl table ↦
          let index = va / 2 ^ 12 % 2 ^ 9 in
          let pte = table_entry f (pte_phys e) index in
          (
            at_pte pte va,
            rw (present, table, entry-flat (pte_phys e) index) refl,
            Covers-below (phys_from f 1 e) (phys_from f 0 pte) va (2 ^ 12) (2 ^ 21) (at_pte pte va)
                (omega arith) (Block-page va) (λ w. same_entry 0 e va w present (not_large e table))
                (Covers-at_pte pte va),
          )
      | inr large ↦ (
        some (mapped e va (2 ^ 21)),
        rw (present, large) refl,
        Covers-mapped (phys_from f 1 e) e va (2 ^ 21) (omega arith) (Block-pmd va)
            (λ w. large_page 0 e w present (pse-cases e large) refl),
      )
    ]
  ]

  Found-at_pud : (e va : ℕ) → Found (phys_from f 2 e) va (2 ^ 30) (at_pud prog e va)
  unfolding at_pud
  Found-at_pud e va = elim (Bool-cases (pte_present e == 0)) [
    | inl absent ↦ (none, rw absent refl, phys_from-absent 2 e va absent)
    | inr present ↦ elim (Bool-cases (pte_pse e == 0)) [
      | inl table ↦
          let index = va / 2 ^ 21 % 2 ^ 9 in
          let pmd = table_entry f (pte_phys e) index in
          let (o, found, covers) = Found-at_pmd pmd va in
          (
            o,
            rw (present, table, entry-flat (pte_phys e) index) found,
            Covers-below (phys_from f 2 e) (phys_from f 1 pmd) va (2 ^ 21) (2 ^ 30) o (omega arith)
                (Block-pmd va) (λ w. same_entry 1 e va w present (not_large e table)) covers,
          )
      | inr large ↦ (
        some (mapped e va (2 ^ 30)),
        rw (present, large) refl,
        Covers-mapped (phys_from f 2 e) e va (2 ^ 30) (omega arith) (Block-pud va)
            (λ w. large_page 1 e w present (pse-cases e large) refl),
      )
    ]
  ]

  Found-at_pgd : (e va : ℕ) → Found (phys_from f 3 e) va (2 ^ 39) (at_pgd prog e va)
  unfolding at_pgd
  Found-at_pgd e va = elim (Bool-cases (pte_present e == 0)) [
    | inl absent ↦ (none, rw absent refl, phys_from-absent 3 e va absent)
    | inr present ↦
        let index = va / 2 ^ 30 % 2 ^ 9 in
        let pud = table_entry f (pte_phys e) index in
        let (o, found, covers) = Found-at_pud pud va in
        (
          o,
          rw (present, entry-flat (pte_phys e) index) found,
          Covers-below (phys_from f 3 e) (phys_from f 2 pud) va (2 ^ 30) (2 ^ 39) o (omega arith)
              (Block-pud va) (λ w. same_entry 2 e va w present refl) covers,
        )
  ]

  top_entry-flat :
      (pgd_va base index : ℕ)
      → base ≤ pgd_va
      → top_entry prog pgd_va base index ≡ ok (table_entry f (pgd_va - base) index)
  unfolding top_entry table_entry
  top_entry-flat pgd_va base index le =
      let within : leb base (pgd_va + index * 8) ≡ true = ground arith in
      let same : pgd_va + index * 8 - base ≡ pgd_va - base + index * 8 = omega arith in
      rw (within, same, reads (pgd_va - base + index * 8) 8) refl

  -- Every address is found as it is translated alone.
  pub Found-find_mapping :
      (pgd_va base va : ℕ)
      → base ≤ pgd_va
      → Found (phys_of f (pgd_va - base)) va (2 ^ 48) (find_mapping prog pgd_va base va)
  unfolding find_mapping phys_of
  Found-find_mapping pgd_va base va le =
      let index = va / 2 ^ 39 % 2 ^ 9 in
      let e = table_entry f (pgd_va - base) index in
      let (o, found, covers) = Found-at_pgd e va in
      (
        o,
        rw (top_entry-flat pgd_va base index le) found,
        Covers-below (phys_of f (pgd_va - base)) (phys_from f 3 e) va (2 ^ 39) (2 ^ 48) o
            (omega arith) (Block-pgd va)
            (λ w q. ap (λ (x : ℕ). phys_from f 3 (table_entry f (pgd_va - base) (x % 2 ^ 9)) w) q)
            covers,
      )
