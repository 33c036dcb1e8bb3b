-- ===== src/Procinfo/PageTable/Loop.antt =====
-- What the loop over chunks returns.
use telemetryd.Base.{
  ℕ, zero, suc, ◌+◌, ◌-◌, ◌^◌, ◌≤◌, ◌<◌, ◌≡◌, ◌≢◌, refl, sym, ap, ap₂, ◌∙◌, min, false, Option,
  none, some, List, [], ◌∷◌, ◌++◌, length, ◌==◌, Result, ok, Option-cases, inl, inr, arith,
}
use mathlib.Core.List.{append_assoc, append-nil}
use telemetryd.Queues.Decode.{Memory}
use telemetryd.Queues.Flat.{flat}
use telemetryd.Procinfo.PageTable.{
  WalkError, Mapping, read_bytes, read_chunk, read_loop, page_offset_base, read_user_via_pagetable,
}
use telemetryd.Procinfo.PageTable.Bytewise.{phys_of, mapped_bytes, Covers, Found-find_mapping}

page_offset_base-pos : (symbol : Option ℕ) → 0 < page_offset_base symbol
unfolding page_offset_base
page_offset_base-pos none = omega arith
page_offset_base-pos (some v) = ground arith

module _ (f : ℕ → ℕ) where
  -- A chunk of a mapping, and what is mapped behind it.
  mapped_bytes-add :
      (pgd va phys n more : ℕ)
      → ((j : ℕ) → j < n → phys_of f pgd (va + j) ≡ some (phys + j))
      → mapped_bytes f pgd va (n + more) ≡ flat f phys n ++ mapped_bytes f pgd (va + n) more
  unfolding mapped_bytes
  mapped_bytes-add pgd va phys zero more covered =
      ap₂ (mapped_bytes f pgd) (omega arith) (omega arith)
  mapped_bytes-add pgd va phys (suc n) more covered =
      let first : phys_of f pgd va ≡ some phys =
        ap (phys_of f pgd) (omega arith) ∙ covered 0 (omega arith) ∙ ap some (omega arith) in
      let ih = mapped_bytes-add pgd (va + 1) (suc phys) n more (λ j h.
        ap (phys_of f pgd) (omega arith) ∙ covered (suc j) (omega arith) ∙ ap some (omega arith)) in
      let shape : suc n + more ≡ suc (n + more) = omega arith in
      let behind : va + 1 + n ≡ va + suc n = omega arith in
      rw (shape, first, mapped_bytes)
        (ap (λ (xs : List ℕ). f phys ∷ xs)
          (ih ∙ ap (λ (v : ℕ). flat f (suc phys) n ++ mapped_bytes f pgd v more) behind))

  mapped_bytes-unmapped : (pgd va n : ℕ) → phys_of f pgd va ≡ none → mapped_bytes f pgd va n ≡ []
  unfolding mapped_bytes
  mapped_bytes-unmapped pgd va zero h = refl
  mapped_bytes-unmapped pgd va (suc n) h = rw (h, mapped_bytes) refl

  length-mapped_bytes-le : (pgd va n : ℕ) → length (mapped_bytes f pgd va n) ≤ n
  unfolding mapped_bytes
  length-mapped_bytes-le pgd va zero = omega arith
  length-mapped_bytes-le pgd va (suc n) = elim (Option-cases (phys_of f pgd va)) [
    | inl e ↦ rw (e, mapped_bytes) (omega arith)
    | inr (p, e) ↦ rw (e, mapped_bytes) (omega (arith, length-mapped_bytes-le pgd (va + 1) n))
  ]

module _ (f : ℕ → ℕ) (prog : Memory) (reads : (p n : ℕ) → prog p n ≡ some (flat f p n)) where
  read_bytes-flat : (p n : ℕ) → read_bytes prog p n ≡ ok (flat f p n)
  unfolding read_bytes
  read_bytes-flat p n = rw (reads p n, read_bytes) refl

  read_chunk-mapped_bytes :
      (pgd size va remaining : ℕ) (out : List ℕ) (next : ℕ → ℕ → List ℕ → Result WalkError (List ℕ))
      (o : Option Mapping)
      → remaining ≢ 0
      → Covers (phys_of f pgd) va size o
      → ((v n : ℕ) (xs : List ℕ) → n < remaining → next v n xs ≡ ok (xs ++ mapped_bytes f pgd v n))
      → read_chunk prog next va remaining out o ≡ ok (out ++ mapped_bytes f pgd va remaining)
  unfolding read_chunk
  read_chunk-mapped_bytes pgd size va remaining out next none more covers ih =
      rw (mapped_bytes-unmapped f pgd va remaining covers, append-nil out) refl
  read_chunk-mapped_bytes pgd size va remaining out next (some m) more (pos, fits, covered) ih =
      let chunk = min remaining m.room in
      let shape : remaining ≡ chunk + (remaining - chunk) = omega arith in
      let parts =
        ap (mapped_bytes f pgd va) shape
        ∙ mapped_bytes-add f pgd va m.phys chunk (remaining - chunk)
            (λ j h. covered j (omega arith)) in
      rw (read_bytes-flat m.phys chunk) (
        ih (va + chunk) (remaining - chunk) (out ++ flat f m.phys chunk) (omega arith)
        ∙ ap ok (
            append_assoc out (flat f m.phys chunk)
              (mapped_bytes f pgd (va + chunk) (remaining - chunk))
            ∙ ap (λ (xs : List ℕ). out ++ xs) (sym parts)))

  read_loop-mapped_bytes :
      (pgd_va base fuel va remaining : ℕ) (out : List ℕ)
      → base ≤ pgd_va
      → remaining ≤ fuel
      → read_loop prog pgd_va base fuel va remaining out
        ≡ ok (out ++ mapped_bytes f (pgd_va - base) va remaining)
  unfolding read_loop mapped_bytes
  read_loop-mapped_bytes pgd_va base zero va zero out le enough = rw (append-nil out) refl
  read_loop-mapped_bytes pgd_va base zero va (suc n) out le enough = absurd (omega arith)
  read_loop-mapped_bytes pgd_va base (suc fuel) va zero out le enough = rw (append-nil out) refl
  read_loop-mapped_bytes pgd_va base (suc fuel) va (suc n) out le enough =
      let (o, found, covers) = Found-find_mapping f prog reads pgd_va base va le in
      let some_left : (suc n == 0) ≡ false = ground arith in
      rw (some_left, found)
        (read_chunk-mapped_bytes (pgd_va - base) (2 ^ 48) va (suc n) out
          (read_loop prog pgd_va base fuel) o (omega arith) covers
          (λ v k xs h. read_loop-mapped_bytes pgd_va base fuel v k xs le (omega arith)))

  -- The whole function, against a translation with the walk's own mask.
  pub read_user_via_pagetable-mapped_bytes :
      (symbol : Option ℕ) (pgd_va addr size : ℕ)
      → page_offset_base symbol ≤ pgd_va
      → (read_user_via_pagetable prog symbol pgd_va addr size
          ≡ ok (mapped_bytes f (pgd_va - page_offset_base symbol) addr size))
        × (length (mapped_bytes f (pgd_va - page_offset_base symbol) addr size) ≤ size)
  unfolding read_user_via_pagetable
  read_user_via_pagetable-mapped_bytes symbol pgd_va addr size le =
      let base = page_offset_base symbol in
      let given : (pgd_va == 0) ≡ false = ground (arith, page_offset_base-pos symbol) in
      (
        rw given (read_loop-mapped_bytes pgd_va base size addr size [] le (omega arith)),
        length-mapped_bytes-le f (pgd_va - base) addr size,
      )
