-- ===== src/Procinfo/Argv.antt =====
-- The command line as text.
use telemetryd.Base.{
  ℕ, ◌+◌, ◌-◌, ◌≤◌, ◌<◌, ◌≡◌, refl, ap, ap₂, ◌∙◌, min, false, ◌||◌, Option, none, some, List, [],
  ◌∷◌, ◌++◌, length, All, select, Text, leb, ◌==◌, ok, raise, Bool-cases, ◌⊎◌, inl, inr, not, arith,
}
use telemetryd.Procinfo.{
  System, Task, Mm, split_nul, join_words, argv_text, walk_user, fallback_text, read_arguments,
  read_between, cmdline, cmdline_max, or_else, is_empty,
}

-- A process's arguments in its memory: each with a NUL behind it.
abbrev pub argv_bytes : List Text → List ℕ
argv_bytes [] = []
argv_bytes (arg ∷ args) = arg ++ (0 ∷ argv_bytes args)

abbrev pub NoNul : Text → Type 0
NoNul = All (λ c. (c == 0) ≡ false)

-- `" ".join(words)`
abbrev pub spaced : List Text → Text
spaced [] = []
spaced (w ∷ []) = w
spaced (w ∷ v ∷ ws) = w ++ (b' ' ∷ spaced (v ∷ ws))

abbrev pub filled : List Text → List Text
filled = select (λ w. not (is_empty w))

split_nul-cons : (t : Text) → (w : Text) × (ws : List Text) × (split_nul t ≡ w ∷ ws)
unfolding split_nul
split_nul-cons [] = ([], [], refl)
split_nul-cons (c ∷ cs) =
    let (w, ws, e) = split_nul-cons cs in
    elim (Bool-cases (c == 0)) [
      | inl nul ↦ ([], w ∷ ws, rw (e, nul) refl)
      | inr other ↦ (c ∷ w, ws, rw (e, other) refl)
    ]

split_nul-append :
    (arg rest : Text) → NoNul arg → split_nul (arg ++ (0 ∷ rest)) ≡ arg ∷ split_nul rest
unfolding split_nul
split_nul-append [] rest h = let (w, ws, e) = split_nul-cons rest in rw e refl
split_nul-append (c ∷ arg) rest h = rw (split_nul-append arg rest h.1, h.0) refl

split_nul-argv_bytes :
    (args : List Text) → All NoNul args → split_nul (argv_bytes args) ≡ args ++ ([] ∷ [])
unfolding split_nul
split_nul-argv_bytes [] h = refl
split_nul-argv_bytes (arg ∷ args) h =
    split_nul-append arg (argv_bytes args) h.0
    ∙ ap (λ (ws : List Text). arg ∷ ws) (split_nul-argv_bytes args h.1)

filled-cases :
    (words : List Text)
    → (filled words ≡ [])
      ⊎ ((d : ℕ) × (ds : Text) × (ws : List Text) × (filled words ≡ (d ∷ ds) ∷ ws))
filled-cases [] = inl refl
filled-cases ([] ∷ words) = filled-cases words
filled-cases ((c ∷ cs) ∷ words) = inr (c, cs, filled words, refl)

spaced-cons :
    (d : ℕ) (ds : Text) (ws : List Text) → (e : ℕ) × (es : Text) × (spaced ((d ∷ ds) ∷ ws) ≡ e ∷ es)
spaced-cons d ds [] = (d, ds, refl)
spaced-cons d ds (v ∷ ws) = (d, ds ++ (b' ' ∷ spaced (v ∷ ws)), refl)

-- The words that the source joins are those that are not empty.
join_words-filled : (words : List Text) → join_words words ≡ spaced (filled words)
unfolding join_words
join_words-filled [] = refl
join_words-filled ([] ∷ words) = join_words-filled words
join_words-filled ((c ∷ cs) ∷ words) = elim (filled-cases words) [
  | inl last ↦ rw (join_words-filled words, last) refl
  | inr (d, ds, ws, more) ↦
      let (e, es, shape) = spaced-cons d ds ws in rw (join_words-filled words, more) (rw shape refl)
]

filled-end : (words : List Text) → filled (words ++ ([] ∷ [])) ≡ filled words
filled-end [] = refl
filled-end ([] ∷ words) = filled-end words
filled-end ((c ∷ cs) ∷ words) = ap (λ (ws : List Text). (c ∷ cs) ∷ ws) (filled-end words)

-- What the kernel's helper, or else the walk through the page table, gives of the arguments.
abbrev pub Sees : System → Mm → ℕ → ℕ → List ℕ → Type 0
Sees sys mm start n bytes =
    (mm.access_process_vm start n ≡ ok (some bytes))
    ⊎ ((e : Text) × (mm.access_process_vm start n ≡ raise e)
        × (walk_user sys mm start n ≡ ok bytes))

abbrev pub text_of : List Text → Text × Option Text
text_of args = (spaced (filled args), none)

module _ (sys : System) (args : List Text) (ascii : sys.decode (argv_bytes args) ≡ argv_bytes args)
    (nul_free : All NoNul args) where
  argv_text-spaced : argv_text sys (argv_bytes args) ≡ spaced (filled args)
  unfolding argv_text
  argv_text-spaced =
      ap (λ (t : Text). join_words (split_nul t)) ascii
      ∙ ap join_words (split_nul-argv_bytes args nul_free)
      ∙ join_words-filled (args ++ ([] ∷ []))
      ∙ ap spaced (filled-end args)

  fallback_text-spaced :
      (helper : Text) (bytes : List ℕ)
      → bytes ≡ argv_bytes args
      → 0 < length bytes
      → fallback_text sys helper (ok bytes) ≡ text_of args
  unfolding fallback_text
  fallback_text-spaced helper [] same has = absurd (omega arith)
  fallback_text-spaced helper (b ∷ bs) same has =
      ap (λ (t : Text). (t, none)) (ap (argv_text sys) same ∙ argv_text-spaced)

  read_arguments-spaced :
      (mm : Mm) (start n : ℕ)
      → 0 < length (argv_bytes args)
      → Sees sys mm start n (argv_bytes args)
      → read_arguments sys mm start n ≡ text_of args
  unfolding read_arguments
  read_arguments-spaced mm start n has (inl seen) =
      rw (seen, read_arguments) (ap (λ (t : Text). (t, none)) argv_text-spaced)
  read_arguments-spaced mm start n has (inr (e, raised, walked)) =
      rw (raised, read_arguments, walked) (fallback_text-spaced e (argv_bytes args) refl has)

  read_between-spaced :
      (mm : Mm) (start : ℕ)
      → 0 < start
      → 0 < length (argv_bytes args)
      → length (argv_bytes args) ≤ cmdline_max
      → Sees sys mm start (length (argv_bytes args)) (argv_bytes args)
      → read_between sys mm start (start + length (argv_bytes args)) ≡ text_of args
  unfolding read_between
  read_between-spaced mm start nonzero has short sees =
      let n = length (argv_bytes args) in
      let inside : (start == 0 || leb (start + n) start) ≡ false = ground arith in
      let whole : min (start + n - start) cmdline_max ≡ n = omega arith in
      rw (inside, whole) (read_arguments-spaced mm start n has sees)

  -- Where the arguments of a task are ASCII without a NUL in them, are at most 4096 bytes, and can
  -- be read by the kernel's helper or, after that has raised, through the page table, the command
  -- line is the arguments that are not empty, with spaces between them, and no reason for a gap.
  pub cmdline-spaced :
      (task : Task) (mm : Mm) (start : ℕ)
      → task.mm ≡ some mm
      → mm.arg_start ≡ some start
      → mm.arg_end ≡ some (start + length (argv_bytes args))
      → 0 < start
      → 0 < length (argv_bytes args)
      → length (argv_bytes args) ≤ cmdline_max
      → Sees sys mm start (length (argv_bytes args)) (argv_bytes args)
      → cmdline sys task ≡ text_of args
  unfolding cmdline
  cmdline-spaced task mm start user begins ends nonzero has short sees =
      rw (user, cmdline)
        (ap₂ (read_between sys mm) (ap (or_else 0) begins) (ap (or_else 0) ends)
          ∙ read_between-spaced mm start nonzero has short sees)
