-- ===== src/Targets/State.antt =====
-- backend/targets.py: `_save` and `_load`. The state file holds what `json` wrote of a `Saved`, and
-- reading it back gives the same; a file that is not there or is no JSON is `none`.
use telemetryd.Base.{
  ℕ, ◌-◌, ◌≤◌, ◌≡◌, refl, sym, ap, ◌∙◌, subst, true, false, Option, none, some, List, [], ◌∷◌, map,
  drop, length, select, Text, text_eq, text_eq_iff, text_keys, pair_keys, nat_keys, Dict, get, put,
  get-put, NoDup, All, ◌==◌, if◌then◌else◌, arith, Bool-cases, inl, inr,
}
use telemetryd.Models.Profile.{TargetRule, Session, finished}
use telemetryd.Targets.Rules.{is_valid_kind}
use telemetryd.Targets.Sessions.{Registry, Identity}
use telemetryd.Targets.Sessions.Observed.{SameRun}
use telemetryd.Targets.Registry.{values}

-- The file's content; a session is without its groups and its measurements.
pub record Saved (Groups Aggregate : Type 0) : Type 0 where
  pub rules : List TargetRule
  pub sessions : List (Session Groups Aggregate)

module _ {Groups Aggregate : Type 0} where
  abbrev pub stripped : Session Groups Aggregate → Session Groups Aggregate
  stripped s = record s { aggregate = none; logical_groups = none }

  -- `xs[-n:]`; `xs[-0:]` is the whole list.
  abbrev pub last_sessions : ℕ → List (Session Groups Aggregate) → List (Session Groups Aggregate)
  last_sessions n xs = if n == 0 then xs else drop (length xs - n) xs

  -- `_save`
  unfoldable pub save : ℕ → Registry Groups Aggregate → Saved Groups Aggregate
  save max_finished r = record {
    rules = r.rules;
    sessions = map stripped (last_sessions max_finished (values r.sessions));
  }

  -- A session that was read back is over until its process is met again.
  abbrev pub revived : Session Groups Aggregate → Session Groups Aggregate
  revived s = record s { status = finished; logical_groups = none }

  unfoldable pub load_sessions :
      Dict Text (Session Groups Aggregate)
      → List (Session Groups Aggregate)
      → Dict Text (Session Groups Aggregate)
  load_sessions d [] = d
  load_sessions d (s ∷ ss) = load_sessions (put d s.session_id (revived s)) ss

  unfoldable pub load_identities :
      Dict Identity Text → List (Session Groups Aggregate) → Dict Identity Text
  load_identities d [] = d
  load_identities d (s ∷ ss) = load_identities (put d (s.pid, s.start_time_ns) s.session_id) ss

  -- `_load`, into a registry that is new.
  unfoldable pub load : Option (Saved Groups Aggregate) → Registry Groups Aggregate
  load none = record { rules = []; sessions = []; by_identity = [] }
  load (some f) = record {
    rules = select (λ r. is_valid_kind r.kind) f.rules;
    sessions = load_sessions [] f.sessions;
    by_identity = load_identities [] f.sessions;
  }

  -- Each session stands under its own id.
  abbrev pub IsKeyed : Dict Text (Session Groups Aggregate) → Type 0
  IsKeyed = All (λ e. e.1.session_id ≡ e.0)

  load_sessions-absent :
      (d e : Dict Text (Session Groups Aggregate)) (sid : Text)
      → IsKeyed e
      → get e sid ≡ none
      → get (load_sessions d (map stripped (values e))) sid ≡ get d sid
  unfolding load_sessions get
  load_sessions-absent d [] sid keyed gone = refl
  load_sessions-absent d ((k, s) ∷ e) sid keyed gone = elim (Bool-cases (text_eq k sid)) [
    | inl here_is ↦ absurd (ground (arith, here_is, gone))
    | inr other ↦
        let not_its : text_eq s.session_id sid ≡ false =
          subst (λ x. text_eq x sid ≡ false) (sym keyed.0) other in
        load_sessions-absent (put d s.session_id (revived (stripped s))) e sid keyed.1
          (rw other at gone)
        ∙ get-put d s.session_id sid (revived (stripped s))
        ∙ rw not_its refl
  ]

  some_injective :
      (s t : Session Groups Aggregate)
      → ◌≡◌ {A = Option (Session Groups Aggregate)} (some s) (some t)
      → s ≡ t
  some_injective s t e = cc

  load_sessions-present :
      (d e : Dict Text (Session Groups Aggregate)) (sid : Text) (s : Session Groups Aggregate)
      → IsKeyed e
      → NoDup e
      → get e sid ≡ some s
      → get (load_sessions d (map stripped (values e))) sid ≡ some (revived (stripped s))
  unfolding load_sessions get
  load_sessions-present d [] sid s keyed unique found = absurd (ground (arith, found))
  load_sessions-present d ((k, t) ∷ e) sid s keyed unique found =
      elim (Bool-cases (text_eq k sid)) [
        | inl here_is ↦
            let same_key : k ≡ sid = (text_eq_iff k sid).0 here_is in
            let its : text_eq t.session_id sid ≡ true =
              subst (λ x. text_eq x sid ≡ true) (sym keyed.0) here_is in
            let gone : get e sid ≡ none = subst (λ x. get e x ≡ none) same_key unique.0 in
            load_sessions-absent (put d t.session_id (revived (stripped t))) e sid keyed.1 gone
            ∙ get-put d t.session_id sid (revived (stripped t))
            ∙ rw its (
                ap (λ (x : Session Groups Aggregate). some (revived (stripped x)))
                  (some_injective t s (rw here_is at found)))
        | inr other ↦
            load_sessions-present (put d t.session_id (revived (stripped t))) e sid s keyed.1
              unique.1 (rw other at found)
      ]

  last_sessions-all :
      (n : ℕ) (xs : List (Session Groups Aggregate)) → length xs ≤ n → last_sessions n xs ≡ xs
  last_sessions-all n xs short =
      let none_over : length xs - n ≡ 0 = omega arith in
      elim (Bool-cases (n == 0)) [ inl e ↦ rw e refl | inr e ↦ rw (e, none_over) refl ]

  -- A session that was saved and read back.
  pub record IsRestored (s t : Session Groups Aggregate) : Type 0 where
    pub run : SameRun s t
    pub over : t.status ≡ finished

  -- Where at most as many sessions as are saved are each under its own id, every session is in the
  -- registry that is loaded from what was saved, as one that is over, of the same process and with
  -- the same command line; and the rules of known kinds are there in their order.
  pub load-save :
      (max_finished : ℕ) (r : Registry Groups Aggregate)
      → length (values r.sessions) ≤ max_finished
      → IsKeyed r.sessions
      → NoDup r.sessions
      → ((sid : Text) (s : Session Groups Aggregate)
          → get r.sessions sid ≡ some s
          → (t : Session Groups Aggregate) × (get (load (some (save max_finished r))).sessions sid
              ≡ some t)
            × IsRestored s t)
        × ((load (some (save max_finished r))).rules ≡ select (λ x. is_valid_kind x.kind) r.rules)
  unfolding load save
  load-save max_finished r short keyed unique = (
    λ sid s found. (
      revived (stripped s),
      rw (last_sessions-all max_finished (values r.sessions) short)
          (load_sessions-present [] r.sessions sid s keyed unique found),
      record {
        run = record {
          same_id = refl;
          same_pid = refl;
          same_start = refl;
          same_cmdline = refl;
          same_begin = refl;
          same_rule = refl;
        };
        over = refl;
      },
    ),
    refl,
  )
