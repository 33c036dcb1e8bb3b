-- ===== src/Targets/Sessions/Observed.antt =====
-- What a refresh does to the sessions that there are.
use telemetryd.Base.{
  ℕ, ◌≡◌, refl, sym, ◌∙◌, subst, true, false, ◌&&◌, not, Option, some, List, [], ◌∷◌, Text, text_eq,
  text_eq_iff, text_in, text_keys, nat_keys, pair_keys, Dict, get, put, get-put, ◌==◌, arith,
  Bool-cases, Option-cases, inl, inr,
}
use telemetryd.Models.Profile.{ProcessInfo, ProcessIoStat, TargetRule, Session, finished}
use telemetryd.Targets.Attribution.{is_active}
use telemetryd.Targets.Sessions.{
  Adapters, close_reused, map_values, keys, observe, update_session, finish_missing,
}

module _ {Groups Aggregate : Type 0} where
  -- Both are of one process and one observation.
  pub record SameRun (s t : Session Groups Aggregate) : Type 0 where
    pub same_id : t.session_id ≡ s.session_id
    pub same_pid : t.pid ≡ s.pid
    pub same_start : t.start_time_ns ≡ s.start_time_ns
    pub same_cmdline : t.cmdline ≡ s.cmdline
    pub same_begin : t.session_start_ns ≡ s.session_start_ns
    pub same_rule : t.matched_rule ≡ s.matched_rule

  pub SameRun-refl : (s : Session Groups Aggregate) → SameRun s s
  SameRun-refl s = record {
    same_id = refl;
    same_pid = refl;
    same_start = refl;
    same_cmdline = refl;
    same_begin = refl;
    same_rule = refl;
  }

  SameRun-trans : (s t u : Session Groups Aggregate) → SameRun s t → SameRun t u → SameRun s u
  SameRun-trans s t u a b = record {
    same_id = b.same_id ∙ a.same_id;
    same_pid = b.same_pid ∙ a.same_pid;
    same_start = b.same_start ∙ a.same_start;
    same_cmdline = b.same_cmdline ∙ a.same_cmdline;
    same_begin = b.same_begin ∙ a.same_begin;
    same_rule = b.same_rule ∙ a.same_rule;
  }

  -- Each session is still there.
  abbrev pub Keeps :
      Dict Text (Session Groups Aggregate) → Dict Text (Session Groups Aggregate) → Type 0
  Keeps d e =
      (sid : Text) (s : Session Groups Aggregate)
      → get d sid ≡ some s
      → (t : Session Groups Aggregate) × (get e sid ≡ some t) × SameRun s t

  pub Keeps-trans :
      (c d e : Dict Text (Session Groups Aggregate)) → Keeps c d → Keeps d e → Keeps c e
  Keeps-trans c d e f g sid s found =
      let (t, found_t, same_t) = f sid s found in
      let (u, found_u, same_u) = g sid t found_t in (u, found_u, SameRun-trans s t u same_t same_u)

  pub close_reused-SameRun :
      (proc : ProcessInfo) (now_ns : ℕ) (s : Session Groups Aggregate)
      → SameRun s (close_reused proc now_ns s)
  unfolding close_reused
  close_reused-SameRun proc now_ns s =
      elim (Bool-cases
        (s.pid == proc.pid && is_active s.status && not (s.start_time_ns == proc.start_time_ns))) [
          | inl e ↦ rw e (record {
            same_id = refl;
            same_pid = refl;
            same_start = refl;
            same_cmdline = refl;
            same_begin = refl;
            same_rule = refl;
          })
          | inr e ↦ rw e (SameRun-refl s)
        ]

  some_injective :
      (t s : Session Groups Aggregate)
      → ◌≡◌ {A = Option (Session Groups Aggregate)} (some t) (some s)
      → t ≡ s
  some_injective t s e = cc

  Keeps-cons :
      (k : Text) (t u : Session Groups Aggregate) (d e : Dict Text (Session Groups Aggregate))
      → SameRun t u
      → Keeps d e
      → Keeps ((k, t) ∷ d) ((k, u) ∷ e)
  unfolding get
  Keeps-cons k t u d e same keeps j s found = elim (Bool-cases (text_eq k j)) [
    | inl here_is ↦ (
      u,
      rw here_is refl,
      subst (λ x. SameRun x u) (some_injective t s (rw here_is at found)) same,
    )
    | inr other ↦
        let (v, found_v, same_v) = keeps j s (rw other at found) in
        (v, rw (other, get) found_v, same_v)
  ]

  pub Keeps-refl : (d : Dict Text (Session Groups Aggregate)) → Keeps d d
  Keeps-refl d sid s found = (s, found, SameRun-refl s)

  pub Keeps-map_values :
      (f : Session Groups Aggregate → Session Groups Aggregate)
      → ((s : Session Groups Aggregate) → SameRun s (f s))
      → (d : Dict Text (Session Groups Aggregate)) → Keeps d (map_values f d)
  Keeps-map_values f h [] = Keeps-refl []
  Keeps-map_values f h ((k, t) ∷ d) =
      Keeps-cons k t (f t) d (map_values f d) (h t) (Keeps-map_values f h d)

  -- A key that is not among the keys has no value.
  get-keys :
      (d : Dict Text (Session Groups Aggregate)) (sid : Text) (s : Session Groups Aggregate)
      → get d sid ≡ some s
      → text_in (keys d) sid ≡ true
  unfolding get
  get-keys [] sid s h = absurd (ground (arith, h))
  get-keys ((k, t) ∷ d) sid s h = elim (Bool-cases (text_eq k sid)) [
    | inl e ↦ rw e refl
    | inr e ↦ rw e (get-keys d sid s (rw e at h))
  ]

  -- A session with a free id does not take the place of another.
  pub Keeps-put :
      (d : Dict Text (Session Groups Aggregate)) (sid : Text) (n : Session Groups Aggregate)
      → text_in (keys d) sid ≡ false
      → Keeps d (put d sid n)
  Keeps-put d sid n free j s found = elim (Bool-cases (text_eq sid j)) [
    | inl e ↦
        let mine =
          subst (λ x. text_in (keys d) x ≡ true) (sym ((text_eq_iff sid j).0 e))
            (get-keys d j s found) in
        absurd (ground (arith, free, mine))
    | inr e ↦ (s, get-put d sid j n ∙ rw e found, SameRun-refl s)
  ]

  pub observe-SameRun :
      (adapters : Adapters Groups Aggregate) (proc : ProcessInfo) (rule : TargetRule)
      (mine : List ProcessIoStat) (s : Session Groups Aggregate)
      → SameRun s (observe adapters proc rule mine s)
  unfolding observe
  observe-SameRun adapters proc rule mine s = record {
    same_id = refl;
    same_pid = refl;
    same_start = refl;
    same_cmdline = refl;
    same_begin = refl;
    same_rule = refl;
  }

  pub Keeps-update_session :
      (f : Session Groups Aggregate → Session Groups Aggregate)
      (d : Dict Text (Session Groups Aggregate)) (sid : Text)
      → ((s : Session Groups Aggregate) → SameRun s (f s))
      → Keeps d (update_session f d sid)
  unfolding update_session
  Keeps-update_session f d sid h j s found = elim (Option-cases (get d sid)) [
    | inl e ↦ rw (e, update_session) (s, found, SameRun-refl s)
    | inr (t, e) ↦
        rw (e, update_session)
          (elim (Bool-cases (text_eq sid j)) [
            | inl same ↦
                let at_j : get d j ≡ some t =
                  subst (λ x. get d x ≡ some t) ((text_eq_iff sid j).0 same) e in
                (
                  f t,
                  get-put d sid j (f t) ∙ rw same refl,
                  subst (λ x. SameRun x (f t)) (some_injective t s (sym at_j ∙ found)) (h t),
                )
            | inr other ↦ (s, get-put d sid j (f t) ∙ rw other found, SameRun-refl s)
          ])
  ]

  pub Keeps-finish_missing :
      (now_ns : ℕ) (ids : List Text) (d : Dict Text (Session Groups Aggregate))
      → Keeps d (finish_missing now_ns ids d)
  unfolding finish_missing
  Keeps-finish_missing now_ns ids [] = Keeps-refl []
  Keeps-finish_missing now_ns ids ((k, t) ∷ d) =
      let rest = Keeps-finish_missing now_ns ids d in
      let ended : Session Groups Aggregate = record t {
        status = finished;
        session_end_ns = some now_ns;
      } in
      let same : SameRun t ended = record {
        same_id = refl;
        same_pid = refl;
        same_start = refl;
        same_cmdline = refl;
        same_begin = refl;
        same_rule = refl;
      } in
      elim (Bool-cases (is_active t.status && not (text_in ids k))) [
        | inl e ↦ rw e (Keeps-cons k t ended d (finish_missing now_ns ids d) same rest)
        | inr e ↦ rw e (Keeps-cons k t t d (finish_missing now_ns ids d) (SameRun-refl t) rest)
      ]
