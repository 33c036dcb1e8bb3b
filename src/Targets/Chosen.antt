-- ===== src/Targets/Chosen.antt =====
-- The rules, and which of them a process is matched by.
use telemetryd.Base.{
  ℕ, ◌+◌, ◌≤◌, max, subst, ◌++◌, ==_iff, All, Member, here, there, ◌≡◌, refl, sym, ap, ◌∙◌, true,
  false, ◌&&◌, Option, none, some, List, [], ◌∷◌, Text, text_eq, text_eq_iff, Dict, get, get-put,
  nat_keys, ◌==◌, if◌then◌else◌, ok, raise, ok-injective, arith, Bool-cases, Option-cases, inl, inr,
}
use telemetryd.Models.Profile.{ProcessInfo, TargetRule}
use telemetryd.Targets.Rules.{
  Search, rule_matches, same_rule, put_rule, add_rule, remove_rule, is_valid_kind, first_match, hit,
  resolve_from, resolve,
}

-- The rule that the processes' last entry with the pid is matched by.
abbrev pub chosen : Search → List TargetRule → ℕ → List ProcessInfo → Option TargetRule
chosen search rules pid [] = none
chosen search rules pid (p ∷ ps) = elim (chosen search rules pid ps) [
  | some r ↦ some r
  | none ↦ if p.pid == pid then first_match search rules p else none
]

abbrev pub or_before : Option TargetRule → Option TargetRule → Option TargetRule
or_before none before = before
or_before (some r) before = some r

get-hit :
    (hits : Dict ℕ TargetRule) (i pid : ℕ) (o : Option TargetRule)
    → get (hit hits i o) pid ≡ or_before (if i == pid then o else none) (get hits pid)
unfolding hit
get-hit hits i pid none = ground arith
get-hit hits i pid (some r) = ground (arith, get-put hits i pid r)

get-resolve_from :
    (search : Search) (rules : List TargetRule) (hits : Dict ℕ TargetRule) (ps : List ProcessInfo)
    (pid : ℕ)
    → get (resolve_from search rules hits ps) pid
      ≡ or_before (chosen search rules pid ps) (get hits pid)
unfolding resolve_from
get-resolve_from search rules hits [] pid = refl
get-resolve_from search rules hits (p ∷ ps) pid =
    let next = hit hits p.pid (first_match search rules p) in
    get-resolve_from search rules next ps pid
    ∙ ap (or_before (chosen search rules pid ps))
        (get-hit hits p.pid pid (first_match search rules p))
    ∙ joined (chosen search rules pid ps)
        (if p.pid == pid then first_match search rules p else none) (get hits pid)
  where
    joined :
        (a b c : Option TargetRule)
        → or_before a (or_before b c) ≡ or_before (elim a [ some r ↦ some r | none ↦ b ]) c
    joined none b c = refl
    joined (some r) b c = refl

some_injective : (q r : TargetRule) → ◌≡◌ {A = Option TargetRule} (some q) (some r) → q ≡ r
some_injective q r e = cc

-- The rule is the first in the list that matches the process.
pub record IsFirstMatch (search : Search) (rules : List TargetRule) (p : ProcessInfo)
    (r : TargetRule) : Type 0 where
  pub before : List TargetRule
  pub after : List TargetRule
  pub parts : rules ≡ before ++ (r ∷ after)
  pub earlier : All (λ q. rule_matches search q p ≡ false) before
  pub matches : rule_matches search r p ≡ true

first_match-IsFirstMatch :
    (search : Search) (rules : List TargetRule) (p : ProcessInfo) (r : TargetRule)
    → first_match search rules p ≡ some r
    → IsFirstMatch search rules p r
unfolding first_match
first_match-IsFirstMatch search [] p r h = absurd (ground (arith, h))
first_match-IsFirstMatch search (q ∷ rules) p r h = elim (Bool-cases (rule_matches search q p)) [
  | inl e ↦
      let same = some_injective q r (rw e at h) in
      record {
        before = [];
        after = rules;
        parts = ap (λ x. x ∷ rules) same;
        earlier = tt;
        matches = subst (λ x. rule_matches search x p ≡ true) same e;
      }
  | inr e ↦
      let ih = first_match-IsFirstMatch search rules p r (rw e at h) in
      record {
        before = q ∷ ih.before;
        after = ih.after;
        parts = ap (λ (x : List TargetRule). q ∷ x) ih.parts;
        earlier = (e, ih.earlier);
        matches = ih.matches;
      }
]

chosen-Member :
    (search : Search) (rules : List TargetRule) (pid : ℕ) (ps : List ProcessInfo) (r : TargetRule)
    → chosen search rules pid ps ≡ some r
    → (p : ProcessInfo) × Member p ps × (p.pid ≡ pid) × (first_match search rules p ≡ some r)
chosen-Member search rules pid [] r h = absurd (ground (arith, h))
chosen-Member search rules pid (p ∷ ps) r h = elim (Option-cases (chosen search rules pid ps)) [
  | inr (q, e) ↦
      let (x, m, of_pid, found) = chosen-Member search rules pid ps r (e ∙ rw (e, chosen) at h) in
      (x, there m, of_pid, found)
  | inl e ↦ elim (Bool-cases (p.pid == pid)) [
    | inl is_pid ↦ (p, here refl, (==_iff p.pid pid).0 is_pid, rw (e, is_pid) at h)
    | inr other ↦ absurd (ground (arith, e, other, h))
  ]
]

-- A pid that is resolved to a rule is that of a process, and the rule is the first in the list that
-- matches it.
pub resolve-IsFirstMatch :
    (search : Search) (rules : List TargetRule) (ps : List ProcessInfo) (pid : ℕ) (r : TargetRule)
    → get (resolve search rules ps) pid ≡ some r
    → (p : ProcessInfo) × Member p ps × (p.pid ≡ pid) × IsFirstMatch search rules p r
unfolding resolve get
resolve-IsFirstMatch search rules ps pid r h =
    let picked : chosen search rules pid ps ≡ some r =
      before_none (chosen search rules pid ps)
      ∙ sym (get-resolve_from search rules [] ps pid)
      ∙ h in
    let (p, m, of_pid, found) = chosen-Member search rules pid ps r picked in
    (p, m, of_pid, first_match-IsFirstMatch search rules p r found)
  where
    before_none : (o : Option TargetRule) → o ≡ or_before o none
    before_none none = refl
    before_none (some q) = refl

-- How many rules have this kind and value.
abbrev pub count_rule : Text → Text → List TargetRule → ℕ
count_rule kind value [] = 0
count_rule kind value (r ∷ rules) =
    (if same_rule kind value r then 1 else 0) + count_rule kind value rules

put_rule-count :
    (rules : List TargetRule) (rule : TargetRule) (kind value : Text)
    → count_rule kind value (put_rule rules rule) ≡ (
        if same_rule kind value rule
        then max 1 (count_rule kind value rules)
        else count_rule kind value rules)
unfolding put_rule
put_rule-count [] rule kind value = ground arith
put_rule-count (r ∷ rules) rule kind value = ground (
  arith,
  put_rule-count rules rule kind value,
  text_eq_iff r.kind rule.kind,
  text_eq_iff r.value rule.value,
  text_eq_iff rule.kind kind,
  text_eq_iff rule.value value,
  text_eq_iff r.kind kind,
  text_eq_iff r.value value,
)

remove_rule-count :
    (rules : List TargetRule) (kind value k v : Text)
    → count_rule k v (remove_rule rules kind value)
      ≡ (if text_eq kind k && text_eq value v then 0 else count_rule k v rules)
unfolding remove_rule
remove_rule-count [] kind value k v = ground arith
remove_rule-count (r ∷ rules) kind value k v = ground (
  arith,
  remove_rule-count rules kind value k v,
  text_eq_iff r.kind kind,
  text_eq_iff r.value value,
  text_eq_iff kind k,
  text_eq_iff value v,
  text_eq_iff r.kind k,
  text_eq_iff r.value v,
)

-- No two rules have the same kind and value.
abbrev pub IsUnique : List TargetRule → Type 0
IsUnique rules = (kind value : Text) → count_rule kind value rules ≤ 1

text_eq_refl : (t : Text) → text_eq t t ≡ true
text_eq_refl t = (text_eq_iff t t).1 refl

put_rule-IsUnique :
    (rules : List TargetRule) (rule : TargetRule)
    → IsUnique rules
    → IsUnique (put_rule rules rule) × (count_rule rule.kind rule.value (put_rule rules rule) ≡ 1)
put_rule-IsUnique rules rule unique = (
  λ kind value. ground (arith, put_rule-count rules rule kind value, unique kind value),
  ground (
    arith,
    put_rule-count rules rule rule.kind rule.value,
    unique rule.kind rule.value,
    text_eq_refl rule.kind,
    text_eq_refl rule.value,
  ),
)

-- Adding a rule of a known kind and removing rules keep the rules unique; after the first there is a
-- rule of its kind and value, after the second none of the kind and value that were named; and a kind
-- that is not known is raised.
pub add_rule-IsUnique :
    (rules : List TargetRule) (rule : TargetRule)
    → IsUnique rules
    → ((next : List TargetRule)
        → add_rule rules rule ≡ ok next
        → IsUnique next × (count_rule rule.kind rule.value next ≡ 1))
      × (is_valid_kind rule.kind ≡ false → add_rule rules rule ≡ raise rule.kind)
      × IsUnique (remove_rule rules rule.kind rule.value)
      × (count_rule rule.kind rule.value (remove_rule rules rule.kind rule.value) ≡ 0)
unfolding add_rule
add_rule-IsUnique rules rule unique = (
  λ next h. elim (Bool-cases (is_valid_kind rule.kind)) [
    | inl e ↦
        subst (λ x. IsUnique x × (count_rule rule.kind rule.value x ≡ 1)) (ok-injective (rw e at h))
          (put_rule-IsUnique rules rule unique)
    | inr e ↦ absurd (ground (arith, e, h))
  ],
  λ unknown. rw unknown refl,
  λ kind value.
      ground (arith, remove_rule-count rules rule.kind rule.value kind value, unique kind value),
  ground (
    arith,
    remove_rule-count rules rule.kind rule.value rule.kind rule.value,
    text_eq_refl rule.kind,
    text_eq_refl rule.value,
  ),
)
