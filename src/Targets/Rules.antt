-- ===== src/Targets/Rules.antt =====
-- backend/targets.py: the rules, and the processes that they match. `search pattern text` is
-- `re.search`; `none` is `re.error`.
use telemetryd.Base.{
  ℕ, Bool, true, false, ◌&&◌, ◌||◌, not, Option, none, some, List, [], ◌∷◌, Text, text_eq, codes,
  decimal, strip, Dict, put, nat_keys, ◌==◌, if◌then◌else◌, Result, ok, raise, select,
}
use telemetryd.Models.Profile.{ProcessInfo, TargetRule}

abbrev pub Search : Type 0
Search = Text → Text → Option Bool

-- `os.path.basename`: what is behind the last slash.
abbrev pub has_slash : Text → Bool
has_slash [] = false
has_slash (c ∷ cs) = c == b'/' || has_slash cs

unfoldable pub basename : Text → Text
basename [] = []
basename (c ∷ cs) =
    let rest = basename cs in if has_slash cs then rest else (if c == b'/' then cs else c ∷ cs)

-- A pattern that is no regular expression matches nothing.
abbrev pub found : Option Bool → Bool
found none = false
found (some b) = b

-- `bool(rx.search(a) or rx.search(b))`
abbrev pub found_either : Option Bool → Option Bool → Bool
found_either none second = false
found_either (some true) second = true
found_either (some false) second = found second

unfoldable pub rule_matches : Search → TargetRule → ProcessInfo → Bool
rule_matches search rule proc =
    if text_eq rule.kind (codes "pid")
    then text_eq (decimal proc.pid) (strip rule.value)
    else if text_eq rule.kind (codes "name")
    then text_eq proc.comm (strip rule.value) || text_eq (basename proc.exe_path) (strip rule.value)
    else if text_eq rule.kind (codes "name_pattern")
    then found_either (search rule.value proc.comm) (search rule.value (basename proc.exe_path))
    else if text_eq rule.kind (codes "cmdline_pattern")
    then found (search rule.value proc.cmdline)
    else false

-- `kind in VALID_KINDS`
abbrev pub is_valid_kind : Text → Bool
is_valid_kind kind =
    text_eq kind (codes "pid")
    || text_eq kind (codes "name")
    || text_eq kind (codes "name_pattern")
    || text_eq kind (codes "cmdline_pattern")

abbrev pub same_rule : Text → Text → TargetRule → Bool
same_rule kind value r = text_eq r.kind kind && text_eq r.value value

-- The rule with the same kind and value takes the new adapter; else the rule is put at the end.
unfoldable pub put_rule : List TargetRule → TargetRule → List TargetRule
put_rule [] rule = rule ∷ []
put_rule (r ∷ rules) rule =
    let rest = put_rule rules rule in
    if same_rule rule.kind rule.value r
    then record r { adapter = rule.adapter } ∷ rules
    else r ∷ rest

-- `add_rule`; what is raised is the kind.
unfoldable pub add_rule : List TargetRule → TargetRule → Result Text (List TargetRule)
add_rule rules rule = if is_valid_kind rule.kind then ok (put_rule rules rule) else raise rule.kind

-- `remove_rule`, without the flag that says whether the number of rules is another.
unfoldable pub remove_rule : List TargetRule → Text → Text → List TargetRule
remove_rule rules kind value = select (λ r. not (same_rule kind value r)) rules

-- The first rule that matches.
unfoldable pub first_match : Search → List TargetRule → ProcessInfo → Option TargetRule
first_match search [] proc = none
first_match search (r ∷ rules) proc =
    let rest = first_match search rules proc in if rule_matches search r proc then some r else rest

unfoldable pub hit : Dict ℕ TargetRule → ℕ → Option TargetRule → Dict ℕ TargetRule
hit hits pid none = hits
hit hits pid (some r) = put hits pid r

unfoldable pub resolve_from :
    Search → List TargetRule → Dict ℕ TargetRule → List ProcessInfo → Dict ℕ TargetRule
resolve_from search rules hits [] = hits
resolve_from search rules hits (p ∷ ps) =
    resolve_from search rules (hit hits p.pid (first_match search rules p)) ps

-- `resolve`
unfoldable pub resolve : Search → List TargetRule → List ProcessInfo → Dict ℕ TargetRule
resolve search rules ps = resolve_from search rules [] ps
