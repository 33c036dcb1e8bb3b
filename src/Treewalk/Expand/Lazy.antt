-- ===== src/Treewalk/Expand/Lazy.antt =====
-- The expansion of a listed child shows the node that the list showed.
use telemetryd.Base.{
  ℕ, ◌≤◌, ◌<◌, ◌≡◌, ◌≢◌, refl, sym, ap, ◌∙◌, Bool, true, false, ◌&&◌, none, List, [], ◌∷◌, ◌++◌,
  length, length-append, Text, Member, ok, ok-injective, ltb, ltb→lt, Bool-cases, inl, inr, arith,
}
use telemetryd.Models.Tree.{TreeNode, TreeExpansion}
use telemetryd.Treewalk.{max_depth}
use telemetryd.Treewalk.Kernel.{Drgn}
use telemetryd.Treewalk.Describe.{describe}
use telemetryd.Treewalk.Steps.{target_name, last_name}
use telemetryd.Treewalk.Expand.{
  follow_step, resolve_path, expand_resolved, expand, too_deep_expansion, expansion_of,
}
use telemetryd.Treewalk.Expand.Followed.{HasPlainMembers, child_objects-Follows}
use telemetryd.Treewalk.Expand.Opened.{
  describe-name, resolve_path-append, expansion_of-IsExpansion, expand_resolved-Member, no_child_in,
  children_of-Described, IsExpansion,
}

last_name-append :
    (name step : Text) (path : List Text) → last_name name (path ++ (step ∷ [])) ≡ step
last_name-append name step [] = refl
last_name-append name step (s ∷ path) = last_name-append s step path

and-true : (a b : Bool) → (a && b) ≡ true → b ≡ true
and-true a b h = ground arith

module _ (d : Drgn) where
  open d use {Obj, members}

  -- The path to a node leads to an object that is shown as this node, and if its expansion
  -- returns, it is that of this node, without an error.
  abbrev pub IsOpened : Obj → Text → List Text → TreeNode → Type 0
  IsOpened root root_name path n =
      ((obj : Obj) × (resolve_path d root path ≡ ok obj) × (describe d n.name obj ≡ ok n))
      × ((e : TreeExpansion)
          → expand d root root_name path ≡ ok e
          → (e.node ≡ n) × (e.error ≡ none))

  expand-within :
      (root : Obj) (root_name : Text) (path : List Text)
      → length path ≤ max_depth
      → expand d root root_name path
        ≡ expand_resolved d (last_name root_name path) (length path) (resolve_path d root path)
  unfolding expand
  expand-within root root_name path le =
      let within : ltb max_depth (length path) ≡ false = ground arith in rw within refl

  -- An expansion with a child is not too deep, and its path is resolved.
  expand-Member :
      (root : Obj) (root_name : Text) (path : List Text) (e : TreeExpansion) (n : TreeNode)
      → expand d root root_name path ≡ ok e
      → Member n e.children
      → (obj : Obj) × (resolve_path d root path ≡ ok obj)
        × IsExpansion d (last_name root_name path) (length path) obj e
  unfolding expand
  expand-Member root root_name path e n returned m =
      elim (Bool-cases (ltb max_depth (length path))) [
        | inl deep ↦ absurd (
            no_child_in d (too_deep_expansion (last_name root_name path) (length path)) e
              (rw deep at returned) refl m)
        | inr fits ↦
            expand_resolved-Member d (last_name root_name path) (length path)
              (resolve_path d root path) e n (rw fits at returned) m
      ]

  IsOpened-child :
      (root obj child : Obj) (root_name : Text) (path : List Text) (n : TreeNode)
      → length path < max_depth
      → resolve_path d root path ≡ ok obj
      → follow_step d obj n.name ≡ ok child
      → describe d n.name child ≡ ok n
      → IsOpened root root_name (path ++ (n.name ∷ [])) n
  unfolding expand_resolved
  IsOpened-child root obj child root_name path n short resolved step shown =
      let whole = path ++ (n.name ∷ []) in
      let reached : resolve_path d root whole ≡ ok child =
        resolve_path-append d path n.name root obj resolved ∙ rw step refl in
      let fits : length whole ≤ max_depth = omega (arith, length-append {0} path (n.name ∷ [])) in
      let opened =
        expand-within root root_name whole fits
        ∙ ap (expand_resolved d (last_name root_name whole) (length whole)) reached
        ∙ ap (λ (name : Text). expansion_of d name (length whole) child)
            (last_name-append root_name n.name path) in
      (
        (child, reached, shown),
        λ e returned.
            let (node, listed, clean, deep) =
              expansion_of-IsExpansion d n.name (length whole) child e (sym opened ∙ returned) in
            (ok-injective (sym node ∙ shown), clean),
      )

  -- The tree can be walked level by level: where no member of a structure is called like an index
  -- in brackets, every child that an expansion lists, but a pointer's scalar target, is reached by
  -- the path with its name behind it, is shown there as it was listed, and if its own expansion
  -- returns, that is of this node and has no error.
  pub expand-IsOpened :
      ((id : ℕ) → HasPlainMembers d (members id))
      → (root : Obj) (root_name : Text) (path : List Text) (e : TreeExpansion) (n : TreeNode)
      → expand d root root_name path ≡ ok e
      → Member n e.children
      → n.name ≢ target_name
      → IsOpened root root_name (path ++ (n.name ∷ [])) n
  expand-IsOpened named root root_name path e n returned m other =
      let (obj, resolved, (node, children, clean, deep)) =
        expand-Member root root_name path e n returned m in
      let (shown, cs, listed, (name, child, inside, described)) =
        children_of-Described d obj (e.node.expandable && ltb (length path) max_depth) e.children n
          children m in
      let named_so : n.name ≡ name = describe-name d name child n described in
      let step =
        child_objects-Follows d named obj cs listed name child inside
          (λ same. other (named_so ∙ same)) in
      IsOpened-child root obj child root_name path n
        (ltb→lt (length path) max_depth
          (and-true e.node.expandable (ltb (length path) max_depth) shown))
        resolved (ap (follow_step d obj) named_so ∙ step)
        (ap (λ (x : Text). describe d x child) named_so ∙ described)
