-- ===== src/Treewalk/Expand/Opened.antt =====
-- What an expansion that returned has read.
use telemetryd.Base.{
  ℕ, ◌≡◌, refl, sym, ap, ◌∙◌, subst, Bool, true, false, ◌&&◌, none, List, [], ◌∷◌, ◌++◌, Text,
  Member, here, there, Result, ok, raise, ◌>>=◌, >>=-eq-ok, ok-injective, ltb, arith,
}
use telemetryd.Models.Tree.{TreeNode, TreeExpansion}
use telemetryd.Treewalk.{max_depth, on_fault, unwrap_typedef, short_type_name}
use telemetryd.Treewalk.Kernel.{ReadError, fault_error, lookup_error, other_error, Drgn}
use telemetryd.Treewalk.Describe.{Shown, describe, node_of, failed, show_object}
use telemetryd.Treewalk.Expand.{
  node_before, child_objects, follow_step, resolve_path, describe_all, children_of, expansion_of,
  expand_resolved, failed_expansion,
}

module _ (d : Drgn) where
  open d use {Obj, members, type_of, show_type}

  pub describe-name :
      (name : Text) (obj : Obj) (n : TreeNode) → describe d name obj ≡ ok n → n.name ≡ name
  unfolding describe
  describe-name name obj n e =
      let type_name = short_type_name show_type (type_of obj) in
      let (s, shown, made) =
        >>=-eq-ok
          (on_fault (λ e. ok (failed e))
            (show_object d obj type_name (unwrap_typedef (type_of obj))))
          (λ (s : Shown). ok (node_of name type_name s)) e in
      ap (λ (x : TreeNode). x.name) (sym (ok-injective made))

  -- The object of a described child.
  abbrev pub Described : List (Text × Obj) → TreeNode → Type 0
  Described cs n =
      (name : Text) × (child : Obj) × Member (name, child) cs × (describe d name child ≡ ok n)

  Described-front :
      (name : Text) (child : Obj) (cs : List (Text × Obj)) (node : TreeNode) (more : List TreeNode)
      (n : TreeNode)
      → describe d name child ≡ ok node
      → (Member n more → Described cs n)
      → Member n (node ∷ more)
      → Described ((name, child) ∷ cs) n
  Described-front name child cs node more n shown ih (here e) =
      (name, child, here refl, shown ∙ ap ok (sym e))
  Described-front name child cs node more n shown ih (there m) =
      let (name', child', inside, described) = ih m in (name', child', there inside, described)

  node_before-Described :
      (name : Text) (child : Obj) (cs : List (Text × Obj)) (r : Result ReadError TreeNode)
      (rest : Result ReadError (List TreeNode)) (nodes : List TreeNode) (n : TreeNode)
      → describe d name child ≡ r
      → ((more : List TreeNode) → rest ≡ ok more → Member n more → Described cs n)
      → node_before r rest ≡ ok nodes
      → Member n nodes
      → Described ((name, child) ∷ cs) n
  node_before-Described name child cs (ok node) rest nodes n shown ih e m =
      let (more, tail, made) = >>=-eq-ok rest (λ nodes. ok (node ∷ nodes)) e in
      Described-front name child cs node more n shown (ih more tail)
        (subst (Member n) (sym (ok-injective made)) m)
  node_before-Described name child cs (raise (fault_error x)) rest nodes n shown ih e m =
      elim (subst (Member n) (sym (ok-injective e)) m) [ ]
  node_before-Described name child cs (raise (lookup_error x)) rest nodes n shown ih e m =
      absurd (ground (arith, e))
  node_before-Described name child cs (raise (other_error x)) rest nodes n shown ih e m =
      absurd (ground (arith, e))

  describe_all-Described :
      (cs : List (Text × Obj)) (nodes : List TreeNode) (n : TreeNode)
      → describe_all d cs ≡ ok nodes
      → Member n nodes
      → Described cs n
  unfolding describe_all
  describe_all-Described [] nodes n e m = elim (subst (Member n) (sym (ok-injective e)) m) [ ]
  describe_all-Described ((name, child) ∷ cs) nodes n e m =
      node_before-Described name child cs (describe d name child) (describe_all d cs) nodes n refl
        (λ more tail inside. describe_all-Described cs more n tail inside) e m

  pub resolve_path-append :
      (path : List Text) (step : Text) (root obj : Obj)
      → resolve_path d root path ≡ ok obj
      → resolve_path d root (path ++ (step ∷ [])) ≡ (follow_step d obj step >>= ok)
  unfolding resolve_path
  resolve_path-append [] step root obj e =
      ap (λ (o : Obj). follow_step d o step >>= ok) (ok-injective e)
  resolve_path-append (s ∷ path) step root obj e =
      let (next, first, more) =
        >>=-eq-ok (follow_step d root s) (λ next. resolve_path d next path) e in
      rw first (resolve_path-append path step next obj more)

  no_child :
      {n : TreeNode} {nodes : List TreeNode}
      → ◌≡◌ {A = Result ReadError (List TreeNode)} (ok []) (ok nodes)
      → Member n nodes
      → ⊥
  no_child {n} e m = elim (subst (Member n) (sym (ok-injective e)) m) [ ]

  on_fault-ok :
      (r : Result ReadError (List TreeNode)) (nodes : List TreeNode) (n : TreeNode)
      → on_fault (λ e. ok []) r ≡ ok nodes
      → Member n nodes
      → r ≡ ok nodes
  on_fault-ok (ok x) nodes n e m = e
  on_fault-ok (raise (fault_error x)) nodes n e m = absurd (no_child e m)
  on_fault-ok (raise (lookup_error x)) nodes n e m = absurd (ground (arith, e))
  on_fault-ok (raise (other_error x)) nodes n e m = absurd (ground (arith, e))

  pub children_of-Described :
      (obj : Obj) (shown : Bool) (nodes : List TreeNode) (n : TreeNode)
      → children_of d obj shown ≡ ok nodes
      → Member n nodes
      → (shown ≡ true) × (cs : List (Text × Obj)) × (child_objects d obj ≡ ok cs) × Described cs n
  unfolding children_of
  children_of-Described obj false nodes n e m = absurd (no_child e m)
  children_of-Described obj true nodes n e m =
      let (cs, listed, described) =
        >>=-eq-ok (child_objects d obj) (describe_all d)
          (on_fault-ok (child_objects d obj >>= describe_all d) nodes n e m) in
      (refl, cs, listed, describe_all-Described cs nodes n described m)

  -- The parts of an expansion that returned.
  abbrev pub IsExpansion : Text → ℕ → Obj → TreeExpansion → Type 0
  IsExpansion name depth obj e =
      (describe d name obj ≡ ok e.node)
      × (children_of d obj (e.node.expandable && ltb depth max_depth) ≡ ok e.children)
      × (e.error ≡ none)
      × (e.depth ≡ depth)

  pub expansion_of-IsExpansion :
      (name : Text) (depth : ℕ) (obj : Obj) (e : TreeExpansion)
      → expansion_of d name depth obj ≡ ok e
      → IsExpansion name depth obj e
  unfolding expansion_of
  expansion_of-IsExpansion name depth obj e returned =
      let (node, shown, rest) =
        >>=-eq-ok (describe d name obj)
          (λ node.
            children_of d obj (node.expandable && ltb depth max_depth)
            >>= (λ (children : List TreeNode).
                ok record { node = node; children = children; depth = depth; error = none }))
          returned in
      let (children, listed, made) =
        >>=-eq-ok (children_of d obj (node.expandable && ltb depth max_depth))
          (λ (children : List TreeNode).
            ok record { node = node; children = children; depth = depth; error = none })
          rest in
      subst
        (λ (x : TreeExpansion).
          (describe d name obj ≡ ok x.node)
          × (children_of d obj (x.node.expandable && ltb depth max_depth) ≡ ok x.children)
          × (x.error ≡ none)
          × (x.depth ≡ depth))
        (ok-injective made) (shown, listed, refl, refl)

  pub no_child_in :
      {n : TreeNode} (x e : TreeExpansion)
      → ◌≡◌ {A = Result ReadError TreeExpansion} (ok x) (ok e)
      → x.children ≡ []
      → Member n e.children
      → ⊥
  no_child_in {n} x e same none_there m =
      elim (subst (Member n)
        (ap (λ (y : TreeExpansion). y.children) (sym (ok-injective same)) ∙ none_there) m) [ ]

  pub expand_resolved-Member :
      (name : Text) (depth : ℕ) (r : Result ReadError Obj) (e : TreeExpansion) (n : TreeNode)
      → expand_resolved d name depth r ≡ ok e
      → Member n e.children
      → (obj : Obj) × (r ≡ ok obj) × IsExpansion name depth obj e
  unfolding expand_resolved
  expand_resolved-Member name depth (ok obj) e n returned m =
      (obj, refl, expansion_of-IsExpansion name depth obj e returned)
  expand_resolved-Member name depth (raise (fault_error x)) e n returned m =
      absurd (no_child_in (failed_expansion name depth x) e returned refl m)
  expand_resolved-Member name depth (raise (lookup_error x)) e n returned m =
      absurd (no_child_in (failed_expansion name depth x) e returned refl m)
  expand_resolved-Member name depth (raise (other_error x)) e n returned m =
      absurd (ground (arith, returned))
