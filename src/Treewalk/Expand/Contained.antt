-- ===== src/Treewalk/Expand/Contained.antt =====
-- What an expansion raises, how deep it goes and how much of an array it shows.
use telemetryd.Base.{
  ℕ, ◌+◌, ◌≤◌, ◌≡◌, ◌≢◌, refl, sym, ap, subst, pos, min, Bool, true, false, ◌&&◌, Option, none,
  List, [], ◌∷◌, length, range, length-range_from, Text, Result, ok, raise, ◌>>=◌, >>=-eq-ok,
  ok-injective, ltb, Bool-cases, inl, inr, arith,
}
use telemetryd.Models.Tree.{TreeNode, TreeExpansion}
use telemetryd.Treewalk.{max_depth, max_array_children, unwrap_typedef, on_fault, short_type_name}
use telemetryd.Treewalk.Kernel.{
  Ctype, array_of, ReadError, fault_error, lookup_error, other_error, Drgn,
}
use telemetryd.Treewalk.Describe.{Shown, describe, node_of, failed, show_object}
use telemetryd.Treewalk.Steps.{last_name, index_name}
use telemetryd.Treewalk.Expand.{
  child_before, element_children, length_or_zero, children_by, child_objects, describe_all,
  children_of, expansion_of, expand_resolved, resolve_path, expand, too_deep_expansion,
}
use telemetryd.Treewalk.Expand.Opened.{expansion_of-IsExpansion}

-- The call raises no FaultError.
abbrev pub NoFault {ℓ} : {A : Type ℓ} → Result ReadError A → Type ℓ
NoFault r = (e : Text) → r ≢ raise (fault_error e)

NoFault-ok {ℓ} : {A : Type ℓ} (x : A) → NoFault {A = A} (ok x)
NoFault-ok x e h = cc

NoFault-on_fault {ℓ} :
    {A : Type ℓ} (x : Text → A) (r : Result ReadError A) → NoFault (on_fault (λ e. ok (x e)) r)
NoFault-on_fault x (ok y) e h = cc
NoFault-on_fault x (raise (fault_error y)) e h = cc
NoFault-on_fault x (raise (lookup_error y)) e h = cc
NoFault-on_fault x (raise (other_error y)) e h = cc

NoFault-bind {ℓ κ} :
    {A : Type ℓ} {B : Type κ} (r : Result ReadError A) (next : A → Result ReadError B)
    → NoFault r
    → ((x : A) → NoFault (next x))
    → NoFault (r >>= next)
NoFault-bind (ok x) next first later e h = later x e h
NoFault-bind (raise y) next first later e h = absurd (first e (ground (arith, h)))

module _ (d : Drgn) where
  open d use {Obj, type_of, show_type, index}

  NoFault-describe : (name : Text) (obj : Obj) → NoFault (describe d name obj)
  unfolding describe
  NoFault-describe name obj =
      let type_name = short_type_name show_type (type_of obj) in
      NoFault-bind
        (on_fault (λ e. ok (failed e)) (show_object d obj type_name (unwrap_typedef (type_of obj))))
        (λ (s : Shown). ok (node_of name type_name s))
        (NoFault-on_fault failed (show_object d obj type_name (unwrap_typedef (type_of obj))))
        (λ s. NoFault-ok (node_of name type_name s))

  NoFault-children_of : (obj : Obj) (shown : Bool) → NoFault (children_of d obj shown)
  unfolding children_of
  NoFault-children_of obj true = NoFault-on_fault (λ e. []) (child_objects d obj >>= describe_all d)
  NoFault-children_of obj false = NoFault-ok []

  NoFault-expansion_of :
      (name : Text) (depth : ℕ) (obj : Obj) → NoFault (expansion_of d name depth obj)
  unfolding expansion_of
  NoFault-expansion_of name depth obj =
      NoFault-bind (describe d name obj)
        (λ (node : TreeNode).
          children_of d obj (node.expandable && ltb depth max_depth)
          >>= (λ (children : List TreeNode). ok (answer node children)))
        (NoFault-describe name obj)
        (λ node.
          NoFault-bind (children_of d obj (node.expandable && ltb depth max_depth))
            (λ (children : List TreeNode). ok (answer node children))
            (NoFault-children_of obj (node.expandable && ltb depth max_depth))
            (λ children. NoFault-ok (answer node children)))
    where
      answer : TreeNode → List TreeNode → TreeExpansion
      answer node children = record {
        node = node;
        children = children;
        depth = depth;
        error = none;
      }

  NoFault-expand_resolved :
      (name : Text) (depth : ℕ) (r : Result ReadError Obj)
      → NoFault (expand_resolved d name depth r)
  unfolding expand_resolved
  NoFault-expand_resolved name depth (ok obj) e h = NoFault-expansion_of name depth obj e h
  NoFault-expand_resolved name depth (raise (fault_error x)) e h = cc
  NoFault-expand_resolved name depth (raise (lookup_error x)) e h = cc
  NoFault-expand_resolved name depth (raise (other_error x)) e h = cc

  -- How deep an answer is, and that it shows nothing below the greatest depth.
  abbrev pub IsBounded : ℕ → TreeExpansion → Type 0
  IsBounded depth x = (x.depth ≡ depth) × (max_depth ≤ depth → x.children ≡ [])

  children_of-none :
      (obj : Obj) (shown : Bool) (nodes : List TreeNode)
      → shown ≡ false
      → children_of d obj shown ≡ ok nodes
      → nodes ≡ []
  unfolding children_of
  children_of-none obj true nodes h e = absurd (ground (arith, h))
  children_of-none obj false nodes h e = sym (ok-injective e)

  IsBounded-expand_resolved :
      (name : Text) (depth : ℕ) (r : Result ReadError Obj) (x : TreeExpansion)
      → expand_resolved d name depth r ≡ ok x
      → IsBounded depth x
  unfolding expand_resolved
  IsBounded-expand_resolved name depth (ok obj) x returned =
      let (node, listed, clean, deep) = expansion_of-IsExpansion d name depth obj x returned in
      (
        deep,
        λ below.
            children_of-none obj (x.node.expandable && ltb depth max_depth) x.children
              (ground arith) listed,
      )
  IsBounded-expand_resolved name depth (raise (fault_error e)) x returned =
      subst (IsBounded depth) (ok-injective returned) (refl, λ below. refl)
  IsBounded-expand_resolved name depth (raise (lookup_error e)) x returned =
      subst (IsBounded depth) (ok-injective returned) (refl, λ below. refl)
  IsBounded-expand_resolved name depth (raise (other_error e)) x returned =
      absurd (ground (arith, returned))

  -- Whatever the path, and wherever the kernel's memory cannot be read: no FaultError leaves an
  -- expansion, an answer says how long the path was, and it shows no children at the greatest depth
  -- or below.
  pub expand-IsBounded :
      (root : Obj) (root_name : Text) (path : List Text)
      → NoFault (expand d root root_name path)
        × ((x : TreeExpansion) → expand d root root_name path ≡ ok x → IsBounded (length path) x)
  unfolding expand
  expand-IsBounded root root_name path =
      let name = last_name root_name path in
      let depth = length path in
      let r = resolve_path d root path in
      elim (Bool-cases (ltb max_depth depth)) [
        | inl deep ↦ rw deep (
          NoFault-ok (too_deep_expansion name depth),
          λ x returned. subst (IsBounded depth) (ok-injective returned) (refl, λ below. refl),
        )
        | inr fits ↦
            rw fits (NoFault-expand_resolved name depth r, IsBounded-expand_resolved name depth r)
      ]

  length-child_before :
      (name : Text) (r : Result ReadError Obj) (rest : Result ReadError (List (Text × Obj)))
      (cs : List (Text × Obj)) (n : ℕ)
      → ((more : List (Text × Obj)) → rest ≡ ok more → length more ≤ n)
      → child_before d name r rest ≡ ok cs
      → length cs ≤ n + 1
  length-child_before name (ok child) rest cs n ih listed =
      let (more, e, made) = >>=-eq-ok rest (λ children. ok ((name, child) ∷ children)) listed in
      omega (arith, ih more e, ap length (ok-injective made))
  length-child_before name (raise (fault_error e)) rest cs n ih listed = omega (arith, ih cs listed)
  length-child_before name (raise (lookup_error e)) rest cs n ih listed =
      omega (arith, ih cs listed)
  length-child_before name (raise (other_error e)) rest cs n ih listed =
      absurd (ground (arith, listed))

  length-element_children :
      (obj : Obj) (is : List ℕ) (cs : List (Text × Obj))
      → element_children d obj is ≡ ok cs
      → length cs ≤ length is
  unfolding element_children
  length-element_children obj [] cs listed = omega (arith, ap length (ok-injective listed))
  length-element_children obj (i ∷ is) cs listed = omega (
    arith,
    length-child_before (index_name i) (index obj (pos i)) (element_children d obj is) cs
        (length is) (λ more e. length-element_children obj is more e) listed,
  )

  -- However long an array is, at most 64 of its elements are listed.
  pub length-child_objects-le :
      (obj : Obj) (n : Option ℕ) (t : Ctype) (cs : List (Text × Obj))
      → unwrap_typedef (type_of obj) ≡ array_of n t
      → child_objects d obj ≡ ok cs
      → length cs ≤ max_array_children
  unfolding child_objects children_by
  length-child_objects-le obj n t cs is_array listed =
      let shown = min (length_or_zero n) max_array_children in
      let elements : element_children d obj (range shown) ≡ ok cs = rw is_array at listed in
      omega
        (arith, length-element_children obj (range shown) cs elements, length-range_from 0 shown)
