-- ===== src/Treewalk/Expand/Followed.antt =====
-- A listed child can be followed: its name leads to the object that the list shows.
use telemetryd.Base.{
  ℕ, ◌≡◌, ◌≢◌, refl, sym, ap, ◌∙◌, subst, pos, Option, none, some, List, [], ◌∷◌, range, Text,
  Member, here, there, min, Result, ok, raise, ◌>>=◌, >>=-eq-ok, ok-injective, ◌==◌, if◌then◌else◌,
  Bool-cases, inl, inr, arith,
}
use telemetryd.Treewalk.{unwrap_typedef, max_array_children, on_fault}
use telemetryd.Treewalk.Kernel.{
  Ctype, void_type, pointer_to, array_of, compound, ReadError, fault_error, lookup_error,
  other_error, Drgn,
}
use telemetryd.Treewalk.Expand.{
  length_or_zero, child_before, member_children, named_children, element_children, pointee_children,
  children_by, child_objects, follow_step,
}
use telemetryd.Treewalk.Steps.{
  index_name, target_name, between_brackets, between_brackets-index_name, parse_int-decimal,
}

module _ (d : Drgn) where
  open d use {Obj, type_of, members, to_int, member_, index}

  -- No member of the kernel's structures is called like an index.
  abbrev pub HasPlainNames : List (Option Text) → Type 0
  HasPlainNames [] = Unit
  HasPlainNames (none ∷ names) = HasPlainNames names
  HasPlainNames (some name ∷ names) = (between_brackets name ≡ none) × HasPlainNames names

  abbrev pub HasPlainMembers : Option (List (Option Text)) → Type 0
  HasPlainMembers none = Unit
  HasPlainMembers (some names) = HasPlainNames names

  follow_step-index_name :
      (obj : Obj) (i : ℕ) → follow_step d obj (index_name i) ≡ index obj (pos i)
  unfolding follow_step
  follow_step-index_name obj i =
      rw (between_brackets-index_name i, follow_step, parse_int-decimal i) refl

  follow_step-member :
      (obj : Obj) (name : Text)
      → between_brackets name ≡ none
      → follow_step d obj name ≡ member_ obj name
  unfolding follow_step
  follow_step-member obj name h = rw (h, follow_step) refl

  -- Children that are all followed by their names, one name aside.
  abbrev pub Follows : Obj → List (Text × Obj) → Type 0
  Follows obj cs =
      (name : Text) (child : Obj)
      → Member (name, child) cs
      → name ≢ target_name
      → follow_step d obj name ≡ ok child

  Follows-cons :
      (obj : Obj) (name : Text) (child : Obj) (more : List (Text × Obj))
      → follow_step d obj name ≡ ok child
      → Follows obj more
      → Follows obj ((name, child) ∷ more)
  Follows-cons obj name child more step ih n c (here e) other =
      ap (λ (x : Text × Obj). follow_step d obj x.0) e
      ∙ step
      ∙ ap (λ (x : Text × Obj). ok x.1) (sym e)
  Follows-cons obj name child more step ih n c (there m) other = ih n c m other

  child_before-Follows :
      (obj : Obj) (name : Text) (r : Result ReadError Obj)
      (rest : Result ReadError (List (Text × Obj))) (cs : List (Text × Obj))
      → follow_step d obj name ≡ r
      → ((more : List (Text × Obj)) → rest ≡ ok more → Follows obj more)
      → child_before d name r rest ≡ ok cs
      → Follows obj cs
  child_before-Follows obj name (ok child) rest cs step ih listed =
      let (more, e, front) = >>=-eq-ok rest (λ children. ok ((name, child) ∷ children)) listed in
      subst (Follows obj) (ok-injective front) (Follows-cons obj name child more step (ih more e))
  child_before-Follows obj name (raise (fault_error e)) rest cs step ih listed = ih cs listed
  child_before-Follows obj name (raise (lookup_error e)) rest cs step ih listed = ih cs listed
  child_before-Follows obj name (raise (other_error e)) rest cs step ih listed =
      absurd (ground (arith, listed))

  Follows-nil :
      (obj : Obj) (cs : List (Text × Obj))
      → ◌≡◌ {A = Result ReadError (List (Text × Obj))} (ok []) (ok cs)
      → Follows obj cs
  Follows-nil obj cs e = subst (Follows obj) (ok-injective e) (λ n c m other. elim m [ ])

  member_children-Follows :
      (obj : Obj) (names : List (Option Text)) (cs : List (Text × Obj))
      → HasPlainNames names
      → member_children d obj names ≡ ok cs
      → Follows obj cs
  unfolding member_children
  member_children-Follows obj [] cs named listed = Follows-nil obj cs listed
  member_children-Follows obj (none ∷ names) cs named listed =
      member_children-Follows obj names cs named listed
  member_children-Follows obj (some name ∷ names) cs named listed =
      child_before-Follows obj name (member_ obj name) (member_children d obj names) cs
        (follow_step-member obj name named.0)
        (λ more e. member_children-Follows obj names more named.1 e) listed

  element_children-Follows :
      (obj : Obj) (is : List ℕ) (cs : List (Text × Obj))
      → element_children d obj is ≡ ok cs
      → Follows obj cs
  unfolding element_children
  element_children-Follows obj [] cs listed = Follows-nil obj cs listed
  element_children-Follows obj (i ∷ is) cs listed =
      child_before-Follows obj (index_name i) (index obj (pos i)) (element_children d obj is) cs
        (follow_step-index_name obj i) (λ more e. element_children-Follows obj is more e) listed

  target-Follows :
      (obj : Obj) (r : Result ReadError Obj) (cs : List (Text × Obj))
      → on_fault (λ e. ok []) (r >>= (λ target. ok ((target_name, target) ∷ []))) ≡ ok cs
      → Follows obj cs
  target-Follows obj (ok target) cs listed =
      subst (Follows obj) (ok-injective listed) λ n c m other. elim m [
        | here e ↦ absurd (other (ap (λ (x : Text × Obj). x.0) e))
        | there more ↦ elim more [ ]
      ]
  target-Follows obj (raise (fault_error e)) cs listed = Follows-nil obj cs listed
  target-Follows obj (raise (lookup_error e)) cs listed = absurd (ground (arith, listed))
  target-Follows obj (raise (other_error e)) cs listed = absurd (ground (arith, listed))

  named_children-Follows :
      (obj : Obj) (o : Option (List (Option Text))) (cs : List (Text × Obj))
      → HasPlainMembers o
      → named_children d obj o ≡ ok cs
      → Follows obj cs
  unfolding named_children
  named_children-Follows obj none cs named listed = absurd (ground (arith, listed))
  named_children-Follows obj (some names) cs named listed =
      member_children-Follows obj names cs named listed

  module _ (named : (id : ℕ) → HasPlainMembers (members id)) where
    pointee_children-Follows :
        (obj : Obj) (t : Ctype) (cs : List (Text × Obj))
        → pointee_children d obj t ≡ ok cs
        → Follows obj cs
    unfolding pointee_children
    pointee_children-Follows obj (compound k tag id) cs listed =
        named_children-Follows obj (members id) cs (named id) listed
    pointee_children-Follows obj void_type cs listed = Follows-nil obj cs listed
    pointee_children-Follows obj _ cs listed = target-Follows obj (index obj (pos 0)) cs listed

    children_by-Follows :
        (obj : Obj) (t : Ctype) (cs : List (Text × Obj))
        → children_by d obj t ≡ ok cs
        → Follows obj cs
    unfolding children_by
    children_by-Follows obj (pointer_to t) cs listed =
        let (addr, e, branch) =
          >>=-eq-ok (to_int obj)
            (λ addr. if addr == 0 then ok [] else pointee_children d obj (unwrap_typedef t))
            listed in
        elim (Bool-cases (addr == 0)) [
          | inl null ↦ Follows-nil obj cs (rw null at branch)
          | inr some_where ↦
              pointee_children-Follows obj (unwrap_typedef t) cs (rw some_where at branch)
        ]
    children_by-Follows obj (compound k tag id) cs listed =
        named_children-Follows obj (members id) cs (named id) listed
    children_by-Follows obj (array_of n t) cs listed =
        element_children-Follows obj (range (min (length_or_zero n) max_array_children)) cs listed
    children_by-Follows obj _ cs listed = Follows-nil obj cs listed

    -- Every child but a pointer's scalar target is reached by its name.
    pub child_objects-Follows :
        (obj : Obj) (cs : List (Text × Obj)) → child_objects d obj ≡ ok cs → Follows obj cs
    unfolding child_objects
    child_objects-Follows obj cs listed =
        children_by-Follows obj (unwrap_typedef (type_of obj)) cs listed
