-- ===== src/Queues/Devices.antt =====
-- Which devices `list_devices` names and `lookup_device` finds, and through which namespace.
use telemetryd.Base.{
  ℕ, ◌≤◌, ◌≡◌, refl, sym, subst, Option, none, some, List, [], ◌∷◌, ltb, ◌==◌, Text, ok, arith, ◌⊎◌,
  inl, inr, Member, here, there, Bool-cases, Option-cases, >>=-eq-ok,
}
use native.Mathlib.Nat.{le_refl}
use telemetryd.Names.{match_device, match_disk}
use telemetryd.Queues.Kernel.{Disk, Kernel}
use telemetryd.Queues.Service.{
  instance_of, better, consider, best_disk, find_any_namespace_disk, found_disk, lookup_device,
}

-- A disk of controller i with namespace number nsid.
abbrev pub Serves : Disk → ℕ → ℕ → Type 0
Serves d i nsid = match_disk d.name ≡ some (i, nsid)

-- `n` is no more than the namespace number of the best so far.
abbrev Bounds : ℕ → Option (ℕ × Disk) → Type 0
Bounds n none = Unit
Bounds n (some (m, d)) = n ≤ m

abbrev Present : Option (ℕ × Disk) → Type 0
Present best = (n : ℕ) × (d : Disk) × (best ≡ some (n, d))

-- One step of the loop: a disk of the controller is weighed, another one is passed over.
consider-Bounds :
    (i n : ℕ) (disk : Disk) (found : Option (ℕ × ℕ)) (best : Option (ℕ × Disk))
    → Bounds n (consider i disk found best)
    → Bounds n best × ((nsid : ℕ) → found ≡ some (i, nsid) → n ≤ nsid)
unfolding consider better
consider-Bounds i n disk none best h = (h, λ nsid e. cc)
consider-Bounds i n disk (some (j, m)) none h = (tt, λ nsid e. ground arith)
consider-Bounds i n disk (some (j, m)) (some (k, d)) h = ground arith

consider-source :
    (i n : ℕ) (disk d : Disk) (found : Option (ℕ × ℕ)) (best : Option (ℕ × Disk))
    → consider i disk found best ≡ some (n, d)
    → (best ≡ some (n, d)) ⊎ ((found ≡ some (i, n)) × (disk ≡ d))
unfolding consider better
consider-source i n disk d none best h = inl h
consider-source i n disk d (some (j, m)) none h = ground arith
consider-source i n disk d (some (j, m)) (some (k, d')) h = ground arith

consider-Present :
    (i : ℕ) (disk : Disk) (found : Option (ℕ × ℕ)) (best : Option (ℕ × Disk))
    → Present best ⊎ ((nsid : ℕ) × (found ≡ some (i, nsid)))
    → Present (consider i disk found best)
unfolding consider better
consider-Present i disk none best (inl p) = p
consider-Present i disk none best (inr (nsid, e)) = cc
consider-Present i disk (some (j, m)) none (inl (n, d, e)) = cc
consider-Present i disk (some (j, m)) none (inr (nsid, e)) = (m, disk, ground arith)
consider-Present i disk (some (j, m)) (some (k, d)) h = elim (Bool-cases (j == i)) [
  | inl same ↦ rw same (better-Present m disk k d)
  | inr other ↦ rw other (k, d, refl)
]
  where
    better-Present :
        (m : ℕ) (disk : Disk) (k : ℕ) (d : Disk) → Present (better m disk (some (k, d)))
    better-Present m disk k d = elim (Bool-cases (ltb m k)) [
      | inl less ↦ rw less (m, disk, refl)
      | inr more ↦ rw more (k, d, refl)
    ]

best_disk-Bounds :
    (i n : ℕ) (ds : List Disk) (best : Option (ℕ × Disk))
    → Bounds n (best_disk i ds best)
    → Bounds n best × ((d : Disk) (nsid : ℕ) → Member d ds → Serves d i nsid → n ≤ nsid)
unfolding best_disk
best_disk-Bounds i n [] best h = (h, λ d nsid m. elim m [ ])
best_disk-Bounds i n (disk ∷ ds) best h =
    let found = match_disk disk.name in
    let (later, rest) = best_disk-Bounds i n ds (consider i disk found best) h in
    let (before, own) = consider-Bounds i n disk found best later in
    (before, Bounds-cons i n disk ds own rest)
  where
    Bounds-cons :
        (i n : ℕ) (disk : Disk) (ds : List Disk)
        → ((nsid : ℕ) → Serves disk i nsid → n ≤ nsid)
        → ((d : Disk) (nsid : ℕ) → Member d ds → Serves d i nsid → n ≤ nsid)
        → (d : Disk) (nsid : ℕ) → Member d (disk ∷ ds)
        → Serves d i nsid
        → n ≤ nsid
    Bounds-cons i n disk ds own rest d nsid (here e) s = own nsid (subst (λ x. Serves x i nsid) e s)
    Bounds-cons i n disk ds own rest d nsid (there m) s = rest d nsid m s

best_disk-source :
    (i n : ℕ) (d : Disk) (ds : List Disk) (best : Option (ℕ × Disk))
    → best_disk i ds best ≡ some (n, d)
    → (best ≡ some (n, d)) ⊎ (Member d ds × Serves d i n)
unfolding best_disk
best_disk-source i n d [] best h = inl h
best_disk-source i n d (disk ∷ ds) best h =
    let found = match_disk disk.name in
    step disk ds best (best_disk-source i n d ds (consider i disk found best) h)
      (consider-source i n disk d found best)
  where
    step :
        (disk : Disk) (ds : List Disk) (best : Option (ℕ × Disk))
        → (consider i disk (match_disk disk.name) best ≡ some (n, d)) ⊎ (Member d ds × Serves d i n)
        → (consider i disk (match_disk disk.name) best ≡ some (n, d)
            → (best ≡ some (n, d)) ⊎ (Serves disk i n × (disk ≡ d)))
        → (best ≡ some (n, d)) ⊎ (Member d (disk ∷ ds) × Serves d i n)
    step disk ds best (inr (m, s)) f = inr (there m, s)
    step disk ds best (inl e) f = own disk ds best (f e)
      where
        own :
            (disk : Disk) (ds : List Disk) (best : Option (ℕ × Disk))
            → (best ≡ some (n, d)) ⊎ (Serves disk i n × (disk ≡ d))
            → (best ≡ some (n, d)) ⊎ (Member d (disk ∷ ds) × Serves d i n)
        own disk ds best (inl e) = inl e
        own disk ds best (inr (s, e)) = inr (here (sym e), subst (λ x. Serves x i n) e s)

best_disk-Present :
    (i : ℕ) (ds : List Disk) (best : Option (ℕ × Disk))
    → Present best ⊎ ((d : Disk) × (nsid : ℕ) × Member d ds × Serves d i nsid)
    → Present (best_disk i ds best)
unfolding best_disk
best_disk-Present i [] best (inl p) = p
best_disk-Present i [] best (inr (d, nsid, m, s)) = elim m [ ]
best_disk-Present i (disk ∷ ds) best (inl p) =
    best_disk-Present i ds _ (inl (consider-Present i disk (match_disk disk.name) best (inl p)))
best_disk-Present i (disk ∷ ds) best (inr (d, nsid, here e, s)) =
    let own = subst (λ x. Serves x i nsid) e s in
    best_disk-Present i ds _
      (inl (consider-Present i disk (match_disk disk.name) best (inr (nsid, own))))
best_disk-Present i (disk ∷ ds) best (inr (d, nsid, there m, s)) =
    best_disk-Present i ds _ (inr (d, nsid, m, s))

instance_of-match :
    (device : Text) (i : ℕ) → instance_of device ≡ ok i → match_device device ≡ some i
unfolding instance_of
instance_of-match device i h = elim (Option-cases (match_device device)) [
  | inl missing ↦ ground (arith, missing)
  | inr (j, e) ↦ ground (arith, e)
]

found_disk-best :
    (k : Kernel) (device : Text) (d : Disk) (i : ℕ)
    → found_disk device (find_any_namespace_disk k i) ≡ ok d
    → (nsid : ℕ) × (best_disk i k.disks none ≡ some (nsid, d))
unfolding found_disk find_any_namespace_disk
found_disk-best k device d i h = elim (Option-cases (best_disk i k.disks none)) [
  | inl missing ↦ ground (arith, missing)
  | inr ((n, d'), e) ↦ (n, ground (arith, e))
]

from_none : {n : ℕ} {d : Disk} {P : Type 0} → ◌≡◌ {A = Option (ℕ × Disk)} none (some (n, d)) ⊎ P → P
from_none (inl e) = cc
from_none (inr p) = p

-- A device that is found is one of the disks of the controller that its name says, through the
-- least namespace number that the controller has.
pub lookup_device-least :
    (k : Kernel) (device : Text) (d : Disk)
    → lookup_device k device ≡ ok d
    → (i : ℕ) × (nsid : ℕ) × (match_device device ≡ some i)
      × Member d k.disks
      × Serves d i nsid
      × ((d' : Disk) (n : ℕ) → Member d' k.disks → Serves d' i n → nsid ≤ n)
unfolding lookup_device
lookup_device-least k device d h =
    let (i, named, h') = >>=-eq-ok (instance_of device) _ h in
    let (nsid, best) = found_disk-best k device d i h' in
    let bounds =
      best_disk-Bounds i nsid k.disks none (subst (Bounds nsid) (sym best) (le_refl nsid)) in
    let (m, s) = from_none (best_disk-source i nsid d k.disks none best) in
    (i, nsid, instance_of-match device i named, m, s, bounds.1)

-- A controller that has a disk is found by every name that stands for its number.
pub lookup_device-finds :
    (k : Kernel) (device : Text) (i nsid : ℕ) (d : Disk)
    → match_device device ≡ some i
    → Member d k.disks
    → Serves d i nsid
    → (d' : Disk) × (lookup_device k device ≡ ok d')
unfolding lookup_device instance_of find_any_namespace_disk found_disk
lookup_device-finds k device i nsid d e m s =
    let (n, d', found) = best_disk-Present i k.disks none (inr (d, nsid, m, s)) in
    (d', ground (arith, e, found))
