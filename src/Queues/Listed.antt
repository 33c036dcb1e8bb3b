-- ===== src/Queues/Listed.antt =====
-- `list_devices` against `lookup_device`.
use telemetryd.Base.{
  ℕ, ◌<◌, ◌≡◌, ◌≢◌, refl, ap, sym, subst, Option, none, some, List, [], ◌∷◌, map, ltb, ◌==◌, ok,
  arith, ◌⊎◌, inl, inr, ◌↔◌, Member, here, there, Member-map, Member-map_inv, Member-sort_by,
  Member-sort_by_inv, sort_by, insert_by, Bool-cases, Option-cases,
}
use telemetryd.Names.{match_device, match_disk, device_name, match_device-device_name}
use telemetryd.Queues.Kernel.{Disk, Kernel}
use telemetryd.Queues.Service.{lookup_device, add_instance, instances, list_devices}
use telemetryd.Queues.Devices.{Serves, lookup_device-least, lookup_device-finds}

add_instance-Member :
    (i j n : ℕ) (is : List ℕ) → (i ≡ j) ⊎ Member i is → Member i (add_instance (some (j, n)) is)
unfolding add_instance
add_instance-Member i j n [] (inl e) = here e
add_instance-Member i j n [] (inr m) = elim m [ ]
add_instance-Member i j n (l ∷ is) (inl e) = elim (Bool-cases (j == l)) [
  | inl same ↦ rw same (here (ground arith))
  | inr other ↦ rw other (there (add_instance-Member i j n is (inl e)))
]
add_instance-Member i j n (l ∷ is) (inr (here e)) = elim (Bool-cases (j == l)) [
  | inl same ↦ rw same (here (ground arith))
  | inr other ↦ rw other (here e)
]
add_instance-Member i j n (l ∷ is) (inr (there m)) = elim (Bool-cases (j == l)) [
  | inl same ↦ rw same (there m)
  | inr other ↦ rw other (there (add_instance-Member i j n is (inr m)))
]

add_instance-Member_inv :
    (i j n : ℕ) (is : List ℕ) → Member i (add_instance (some (j, n)) is) → (i ≡ j) ⊎ Member i is
unfolding add_instance
add_instance-Member_inv i j n [] (here e) = inl e
add_instance-Member_inv i j n [] (there m) = inr m
add_instance-Member_inv i j n (l ∷ is) m = elim (Bool-cases (j == l)) [
  | inl same ↦ inr (rw same at m)
  | inr other ↦ step (rw other at m) (add_instance-Member_inv i j n is)
]
  where
    pass : (i ≡ j) ⊎ Member i is → (i ≡ j) ⊎ Member i (l ∷ is)
    pass (inl e) = inl e
    pass (inr k) = inr (there k)

    step :
        Member i (l ∷ add_instance (some (j, n)) is)
        → (Member i (add_instance (some (j, n)) is) → (i ≡ j) ⊎ Member i is)
        → (i ≡ j) ⊎ Member i (l ∷ is)
    step (here e) ih = inr (here e)
    step (there k) ih = pass (ih k)

-- Controller i has a disk among these.
abbrev HasDisk : ℕ → List Disk → Type 0
HasDisk i ds = (d : Disk) × (nsid : ℕ) × Member d ds × Serves d i nsid

instances-Member :
    (i : ℕ) (ds : List Disk) (is : List ℕ) → Member i is ⊎ HasDisk i ds → Member i (instances ds is)
unfolding instances
instances-Member i [] is (inl m) = m
instances-Member i [] is (inr (d, nsid, m, s)) = elim m [ ]
instances-Member i (disk ∷ ds) is (inl m) =
    instances-Member i ds _ (inl (kept (match_disk disk.name)))
  where
    kept : (found : Option (ℕ × ℕ)) → Member i (add_instance found is)
    kept none = m
    kept (some (j, n)) = add_instance-Member i j n is (inr m)
instances-Member i (disk ∷ ds) is (inr (d, nsid, here e, s)) =
    let own : match_disk disk.name ≡ some (i, nsid) = subst (λ x. Serves x i nsid) e s in
    instances-Member i ds _ (inl (rw own (add_instance-Member i i nsid is (inl refl))))
instances-Member i (disk ∷ ds) is (inr (d, nsid, there m, s)) =
    instances-Member i ds _ (inr (d, nsid, m, s))

HasDisk-cons : (i : ℕ) (disk : Disk) (ds : List Disk) → HasDisk i ds → HasDisk i (disk ∷ ds)
HasDisk-cons i disk ds (d, nsid, m, s) = (d, nsid, there m, s)

instances-Member_inv :
    (i : ℕ) (ds : List Disk) (is : List ℕ) → Member i (instances ds is) → Member i is ⊎ HasDisk i ds
unfolding instances
instances-Member_inv i [] is m = inl m
instances-Member_inv i (disk ∷ ds) is m =
    step (Option-cases (match_disk disk.name)) (instances-Member_inv i ds _ m)
  where
    step :
        (match_disk disk.name ≡ none) ⊎ ((a : ℕ × ℕ) × (match_disk disk.name ≡ some a))
        → Member i (add_instance (match_disk disk.name) is) ⊎ HasDisk i ds
        → Member i is ⊎ HasDisk i (disk ∷ ds)
    step c (inr h) = inr (HasDisk-cons i disk ds h)
    step (inl e) (inl k) = inl (subst (λ found. Member i (add_instance found is)) e k)
    step (inr ((j, n), e)) (inl k) =
        own
          (add_instance-Member_inv i j n is (subst (λ found. Member i (add_instance found is)) e k))
      where
        own : (i ≡ j) ⊎ Member i is → Member i is ⊎ HasDisk i (disk ∷ ds)
        own (inr m') = inl m'
        own (inl q) = inr (disk, n, here refl, subst (λ x. Serves disk x n) (sym q) e)

device_name-injective : (i j : ℕ) → device_name i ≡ device_name j → i ≡ j
device_name-injective i j e =
    ground (arith, match_device-device_name i, match_device-device_name j, ap match_device e)

listed-found :
    (k : Kernel) (i : ℕ)
    → Member (device_name i) (list_devices k)
    → (d : Disk) × (lookup_device k (device_name i) ≡ ok d)
unfolding list_devices
listed-found k i m =
    let (j, n, e) = Member-map_inv device_name (sort_by ltb (instances k.disks [])) m in
    let q = device_name-injective i j e in
    step (
      instances-Member_inv i k.disks [] (
        Member-sort_by_inv ltb (instances k.disks [])
          (subst (λ x. Member x (sort_by ltb (instances k.disks []))) (sym q) n)))
  where
    step : Member i [] ⊎ HasDisk i k.disks → (d : Disk) × (lookup_device k (device_name i) ≡ ok d)
    step (inl none_left) = elim none_left [ ]
    step (inr (d, nsid, m', s)) =
        lookup_device-finds k (device_name i) i nsid d (match_device-device_name i) m' s

found-listed :
    (k : Kernel) (i : ℕ) (d : Disk)
    → lookup_device k (device_name i) ≡ ok d
    → Member (device_name i) (list_devices k)
unfolding list_devices
found-listed k i d h =
    let (j, nsid, e, m, s, _) = lookup_device-least k (device_name i) d h in
    let q : j ≡ i = ground (arith, match_device-device_name i) in
    let own : Serves d i nsid = subst (λ x. Serves d x nsid) q s in
    Member-map device_name (
      Member-sort_by ltb (instances k.disks [])
        (instances-Member i k.disks [] (inr (d, nsid, m, own))))

-- A controller is listed exactly when it can be looked up by its name.
pub list_devices-iff-lookup :
    (k : Kernel) (i : ℕ)
    → Member (device_name i) (list_devices k)
      ↔ ((d : Disk) × (lookup_device k (device_name i) ≡ ok d))
list_devices-iff-lookup k i = (listed-found k i, λ (d, h). found-listed k i d h)

-- Strictly rising.
abbrev pub Ascending : List ℕ → Type 0
Ascending [] = Unit
Ascending (x ∷ []) = Unit
Ascending (x ∷ y ∷ ys) = (x < y) × Ascending (y ∷ ys)

abbrev Absent : ℕ → List ℕ → Type 0
Absent i [] = Unit
Absent i (j ∷ is) = (i ≢ j) × Absent i is

abbrev AllDistinct : List ℕ → Type 0
AllDistinct [] = Unit
AllDistinct (i ∷ is) = Absent i is × AllDistinct is

Absent-add_instance :
    (i j n : ℕ) (is : List ℕ) → i ≢ j → Absent i is → Absent i (add_instance (some (j, n)) is)
unfolding add_instance
Absent-add_instance i j n [] h a = (h, tt)
Absent-add_instance i j n (l ∷ is) h a = elim (Bool-cases (j == l)) [
  | inl same ↦ rw same a
  | inr other ↦ rw other (a.0, Absent-add_instance i j n is h a.1)
]

AllDistinct-add_instance :
    (found : Option (ℕ × ℕ)) (is : List ℕ) → AllDistinct is → AllDistinct (add_instance found is)
unfolding add_instance
AllDistinct-add_instance none is d = d
AllDistinct-add_instance (some (j, n)) [] d = (tt, tt)
AllDistinct-add_instance (some (j, n)) (l ∷ is) d = elim (Bool-cases (j == l)) [
  | inl same ↦ rw same d
  | inr other ↦ rw other (
    Absent-add_instance l j n is (λ e. ground arith) d.0,
    AllDistinct-add_instance (some (j, n)) is d.1,
  )
]

AllDistinct-instances :
    (ds : List Disk) (is : List ℕ) → AllDistinct is → AllDistinct (instances ds is)
unfolding instances
AllDistinct-instances [] is d = d
AllDistinct-instances (disk ∷ ds) is d =
    AllDistinct-instances ds _ (AllDistinct-add_instance (match_disk disk.name) is d)

Ascending-insert_by :
    (x : ℕ) (ys : List ℕ) → Absent x ys → Ascending ys → Ascending (insert_by ltb x ys)
unfolding insert_by
Ascending-insert_by x [] a s = tt
Ascending-insert_by x (y ∷ []) a s = ground arith
Ascending-insert_by x (y ∷ z ∷ ys) a s = ground (arith, Ascending-insert_by x (z ∷ ys) a.1 s.1)

Absent-insert_by : (i x : ℕ) (ys : List ℕ) → i ≢ x → Absent i ys → Absent i (insert_by ltb x ys)
unfolding insert_by
Absent-insert_by i x [] h a = (h, tt)
Absent-insert_by i x (y ∷ ys) h a = elim (Bool-cases (ltb y x)) [
  | inl below ↦ rw below (a.0, Absent-insert_by i x ys h a.1)
  | inr above ↦ rw above (h, a)
]

Absent-sort_by : (i : ℕ) (is : List ℕ) → Absent i is → Absent i (sort_by ltb is)
unfolding sort_by
Absent-sort_by i [] a = tt
Absent-sort_by i (j ∷ is) a = Absent-insert_by i j (sort_by ltb is) a.0 (Absent-sort_by i is a.1)

Ascending-sort_by : (is : List ℕ) → AllDistinct is → Ascending (sort_by ltb is)
unfolding sort_by
Ascending-sort_by [] d = tt
Ascending-sort_by (i ∷ is) d =
    Ascending-insert_by i (sort_by ltb is) (Absent-sort_by i is d.0) (Ascending-sort_by is d.1)

-- The devices are listed once each, by rising controller number, however many namespaces a
-- controller has and in whatever order the kernel gives the disks.
pub list_devices-Ascending :
    (k : Kernel) → (is : List ℕ) × (list_devices k ≡ map device_name is) × Ascending is
unfolding list_devices
list_devices-Ascending k = (
  sort_by ltb (instances k.disks []),
  refl,
  Ascending-sort_by (instances k.disks []) (AllDistinct-instances k.disks [] tt),
)
