-- ===== src/Names.antt =====
-- Device and disk names: the patterns `^nvme(\d+)$` (queues/service.py `_instance_of`,
-- ebpf_error_events.py `read_error_stats`, ebpf_perf.py `device_instance_from_name`) and
-- `^nvme(\d+)n(\d+)$` (queues/decode.py `_DISK_RE`), and f"nvme{i}".
use telemetryd.Base.{
  ℕ, ◌≡◌, refl, ap, subst, ◌∙◌, Option, none, some, [], ◌∷◌, ◌++◌, Text, codes, decimal, read_nat,
  strip_prefix, strip_prefix-append, read_nat-decimal, if◌then◌else◌, ◌==◌, Bool, true, false,
}

abbrev pub nvme : Text
nvme = codes "nvme"

unfoldable pub device_name : ℕ → Text
device_name i = nvme ++ decimal i

-- `$` also matches in front of a final newline.
abbrev pub at_end : Text → Bool
at_end [] = true
at_end (c ∷ []) = c == 10
at_end (c ∷ c' ∷ cs) = false

ended : Option (ℕ × Text) → Option ℕ
ended none = none
ended (some (n, rest)) = if at_end rest then some n else none

after_nvme : Option Text → Option ℕ
unfolding ended
after_nvme none = none
after_nvme (some cs) = ended (read_nat cs)

unfoldable pub match_device : Text → Option ℕ
unfolding after_nvme strip_prefix read_nat
match_device t = after_nvme (strip_prefix nvme t)

append_nil : (t : Text) → t ++ [] ≡ t
append_nil [] = refl
append_nil (c ∷ t) = ap (◌∷◌ c) (append_nil t)

read_nat-decimal_end : (n : ℕ) → read_nat (decimal n) ≡ some (n, [])
read_nat-decimal_end n =
    let h = read_nat-decimal n [] tt in
    subst (λ t. read_nat t ≡ some (n, [])) (append_nil (decimal n)) h

-- The name that the program prints for a controller is read back as its number.
pub match_device-device_name : (i : ℕ) → match_device (device_name i) ≡ some i
unfolding device_name match_device
match_device-device_name i =
    ap after_nvme (strip_prefix-append nvme (decimal i)) ∙ ap ended (read_nat-decimal_end i)

-- The number after `n`, and the controller's in front of it.
with_namespace : ℕ → Option ℕ → Option (ℕ × ℕ)
with_namespace instance_number none = none
with_namespace instance_number (some nsid) = some (instance_number, nsid)

after_instance : Option (ℕ × Text) → Option (ℕ × ℕ)
unfolding ended with_namespace
after_instance none = none
after_instance (some (i, [])) = none
after_instance (some (i, c ∷ cs)) =
    if c == b'n' then with_namespace i (ended (read_nat cs)) else none

disk_after_nvme : Option Text → Option (ℕ × ℕ)
unfolding after_instance
disk_after_nvme none = none
disk_after_nvme (some cs) = after_instance (read_nat cs)

unfoldable pub match_disk : Text → Option (ℕ × ℕ)
unfolding disk_after_nvme strip_prefix read_nat
match_disk t = disk_after_nvme (strip_prefix nvme t)

unfoldable pub disk_name : ℕ → ℕ → Text
disk_name i nsid = nvme ++ (decimal i ++ (b'n' ∷ decimal nsid))

-- The name of a namespace's disk is read as its controller's and its namespace's number.
pub match_disk-disk_name : (i nsid : ℕ) → match_disk (disk_name i nsid) ≡ some (i, nsid)
unfolding disk_name match_disk
match_disk-disk_name i nsid =
    ap disk_after_nvme (strip_prefix-append nvme (decimal i ++ (b'n' ∷ decimal nsid)))
    ∙ ap after_instance (read_nat-decimal i (b'n' ∷ decimal nsid) refl)
    ∙ ap (λ r. with_namespace i (ended r)) (read_nat-decimal_end nsid)
