-- ===== src/Base.antt =====
-- The names that the other modules share: the libraries', passed on, and those of the children.
mod Tests
mod Lists
mod Int
mod Strings
mod Number
mod Scan
mod Sort
mod Dicts
mod Results
pub use Tests.*
pub use Lists.*
pub use Int.*
pub use Strings.{Text, codes, text_eq, text_eq_iff, text_in, split_last-append}
unfoldable pub use Strings.{is_space, strip_left, strip_right, strip, split_last}
pub use Dicts.{
  NoDup, NoDup-put, get-Member, Member-get, Eq, nat_keys, text_keys, int_keys, pair_keys, Dict,
  get_or, get-put, get-pop, beq_refl,
}
unfoldable pub use Dicts.{get, put, pop}
pub use Scan.{NoDigit, strip_prefix-append, read_nat-decimal, read_int-decimal_ℤ}
unfoldable pub use Scan.{read_nat, read_int, strip_prefix}
pub use Sort.{
  Member, here, there, Member-select, Member-select_inv, Member-map, Member-map_inv, sort_by-perm,
  Member-sort_by, Member-sort_by_inv, IsSorted, sort_by-IsSorted,
}
unfoldable pub use Sort.{insert_by, sort_by}
pub use Results.*
pub use Number.{digit, is_digit, value-decimal, decimal-All, decimal-cons}
unfoldable pub use Number.{decimal, hex, decimal_ℤ, hex_pad, hex_pad_ℤ, value_from}
pub use Prim.Native.Nat.{ℕ, zero, suc, ◌+◌, ◌-◌, ◌*◌, ◌/◌, ◌%◌, ◌^◌, ◌≤◌, ◌<◌, min, max}
pub use Prim.Native.String.{String}
pub use mathlib.Core.Path.{◌≡◌, refl, sym, ap, ap₂, ◌∙◌, subst, fun_ext}
pub use mathlib.Core.Logic.{◌≢◌, ◌↔◌, ◌⊎◌, inl, inr}
pub use mathlib.Core.Bool.{Bool, true, false, ◌&&◌, ◌||◌, not}
pub use mathlib.Core.Option.{Option, none, some}
pub use mathlib.Core.List.{List, [], ◌∷◌, ◌++◌, map}
pub use native.Mathlib.Omega.{arith}
