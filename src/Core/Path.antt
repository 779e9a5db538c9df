-- ===== src/Core/Path.antt =====
-- crates/clave-core/src/path.rs: where a file operation of a work app goes.
pub mod Laws
use clave.Prelude.{
  ℕ, Bool, true, false, ◌&&◌, ◌||◌, Option, none, some, List, [], ◌∷◌, Text, list_eq, nat_eq, ◌==◌,
  is_empty, any, contains, is_alphabetic, to_lower, trim_end, strip_prefix, starts_with, replace,
  if◌then◌else◌,
}
use clave.Core.Policy.{FilePolicy}

pub data PathClass : Type 0 where
  work_data system_cow pass_through : PathClass

abbrev is_drive : Text → Bool
is_drive (a ∷ b ∷ _) = is_alphabetic a && b == b':'
is_drive _ = false

-- A backslash, or a drive letter at the start. (A first byte that is ASCII is a first code point.)
unfoldable pub is_windows_style : Text → Bool
is_windows_style s = contains b'\\' s || is_drive s

-- The closure `norm` of `under`
unfoldable pub norm : Bool → Text → Text
norm fold s = let s = trim_end b'/' (replace b'\\' b'/' s) in if fold then to_lower s else s

abbrev slash_first : Option Text → Bool
slash_first none = false
slash_first (some rest) = starts_with b'/' rest

unfoldable pub under : Text → Text → Bool
under path prefix =
    let fold = is_windows_style prefix in
    let prefix = norm fold prefix in
    if is_empty prefix
    then false
    else let path = norm fold path in path == prefix || slash_first (strip_prefix prefix path)

unfoldable pub is_under_mount : Text → Text → Bool
is_under_mount path mount_point = under path mount_point

unfoldable pub classify_path : Text → Text → List Text → FilePolicy → PathClass
classify_path path mount_point passthrough files =
    if under path mount_point
    then pass_through
    else if any (λ p. under path p) passthrough
    then pass_through
    else if any (λ p. under path p) files.work_data_roots
    then work_data
    else if any (λ p. under path p) files.cow_roots
    then system_cow
    else pass_through
