-- ===== src/Identity/Email.antt =====
-- crates/clave-identity/src/lib.rs: ids and e-mail addresses. The ids are newtypes of a `u64`, and
-- an address is a newtype of a string that only `parse` makes.
pub mod Laws
use clave.Prelude.{
  ℕ, Bool, not, ◌||◌, Option, none, some, List, [], ◌∷◌, Text, any, contains, is_empty,
  is_whitespace, trim, to_lower, nat_eq, ◌==◌, if◌then◌else◌,
}

abbrev pub WorkspaceId : Type 0
WorkspaceId = ℕ

abbrev pub UserId : Type 0
UserId = ℕ

abbrev pub EmailAddr : Type 0
EmailAddr = Text

abbrev before : ℕ → Option (Text × Text) → Option (Text × Text)
before c none = none
before c (some (a, b)) = some (c ∷ a, b)

-- `split_once` at a character
unfoldable pub split_once : ℕ → Text → Option (Text × Text)
split_once at [] = none
split_once at (c ∷ s) =
    let rest = before c (split_once at s) in if c == at then some ([], s) else rest

abbrev check_parts : Text → Option (Text × Text) → Option EmailAddr
check_parts s none = none
check_parts s (some (local, domain)) =
    if is_empty local || is_empty domain || contains b'@' domain || not (contains b'.' domain)
    then none
    else some s

-- `EmailAddr::parse`
unfoldable pub parse : Text → Option EmailAddr
unfolding split_once
parse raw =
    let s = to_lower (trim raw) in
    if any is_whitespace s then none else check_parts s (split_once b'@' s)

abbrev after_at : Option (Text × Text) → Text
after_at none = []
after_at (some (_, d)) = d

-- `EmailAddr::domain`
unfoldable pub email_domain : EmailAddr → Text
unfolding split_once
email_domain e = after_at (split_once b'@' e)
