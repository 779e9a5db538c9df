-- ===== src/Core/Zone.antt =====
-- crates/clave-core/src/zone.rs: the registry of the processes in the work zone. The lock around the
-- map serialises its operations, so each one is a function on the map.
pub mod Laws
pub mod Pids
use clave.Prelude.{
  ℕ, ◌≡◌, Bool, if◌then◌else◌, ltb, Option, List, [], ◌∷◌, map, ◌==◌, nat_eq, length, Map, lookup,
  insert, remove, contains_key,
}
use clave.Platform.Types.{ProcId, proc_eq, pid}

pub data JoinReason : Type 0 where
  launcher : JoinReason
  child : ProcId → JoinReason
  allow_list : JoinReason

pub record ZoneMember : Type 0 where
  pub id : ProcId
  pub reason : JoinReason

pub record ZoneRegistry : Type 0 where
  pub members : Map ProcId ZoneMember

-- `ZoneRegistry::new`
abbrev pub new : ZoneRegistry
new = record { members = [] }

unfoldable pub join : ProcId → JoinReason → ZoneRegistry → ZoneRegistry
join id reason z = record { members = insert id (record { id = id; reason = reason }) z.members }

unfoldable pub leave : ProcId → ZoneRegistry → ZoneRegistry
leave id z = record { members = remove id z.members }

unfoldable pub is_supervised : ProcId → ZoneRegistry → Bool
is_supervised id z = contains_key id z.members

unfoldable pub member : ProcId → ZoneRegistry → Option ZoneMember
member id z = lookup id z.members

-- `sort_unstable` on numbers
insert_sorted : ℕ → List ℕ → List ℕ
insert_sorted x [] = x ∷ []
insert_sorted x (y ∷ ys) = if ltb y x then y ∷ insert_sorted x ys else x ∷ y ∷ ys

sort : List ℕ → List ℕ
sort [] = []
sort (x ∷ xs) = insert_sorted x (sort xs)

-- `Vec::dedup`: drops an element that equals the one kept before it.
dedup_after : ℕ → List ℕ → List ℕ
dedup_after x [] = []
dedup_after x (y ∷ ys) =
    let same = dedup_after x ys in
    let other = y ∷ dedup_after y ys in if x == y then same else other

dedup : List ℕ → List ℕ
dedup [] = []
dedup (x ∷ xs) = x ∷ dedup_after x xs

unfoldable pub supervised_pids : ZoneRegistry → List ℕ
unfolding insert_sorted sort dedup_after dedup pid
supervised_pids z = dedup (sort (map (λ e. pid e.0) z.members))

-- `len` and `supervised_count`
unfoldable pub len : ZoneRegistry → ℕ
len z = length z.members

-- The loop of `reset_from`
unfoldable pub join_all : List (ProcId × JoinReason) → ZoneRegistry → ZoneRegistry
join_all [] z = z
join_all ((id, reason) ∷ rest) z = join_all rest (join id reason z)

unfoldable pub reset_from : List (ProcId × JoinReason) → ZoneRegistry → ZoneRegistry
unfolding join_all
reset_from entries z = join_all entries (record { members = [] })
