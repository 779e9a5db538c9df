-- ===== src/Prelude/Maps.antt =====
-- A `HashMap` as an association list with at most one entry for a key. The programs read a map by
-- key, by its size and by its set of keys alone, so the order of the entries is not observed.
use mathlib.Core.Path.{◌≡◌, refl}
use mathlib.Core.Bool.{Bool}
use mathlib.Core.Option.{Option, none, some}
use mathlib.Core.List.{List, [], ◌∷◌}
use native.Mathlib.Omega.{arith}
use clave.Prelude.Tests.{PartialEq, ◌==◌, if◌then◌else◌, is_some}

abbrev pub Map : Type 0 → Type 0 → Type 0
Map K V = List (K × V)

module _ {K V : Type 0} ⦃e : PartialEq K⦄ where
  -- `HashMap::get`
  unfoldable pub lookup : K → Map K V → Option V
  lookup key [] = none
  lookup key (entry ∷ rest) = if entry.0 == key then some entry.1 else lookup key rest

  -- `HashMap::insert`, over the old entry of the key if it has one
  unfoldable pub insert : K → V → Map K V → Map K V
  insert key new [] = (key, new) ∷ []
  insert key new (entry ∷ rest) =
      let later = entry ∷ insert key new rest in if entry.0 == key then (key, new) ∷ rest else later

  -- `HashMap::remove`
  unfoldable pub remove : K → Map K V → Map K V
  remove key [] = []
  remove key (entry ∷ rest) =
      let kept = remove key rest in if entry.0 == key then kept else entry ∷ kept

  -- `HashMap::contains_key`
  abbrev pub contains_key : K → Map K V → Bool
  contains_key k m = is_some (lookup k m)

  pub lookup-insert :
      (key other : K) (new : V) (m : Map K V)
      → lookup other (insert key new m) ≡ (if key == other then some new else lookup other m)
  unfolding lookup insert
  lookup-insert key other new [] = ground arith
  lookup-insert key other new (entry ∷ rest) = ground (
    arith,
    lookup-insert key other new rest,
    e.eq_iff entry.0 other,
    e.eq_iff entry.0 key,
    e.eq_iff key other,
  )

  pub lookup-remove :
      (key other : K) (m : Map K V)
      → lookup other (remove key m) ≡ (if key == other then none else lookup other m)
  unfolding lookup remove
  lookup-remove key other [] = ground arith
  lookup-remove key other (entry ∷ rest) = ground (
    arith,
    lookup-remove key other rest,
    e.eq_iff entry.0 other,
    e.eq_iff entry.0 key,
    e.eq_iff key other,
  )

  pub lookup-nil : (k : K) → lookup k [] ≡ none
  unfolding lookup
  lookup-nil k = refl

  -- No key has two entries.
  abbrev pub HasUniqueKeys : Map K V → Type 0
  HasUniqueKeys [] = Unit
  HasUniqueKeys ((k, v) ∷ m) = (lookup k m ≡ none) × HasUniqueKeys m

  pub insert-HasUniqueKeys :
      (k : K) (v : V) (m : Map K V) → HasUniqueKeys m → HasUniqueKeys (insert k v m)
  unfolding insert
  insert-HasUniqueKeys k v [] h = (lookup-nil k, tt)
  insert-HasUniqueKeys k v ((j, w) ∷ m) h =
      ground
        (arith, insert-HasUniqueKeys k v m h.1, lookup-insert k j v m, e.eq_iff j k, e.eq_iff k j)

  pub remove-HasUniqueKeys : (k : K) (m : Map K V) → HasUniqueKeys m → HasUniqueKeys (remove k m)
  unfolding remove
  remove-HasUniqueKeys k [] h = tt
  remove-HasUniqueKeys k ((j, w) ∷ m) h =
      ground (arith, remove-HasUniqueKeys k m h.1, lookup-remove k j m)
