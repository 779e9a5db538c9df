-- ===== src/Core/Zone/Pids.antt =====
-- The pids that the registry reports are in strictly ascending order, and are those of its members.
use clave.Prelude.{ℕ, ◌≡◌, ◌↔◌, ◌<◌, ◌≤◌, ◌⊎◌, List, [], ◌∷◌, map, arith, Any}
use clave.Platform.Types.{pid}
use clave.Core.Zone.{ZoneRegistry, insert_sorted, sort, dedup_after, dedup, supervised_pids}

-- `x` occurs in the list.
abbrev pub Occurs : ℕ → List ℕ → Type 0
Occurs x ys = Any (λ y. y ≡ x) ys

-- Ascending, with a lower bound.
abbrev Ascends : ℕ → List ℕ → Type 0
Ascends lo [] = Unit
Ascends lo (x ∷ xs) = (lo ≤ x) × Ascends x xs

-- Strictly ascending, above a lower bound.
abbrev pub AscendsAbove : ℕ → List ℕ → Type 0
AscendsAbove lo [] = Unit
AscendsAbove lo (x ∷ xs) = (lo < x) × AscendsAbove x xs

abbrev pub IsStrictlySorted : List ℕ → Type 0
IsStrictlySorted [] = Unit
IsStrictlySorted (x ∷ xs) = AscendsAbove x xs

insert_sorted-Ascends :
    (lo x : ℕ) (xs : List ℕ) → lo ≤ x → Ascends lo xs → Ascends lo (insert_sorted x xs)
unfolding insert_sorted
insert_sorted-Ascends lo x [] h s = (h, tt)
insert_sorted-Ascends lo x (y ∷ ys) h s = ground (arith, insert_sorted-Ascends y x ys)

sort-Ascends : (xs : List ℕ) → Ascends 0 (sort xs)
unfolding sort
sort-Ascends [] = tt
sort-Ascends (x ∷ xs) = insert_sorted-Ascends 0 x (sort xs) (omega arith) (sort-Ascends xs)

dedup_after-AscendsAbove : (x : ℕ) (xs : List ℕ) → Ascends x xs → AscendsAbove x (dedup_after x xs)
unfolding dedup_after
dedup_after-AscendsAbove x [] s = tt
dedup_after-AscendsAbove x (y ∷ ys) s =
    ground (arith, dedup_after-AscendsAbove x ys, dedup_after-AscendsAbove y ys)

Occurs-insert_sorted :
    (a x : ℕ) (xs : List ℕ) → Occurs a (insert_sorted x xs) ↔ ((x ≡ a) ⊎ Occurs a xs)
unfolding insert_sorted
Occurs-insert_sorted a x [] = ground arith
Occurs-insert_sorted a x (y ∷ ys) = ground (arith, Occurs-insert_sorted a x ys)

Occurs-sort : (a : ℕ) (xs : List ℕ) → Occurs a (sort xs) ↔ Occurs a xs
unfolding sort
Occurs-sort a [] = ground arith
Occurs-sort a (x ∷ xs) = ground (arith, Occurs-sort a xs, Occurs-insert_sorted a x (sort xs))

Occurs-dedup_after :
    (a x : ℕ) (xs : List ℕ) → ((x ≡ a) ⊎ Occurs a (dedup_after x xs)) ↔ ((x ≡ a) ⊎ Occurs a xs)
unfolding dedup_after
Occurs-dedup_after a x [] = ground arith
Occurs-dedup_after a x (y ∷ ys) =
    ground (arith, Occurs-dedup_after a x ys, Occurs-dedup_after a y ys)

dedup_lem :
    (xs : List ℕ)
    → Ascends 0 xs
    → IsStrictlySorted (dedup xs) × ((a : ℕ) → Occurs a (dedup xs) ↔ Occurs a xs)
unfolding dedup
dedup_lem [] s = (tt, λ a. ground arith)
dedup_lem (x ∷ xs) s = (dedup_after-AscendsAbove x xs s.1, λ a. Occurs-dedup_after a x xs)

-- The reported pids ascend strictly, so none is repeated, and a pid is reported exactly when it is
-- the pid of some member.
pub supervised_pids_lem :
    (z : ZoneRegistry)
    → IsStrictlySorted (supervised_pids z)
      × ((a : ℕ) → Occurs a (supervised_pids z) ↔ Occurs a (map (λ e. pid e.0) z.members))
unfolding supervised_pids
supervised_pids_lem z =
    let pids = map (λ e. pid e.0) z.members in
    let (sorted, same) = dedup_lem (sort pids) (sort-Ascends pids) in
    (sorted, λ a. ground (arith, same a, Occurs-sort a pids))
