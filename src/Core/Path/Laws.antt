-- ===== src/Core/Path/Laws.antt =====
-- The prefix test respects components, and a path is sent to exactly one place.
use clave.Prelude.{
  ◌≡◌, ◌≢◌, ap, ◌∙◌, ◌↔◌, ◌⊎◌, inl, inr, true, false, Option, some, none, List, [], ◌∷◌, ◌++◌,
  arith, Text, codes, Any, any, is_empty, list_eq, nat_eq, list_beq_iff, strip_prefix,
  strip_prefix_iff, ◌==◌, Bool-cases, if◌then◌else◌, ◌||◌,
}
use mathlib.Core.List.{append_assoc}
use clave.Core.Policy.{FilePolicy}
use clave.Core.Path.{
  work_data, system_cow, pass_through, is_windows_style, norm, slash_first, under, classify_path,
}

-- `p` is the directory `d`, or lies below it; the empty directory has nothing below it.
abbrev pub IsBelow : Text → Text → Type 0
IsBelow p d = (d ≢ []) × ((p ≡ d) ⊎ ((rest : Text) × (p ≡ d ++ (codes "/" ++ rest))))

slash_first_iff :
    (o : Option Text) → (slash_first o ≡ true) ↔ ((rest : Text) × (o ≡ some (codes "/" ++ rest)))
slash_first_iff none = ground arith
slash_first_iff (some []) = ground arith
slash_first_iff (some (c ∷ rest)) = (λ h. (rest, ground arith), λ h. ground arith)

IsBelow-iff :
    (p d : Text)
    → ((if is_empty d then false else p == d || slash_first (strip_prefix d p)) ≡ true)
      ↔ IsBelow p d
IsBelow-iff p [] = ground arith
IsBelow-iff p (c ∷ d) = (
  λ h. (
    ground arith,
    elim (Bool-cases (p == c ∷ d)) [
      | inl same ↦ inl ((list_beq_iff p (c ∷ d)).0 same)
      | inr other ↦
          let (rest, e) = (slash_first_iff (strip_prefix (c ∷ d) p)).0 (ground arith) in
          inr (rest, (strip_prefix_iff (c ∷ d) p (codes "/" ++ rest)).0 e)
    ],
  ),
  λ h. elim h.1 [
    | inl same ↦ ground (arith, list_beq_iff p (c ∷ d))
    | inr (rest, e) ↦
        let found = (strip_prefix_iff (c ∷ d) p (codes "/" ++ rest)).1 e in
        ground (arith, (slash_first_iff (strip_prefix (c ∷ d) p)).1 (rest, found))
  ],
)

-- A path is under a prefix exactly when, separators and trailing slashes aside and case aside for a
-- Windows prefix, it is that directory or continues it after a slash.
pub under_iff :
    (path prefix : Text)
    → (under path prefix ≡ true)
      ↔ IsBelow (norm (is_windows_style prefix) path) (norm (is_windows_style prefix) prefix)
unfolding under
under_iff path prefix =
    IsBelow-iff (norm (is_windows_style prefix) path) (norm (is_windows_style prefix) prefix)

IsBelow-trans : (a b c : Text) → IsBelow a b → IsBelow b c → IsBelow a c
IsBelow-trans a b c (_, inl e) k = rw e k
IsBelow-trans a b c (_, inr (r, e)) (n, inl f) = (n, inr (r, e ∙ ap (λ t. t ++ (codes "/" ++ r)) f))
IsBelow-trans a b c (_, inr (r, e)) (n, inr (q, f)) =
    (n, inr (q ++ (codes "/" ++ r), e ∙ ap (λ t. t ++ (codes "/" ++ r)) f ∙ append_assoc c _ _))

-- Being under is transitive between prefixes of one style: what is under a directory that is under
-- the mount is under the mount.
pub under_trans :
    (a b c : Text)
    → is_windows_style b ≡ is_windows_style c
    → under a b ≡ true
    → under b c ≡ true
    → under a c ≡ true
under_trans a b c same h k = (under_iff a c).1 (
    IsBelow-trans _ (norm (is_windows_style c) b) _ (rw same at ((under_iff a b).0 h))
      ((under_iff b c).0 k))

-- The path is the directory `prefix` or lies below it, whole components compared: separators and
-- trailing slashes aside, and case aside for a Windows prefix.
abbrev pub IsUnder : Text → Text → Type 0
IsUnder path prefix =
    IsBelow (norm (is_windows_style prefix) path) (norm (is_windows_style prefix) prefix)

any-under_iff :
    (path : Text) (prefixes : List Text)
    → (any (λ p. under path p) prefixes ≡ true) ↔ Any (IsUnder path) prefixes
any-under_iff path [] = ground arith
any-under_iff path (p ∷ prefixes) = ground (arith, under_iff path p, any-under_iff path prefixes)

-- Where a path goes, by which directories it is under: with the mount or an exception it passes
-- through; otherwise it is work data under a work root, and otherwise copied on write under a
-- copy-on-write root. It passes through exactly when it is neither.
pub classify_path_iff :
    (path mount : Text) (passthrough : List Text) (files : FilePolicy)
    → let free = (¬ IsUnder path mount) × (¬ Any (IsUnder path) passthrough) in
      let work = Any (IsUnder path) files.work_data_roots in
      let cow = Any (IsUnder path) files.cow_roots in
      ((classify_path path mount passthrough files ≡ work_data) ↔ (free × work))
      × ((classify_path path mount passthrough files ≡ system_cow) ↔ (free × (¬ work) × cow))
      × ((classify_path path mount passthrough files ≡ pass_through)
          ↔ ((¬ (free × work)) × (¬ (free × (¬ work) × cow))))
unfolding classify_path
classify_path_iff path mount passthrough files = ground (
  arith,
  under_iff path mount,
  any-under_iff path passthrough,
  any-under_iff path files.work_data_roots,
  any-under_iff path files.cow_roots,
)
