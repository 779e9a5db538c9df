-- ===== src/Core/Overlay/Regions.antt =====
-- Taking rectangles out of a region.
use clave.Prelude.{
  ◌≡◌, ◌↔◌, ◌⊎◌, inl, inr, arith, Bool-cases, true, Option, none, some, List, [], ◌∷◌, ◌++◌, All,
  All-append, min, max,
}
use clave.Core.Overlay.{
  I32, RectPx, right, bottom, is_empty_rect, intersect, subtract, subtract_by, region_subtract,
}
use clave.Core.Overlay.Points.{
  IsFit, Inside, Spans, Common, part, apart, intersect-Common, Inside-Spans, IsFit-Spans, Covered,
}
use clave.Core.Overlay.Pieces.{iff_trans, of_Common, pieces-Covered, pieces-IsFit}

-- The common part has the points of both.
pub common_points :
    (a o q : RectPx) (px py : I32)
    → IsFit a
    → IsFit o
    → Spans q (max a.x o.x) (min (right a) (right o)) (max a.y o.y) (min (bottom a) (bottom o))
    → Inside px py q ↔ (Inside px py a × Inside px py o)
common_points a o q px py fa fo s =
    let iq = Inside-Spans q _ _ _ _ px py s in
    let ia = Inside-Spans a a.x (right a) a.y (bottom a) px py (IsFit-Spans a fa) in
    let io = Inside-Spans o o.x (right o) o.y (bottom o) px py (IsFit-Spans o fo) in
    (
      λ i.
          let (e, f, g, h) = iq.0 i in
          (
            ia.1 (omega arith, omega arith, omega arith, omega arith),
            io.1 (omega arith, omega arith, omega arith, omega arith),
          ),
      λ (i, j).
          let (e, f, g, h) = ia.0 i in
          let (e', f', g', h') = io.0 j in
          iq.1 (omega arith, omega arith, omega arith, omega arith),
    )

pub empty_has_no_point : (a : RectPx) (px py : I32) → is_empty_rect a ≡ true → Inside px py a → ⊥
empty_has_no_point a px py e i =
    absurd (ground (arith, i.from_left, i.to_right, i.from_top, i.to_bottom))

module _ (a hole : RectPx) (fa : IsFit a) (fh : IsFit hole) where
  subtract_by-Covered :
      (px py : I32) (o : Option RectPx)
      → Common a hole o
      → Covered px py (subtract_by a o) ↔ (Inside px py a × (Inside px py hole → ⊥))
  unfolding subtract_by
  subtract_by-Covered px py none (apart none_common) = elim (Bool-cases (is_empty_rect a)) [
    | inl e ↦ rw e ((λ x. elim x [ ]), (λ (i, n). absurd (empty_has_no_point a px py e i)))
    | inr e ↦
        rw e
          (λ x. elim x [ inl i ↦ (i, none_common px py i) | inr y ↦ elim y [ ] ], λ (i, n). inl i)
  ]
  subtract_by-Covered px py (some _) (part q s lx ly) =
      let common = common_points a hole q px py fa fh s in
      iff_trans (pieces-Covered a q (of_Common a hole q fa s lx ly) px py)
        (λ (i, n). (i, λ j. n (common.1 (i, j))), λ (i, n). (i, λ j. n (common.0 j).1))

  -- Taking `hole` out of `a` leaves the points of `a` that are not in `hole`.
  pub subtract-Covered :
      (px py : I32) → Covered px py (subtract a hole) ↔ (Inside px py a × (Inside px py hole → ⊥))
  unfolding subtract
  subtract-Covered px py =
      subtract_by-Covered px py (intersect a hole) (intersect-Common a hole fa fh)

  subtract_by-IsFit : (o : Option RectPx) → Common a hole o → All IsFit (subtract_by a o)
  unfolding subtract_by
  subtract_by-IsFit none (apart none_common) = elim (Bool-cases (is_empty_rect a)) [
    | inl e ↦ rw e tt
    | inr e ↦ rw e (fa, tt)
  ]
  subtract_by-IsFit (some _) (part q s lx ly) = pieces-IsFit a q (of_Common a hole q fa s lx ly)

  pub subtract-IsFit : All IsFit (subtract a hole)
  unfolding subtract
  subtract-IsFit = subtract_by-IsFit (intersect a hole) (intersect-Common a hole fa fh)

pub append-Covered :
    (px py : I32) (xs ys : List RectPx)
    → Covered px py (xs ++ ys) ↔ (Covered px py xs ⊎ Covered px py ys)
append-Covered px py [] ys = (λ c. inr c, λ x. elim x [ inl e ↦ elim e [ ] | inr c ↦ c ])
append-Covered px py (x ∷ xs) ys =
    let rest = append-Covered px py xs ys in
    (
      λ c. elim c [
        | inl i ↦ inl (inl i)
        | inr d ↦ elim (rest.0 d) [ inl e ↦ inl (inr e) | inr e ↦ inr e ]
      ],
      λ c. elim c [
        | inl d ↦ elim d [ inl i ↦ inl i | inr e ↦ inr (rest.1 (inl e)) ]
        | inr e ↦ inr (rest.1 (inr e))
      ],
    )

-- The point lies in none of the rectangles.
abbrev pub Outside : I32 → I32 → List RectPx → Type 0
Outside px py holes = All (λ q. Inside px py q → ⊥) holes

pub region_subtract-Covered :
    (px py : I32) (region : List RectPx) (hole : RectPx)
    → All IsFit region
    → IsFit hole
    → Covered px py (region_subtract region hole) ↔ (Covered px py region × (Inside px py hole → ⊥))
unfolding region_subtract
region_subtract-Covered px py [] hole f fh = (λ c. elim c [ ], λ (c, n). elim c [ ])
region_subtract-Covered px py (r ∷ region) hole (f, fs) fh =
    let one = subtract-Covered r hole f fh px py in
    let rest = region_subtract-Covered px py region hole fs fh in
    iff_trans (append-Covered px py (subtract r hole) (region_subtract region hole)) (
      λ x. elim x [
        | inl c ↦ let (i, n) = one.0 c in (inl i, n)
        | inr c ↦ let (i, n) = rest.0 c in (inr i, n)
      ],
      λ (c, n). elim c [ inl i ↦ inl (one.1 (i, n)) | inr d ↦ inr (rest.1 (d, n)) ],
    )

pub region_subtract-IsFit :
    (region : List RectPx) (hole : RectPx)
    → All IsFit region
    → IsFit hole
    → All IsFit (region_subtract region hole)
unfolding region_subtract
region_subtract-IsFit [] hole f fh = tt
region_subtract-IsFit (r ∷ region) hole (f, fs) fh =
    All-append IsFit (subtract r hole) (region_subtract region hole) (subtract-IsFit r hole f fh)
      (region_subtract-IsFit region hole fs fh)
