-- ===== src/Core/Overlay/Visible.antt =====
-- The border of one window, as far as the windows in front of it leave it to be seen.
use clave.Prelude.{
  ◌<◌, ◌≡◌, ◌↔◌, refl, sym, inl, inr, arith, Bool-cases, true, false, ◌||◌, Option, none, some,
  is_empty, List, [], ◌∷◌, All, map, min, leb, if◌then◌else◌,
}
use clave.Core.Overlay.{
  I32, bias, RectPx, is_empty_rect, intersect, WindowGeom, ring, region_subtract, behind, one,
  seen_of, segments_of, window_segments,
}
use clave.Core.Overlay.Points.{
  IsFit, Inside, right-IsFit, bottom-IsFit, Common, part, apart, intersect-Common, Covered,
}
use clave.Core.Overlay.Pieces.{iff_trans, sum_iff}
use clave.Core.Overlay.Regions.{
  common_points, empty_has_no_point, append-Covered, Outside, region_subtract-Covered,
  region_subtract-IsFit,
}
use clave.Core.Overlay.Bands.{Near, bands-Covered, bands-IsFit}

-- No side of a rectangle with a thickness that is not positive is near.
Near-thick : (px py t : I32) (r : RectPx) → IsFit r → Inside px py r → Near px py t r → bias < t
Near-thick px py t r f i n =
    ground
      (arith, right-IsFit r f, bottom-IsFit r f, i.from_left, i.to_right, i.from_top, i.to_bottom)

Near-thinned :
    (px py t : I32) (r : RectPx)
    → IsFit r
    → Inside px py r
    → bias < t
    → Near px py (min (min t r.w) r.h) r ↔ Near px py t r
Near-thinned px py t r f i pos =
    ground
      (arith, right-IsFit r f, bottom-IsFit r f, i.from_left, i.to_right, i.from_top, i.to_bottom)

record Thick (t : I32) (r : RectPx) : Type 0 where
  thick : bias < t
  broad : bias < r.w
  tall : bias < r.h

bands-Thick : (t : I32) (r : RectPx) → (is_empty_rect r || leb t bias) ≡ false → Thick t r
bands-Thick t r e = record { thick = ground arith; broad = ground arith; tall = ground arith }

thin-Near :
    (px py t : I32) (r : RectPx)
    → IsFit r
    → (is_empty_rect r || leb t bias) ≡ true
    → Inside px py r
    → Near px py t r
    → ⊥
thin-Near px py t r f e i n =
    ground (arith, Near-thick px py t r f i n, empty_has_no_point r px py, i)

-- The ring covers what lies in the rectangle within the thickness of an edge.
pub ring-Covered :
    (px py t : I32) (r : RectPx)
    → IsFit r
    → Covered px py (ring r t) ↔ (Inside px py r × Near px py t r)
unfolding ring
ring-Covered px py t r f = elim (Bool-cases (is_empty_rect r || leb t bias)) [
  | inl e ↦ rw e ((λ c. elim c [ ]), λ (i, n). absurd (thin-Near px py t r f e i n))
  | inr e ↦
      let k = bands-Thick t r e in
      let all =
        bands-Covered r (min (min t r.w) r.h) f (omega (arith, k.thick, k.broad, k.tall))
          (omega arith) (omega arith) px py in
      rw e (
        λ c. let (i, n) = all.0 c in (i, (Near-thinned px py t r f i k.thick).0 n),
        λ (i, n). all.1 (i, (Near-thinned px py t r f i k.thick).1 n),
      )
]

pub ring-IsFit : (t : I32) (r : RectPx) → IsFit r → All IsFit (ring r t)
unfolding ring
ring-IsFit t r f = elim (Bool-cases (is_empty_rect r || leb t bias)) [
  | inl e ↦ rw e tt
  | inr e ↦
      let k = bands-Thick t r e in
      rw e (
        bands-IsFit r (min (min t r.w) r.h) f (omega (arith, k.thick, k.broad, k.tall))
          (omega arith) (omega arith))
]

behind-nil : (front : List WindowGeom) → behind [] front ≡ []
unfolding behind
behind-nil [] = refl
behind-nil (occ ∷ front) = refl

-- Stopping early leaves what going on leaves.
stop-behind :
    (region : List RectPx) (front : List WindowGeom)
    → (if is_empty region then region else behind region front) ≡ behind region front
stop-behind [] front = sym (behind-nil front)
stop-behind (r ∷ region) front = refl

abbrev pub rects : List WindowGeom → List RectPx
rects front = map (λ w. w.rect) front

pub behind-Covered :
    (px py : I32) (region : List RectPx) (front : List WindowGeom)
    → All IsFit region
    → All IsFit (rects front)
    → Covered px py (behind region front) ↔ (Covered px py region × Outside px py (rects front))
unfolding behind
behind-Covered px py region [] f ff = ((λ c. (c, tt)), λ (c, _). c)
behind-Covered px py region (occ ∷ front) f (fo, ff) =
    let here = region_subtract-Covered px py region occ.rect f fo in
    let rest =
      behind-Covered px py (region_subtract region occ.rect) front
        (region_subtract-IsFit region occ.rect f fo) ff in
    rw (stop-behind (region_subtract region occ.rect) front) (
      λ c. let (d, o) = rest.0 c in let (e, n) = here.0 d in (e, (n, o)),
      λ (e, (n, o)). rest.1 (here.1 (e, n), o),
    )

pub behind-IsFit :
    (region : List RectPx) (front : List WindowGeom)
    → All IsFit region
    → All IsFit (rects front)
    → All IsFit (behind region front)
unfolding behind
behind-IsFit region [] f ff = f
behind-IsFit region (occ ∷ front) f (fo, ff) =
    rw (stop-behind (region_subtract region occ.rect) front) (
      behind-IsFit (region_subtract region occ.rect) front
        (region_subtract-IsFit region occ.rect f fo) ff)

one-Covered :
    (px py : I32) (a o : RectPx) (q : Option RectPx)
    → IsFit a
    → IsFit o
    → Common a o q
    → Covered px py (one q) ↔ (Inside px py a × Inside px py o)
one-Covered px py a o none fa fo (apart never) =
    ((λ c. elim c [ ]), λ (i, j). absurd (never px py i j))
one-Covered px py a o (some _) fa fo (part q s lx ly) =
    let common = common_points a o q px py fa fo s in
    (λ c. elim c [ inl i ↦ common.0 i | inr e ↦ elim e [ ] ], λ c. inl (common.1 c))

seen_of-Covered :
    (px py : I32) (band : RectPx) (visible : List RectPx)
    → IsFit band
    → All IsFit visible
    → Covered px py (seen_of band visible) ↔ (Inside px py band × Covered px py visible)
unfolding seen_of
seen_of-Covered px py band [] f fs = ((λ c. elim c [ ]), λ (_, c). c)
seen_of-Covered px py band (v ∷ visible) f (fv, fs) =
    let here = one-Covered px py band v (intersect band v) f fv (intersect-Common band v f fv) in
    let rest = seen_of-Covered px py band visible f fs in
    iff_trans (append-Covered px py (one (intersect band v)) (seen_of band visible)) (
      iff_trans (sum_iff here rest) (
        λ c. elim c [ inl (i, j) ↦ (i, inl j) | inr (i, d) ↦ (i, inr d) ],
        λ (i, c). elim c [ inl j ↦ inl (i, j) | inr d ↦ inr (i, d) ],
      ))

segments_of-Covered :
    (px py : I32) (edge visible : List RectPx)
    → All IsFit edge
    → All IsFit visible
    → Covered px py (segments_of edge visible) ↔ (Covered px py edge × Covered px py visible)
unfolding segments_of
segments_of-Covered px py [] visible f fs = ((λ c. elim c [ ]), λ (c, _). c)
segments_of-Covered px py (band ∷ rest) visible (f, fr) fs =
    iff_trans (append-Covered px py (seen_of band visible) (segments_of rest visible)) (
      iff_trans
        (sum_iff (seen_of-Covered px py band visible f fs)
          (segments_of-Covered px py rest visible fr fs))
        (
          λ c. elim c [ inl (i, d) ↦ (inl i, d) | inr (e, d) ↦ (inr e, d) ],
          λ (c, d). elim c [ inl i ↦ inl (i, d) | inr e ↦ inr (e, d) ],
        ))

pub window_segments-Near :
    (px py thickness : I32) (front : List WindowGeom) (rect : RectPx)
    → IsFit rect
    → All IsFit (rects front)
    → Covered px py (window_segments front thickness rect)
      ↔ (Inside px py rect × Near px py thickness rect × Outside px py (rects front))
unfolding window_segments
window_segments-Near px py t front rect f ff =
    let edge = ring-Covered px py t rect f in
    let seen = behind-Covered px py (rect ∷ []) front (f, tt) ff in
    iff_trans
      (segments_of-Covered px py (ring rect t) (behind (rect ∷ []) front) (ring-IsFit t rect f)
        (behind-IsFit (rect ∷ []) front (f, tt) ff))
      (
        λ (c, d). let (i, n) = edge.0 c in let (_, o) = seen.0 d in (i, n, o),
        λ (i, n, o). (edge.1 (i, n), seen.1 (inl i, o)),
      )
