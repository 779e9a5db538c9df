-- ===== src/Core/Overlay.antt =====
-- crates/clave-core/src/overlay.rs: the borders round the windows of work, as far as they can be seen.
-- An `i32` v is the number v + 2 ^ 31, below 2 ^ 32, so that the order is that of numbers; sums wrap.
pub mod Points
pub mod Pieces
pub mod Regions
pub mod Bands
pub mod Visible
pub mod Frames
mod Tests
use clave.Prelude.{
  ℕ, ◌+◌, ◌-◌, ◌%◌, ◌^◌, Bool, true, false, not, ◌&&◌, ◌||◌, Option, none, some, List, [], ◌∷◌,
  ◌++◌, map, Map, lookup, min, max, ltb, leb, is_empty, contains, if◌then◌else◌,
}
use clave.Platform.Types.{WindowId, window_id_eq, Rgba, clave_edge}

abbrev pub I32 : Type 0
I32 = ℕ

-- 0
abbrev pub bias : ℕ
bias = 2 ^ 31

-- `a + b` and `a - b` in a release build
abbrev pub add32 : I32 → I32 → I32
add32 a b = (a + b + bias) % 2 ^ 32

abbrev pub sub32 : I32 → I32 → I32
sub32 a b = (a + (2 ^ 32 - b) + bias) % 2 ^ 32

pub record RectPx : Type 0 where
  pub x : I32
  pub y : I32
  pub w : I32
  pub h : I32

-- `RectPx::new`
abbrev pub new_rect : I32 → I32 → I32 → I32 → RectPx
new_rect x y w h = record { x = x; y = y; w = w; h = h }

abbrev pub right : RectPx → I32
right r = add32 r.x r.w

abbrev pub bottom : RectPx → I32
bottom r = add32 r.y r.h

-- `RectPx::is_empty`
abbrev pub is_empty_rect : RectPx → Bool
is_empty_rect r = leb r.w bias || leb r.h bias

unfoldable pub intersect : RectPx → RectPx → Option RectPx
intersect a o =
    let x = max a.x o.x in
    let y = max a.y o.y in
    let r = min (right a) (right o) in
    let b = min (bottom a) (bottom o) in
    if ltb x r && ltb y b then some (new_rect x y (sub32 r x) (sub32 b y)) else none

pub record WindowGeom : Type 0 where
  pub window : WindowId
  pub rect : RectPx

pub record BorderCfg : Type 0 where
  pub thickness : I32
  pub color : Rgba

-- `BorderCfg::default`
abbrev pub default_border : BorderCfg
default_border = record { thickness = bias + 3; color = clave_edge }

pub record Frame : Type 0 where
  pub window : WindowId
  pub color : Rgba
  pub segments : List RectPx

-- `if c { out.push(r) }`
abbrev pub push_if : Bool → RectPx → List RectPx
push_if c r = if c then r ∷ [] else []

-- The four pieces of `a` that are left of, right of, above and below the part `ix` of it.
unfoldable pub pieces : RectPx → RectPx → List RectPx
pieces a ix =
    push_if (ltb a.y ix.y) (new_rect a.x a.y a.w (sub32 ix.y a.y))
    ++ (push_if (ltb (bottom ix) (bottom a))
          (new_rect a.x (bottom ix) a.w (sub32 (bottom a) (bottom ix)))
        ++ (push_if (ltb a.x ix.x) (new_rect a.x ix.y (sub32 ix.x a.x) ix.h)
            ++ push_if (ltb (right ix) (right a))
                (new_rect (right ix) ix.y (sub32 (right a) (right ix)) ix.h)))

abbrev subtract_by : RectPx → Option RectPx → List RectPx
unfolding pieces
subtract_by a none = if is_empty_rect a then [] else a ∷ []
subtract_by a (some ix) = pieces a ix

unfoldable pub subtract : RectPx → RectPx → List RectPx
unfolding intersect subtract_by
subtract a hole = subtract_by a (intersect a hole)

unfoldable pub region_subtract : List RectPx → RectPx → List RectPx
unfolding subtract
region_subtract [] hole = []
region_subtract (r ∷ region) hole = subtract r hole ++ region_subtract region hole

abbrev middle : RectPx → I32 → I32 → List RectPx
middle rect t mid_h =
    if ltb bias mid_h
    then new_rect rect.x (add32 rect.y t) t mid_h
      ∷ push_if (ltb t rect.w) (new_rect (sub32 (right rect) t) (add32 rect.y t) t mid_h)
    else []

abbrev bands : RectPx → I32 → List RectPx
bands rect t =
    new_rect rect.x rect.y rect.w t
    ∷ (push_if (ltb t rect.h) (new_rect rect.x (sub32 (bottom rect) t) rect.w t)
        ++ middle rect t (sub32 rect.h (add32 t t)))

-- `2 * t` is `t + t`.
unfoldable pub ring : RectPx → I32 → List RectPx
ring rect thickness =
    if is_empty_rect rect || leb thickness bias
    then []
    else bands rect (min (min thickness rect.w) rect.h)

-- What is left of a region behind the windows in front of it; the loop stops when nothing is left.
unfoldable pub behind : List RectPx → List WindowGeom → List RectPx
unfolding region_subtract
behind visible [] = visible
behind visible (occ ∷ front) =
    let visible' = region_subtract visible occ.rect in
    let rest = behind visible' front in if is_empty visible' then visible' else rest

abbrev one : Option RectPx → List RectPx
one none = []
one (some r) = r ∷ []

-- The parts of one band that can be seen
unfoldable pub seen_of : RectPx → List RectPx → List RectPx
unfolding intersect
seen_of band [] = []
seen_of band (v ∷ visible) = one (intersect band v) ++ seen_of band visible

unfoldable pub segments_of : List RectPx → List RectPx → List RectPx
unfolding seen_of
segments_of [] visible = []
segments_of (band ∷ rest) visible = seen_of band visible ++ segments_of rest visible

unfoldable pub window_segments : List WindowGeom → I32 → RectPx → List RectPx
unfolding behind ring segments_of
window_segments front thickness rect = segments_of (ring rect thickness) (behind (rect ∷ []) front)

abbrev frame_if : WindowId → Rgba → List RectPx → List Frame
frame_if window color segments =
    if is_empty segments
    then []
    else record { window = window; color = color; segments = segments } ∷ []

-- `frames_impl`: the windows from front to back, with those in front of the rest.
unfoldable pub frames_from :
    List WindowGeom → List WindowGeom → List WindowId → I32 → (WindowId → Rgba) → List Frame
unfolding window_segments
frames_from front [] work thickness color_of = []
frames_from front (wg ∷ windows) work thickness color_of =
    let rest = frames_from (front ++ (wg ∷ [])) windows work thickness color_of in
    if not (contains wg.window work) || is_empty_rect wg.rect
    then rest
    else frame_if wg.window (color_of wg.window) (window_segments front thickness wg.rect) ++ rest

unfoldable pub recompute_frames : List WindowGeom → List WindowId → BorderCfg → List Frame
unfolding frames_from
recompute_frames windows work cfg = frames_from [] windows work cfg.thickness (λ w. cfg.color)

abbrev color_in : Rgba → Option Rgba → Rgba
color_in default none = default
color_in default (some color) = color

unfoldable pub recompute_frames_themed :
    List WindowGeom → List WindowId → BorderCfg → Map WindowId Rgba → List Frame
unfolding frames_from lookup
recompute_frames_themed windows work cfg colors =
    frames_from [] windows work cfg.thickness (λ w. color_in cfg.color (lookup w colors))
