-- ===== src/Core/Overlay/Frames.antt =====
-- What the frames of all windows of work cover together.
use clave.Prelude.{
  ◌≡◌, ◌↔◌, ◌⊎◌, inl, inr, Bool-cases, true, false, not, ◌||◌, contains, List, [], ◌∷◌, ◌++◌, Any,
  All,
}
use clave.Platform.Types.{WindowId, window_id_eq, Rgba}
use clave.Core.Overlay.{
  I32, RectPx, is_empty_rect, WindowGeom, BorderCfg, Frame, frame_if, frames_from, window_segments,
  recompute_frames,
}
use clave.Core.Overlay.Points.{IsFit, Inside, Covered}
use clave.Core.Overlay.Pieces.{iff_trans, sum_iff}
use clave.Core.Overlay.Regions.{empty_has_no_point, Outside}
use clave.Core.Overlay.Bands.{Near}
use clave.Core.Overlay.Visible.{rects, window_segments-Near}

-- The point lies in a segment of one of the frames.
abbrev pub Drawn : I32 → I32 → List Frame → Type 0
Drawn px py frames = Any (λ f. Covered px py f.segments) frames

-- The point lies in a window of work, near to one of its sides, and in no window in front of it.
abbrev pub OnBorder : I32 → I32 → List WindowId → I32 → List WindowGeom → List WindowGeom → Type 0
OnBorder px py work thickness front [] = ⊥
OnBorder px py work thickness front (wg ∷ windows) =
    ((contains wg.window work ≡ true)
      × (Inside px py wg.rect × Near px py thickness wg.rect × Outside px py (rects front)))
    ⊎ OnBorder px py work thickness (front ++ (wg ∷ [])) windows

frame_if-Drawn :
    (px py : I32) (window : WindowId) (color : Rgba) (segments : List RectPx) (rest : List Frame)
    → Drawn px py (frame_if window color segments ++ rest)
      ↔ (Covered px py segments ⊎ Drawn px py rest)
frame_if-Drawn px py window color [] rest =
    ((λ c. inr c), λ c. elim c [ inl e ↦ elim e [ ] | inr d ↦ d ])
frame_if-Drawn px py window color (s ∷ segments) rest = ((λ c. c), λ c. c)

front-IsFit :
    (front : List WindowGeom) (wg : WindowGeom)
    → All IsFit (rects front)
    → IsFit wg.rect
    → All IsFit (rects (front ++ (wg ∷ [])))
front-IsFit [] wg fs f = (f, tt)
front-IsFit (w ∷ front) wg (g, fs) f = (g, front-IsFit front wg fs f)

skipped :
    (px py : I32) (work : List WindowId) (wg : WindowGeom)
    → (not (contains wg.window work) || is_empty_rect wg.rect) ≡ true
    → contains wg.window work ≡ true
    → Inside px py wg.rect
    → ⊥
skipped px py work wg e c i = elim (Bool-cases (is_empty_rect wg.rect)) [
  | inl h ↦ empty_has_no_point wg.rect px py h i
  | inr h ↦ cc
]

drawn_is_work :
    (work : List WindowId) (wg : WindowGeom)
    → (not (contains wg.window work) || is_empty_rect wg.rect) ≡ false
    → contains wg.window work ≡ true
drawn_is_work work wg e = elim (Bool-cases (contains wg.window work)) [ inl h ↦ h | inr h ↦ cc ]

frames_from-OnBorder :
    (px py : I32) (front windows : List WindowGeom) (work : List WindowId) (thickness : I32)
    (color_of : WindowId → Rgba)
    → All IsFit (rects front)
    → All IsFit (rects windows)
    → Drawn px py (frames_from front windows work thickness color_of)
      ↔ OnBorder px py work thickness front windows
unfolding frames_from
frames_from-OnBorder px py front [] work t color_of ff fw = ((λ c. c), λ c. c)
frames_from-OnBorder px py front (wg ∷ windows) work t color_of ff (f, fw) =
    let rest =
      frames_from-OnBorder px py (front ++ (wg ∷ [])) windows work t color_of
        (front-IsFit front wg ff f) fw in
    elim (Bool-cases (not (contains wg.window work) || is_empty_rect wg.rect)) [
      | inl e ↦ rw e (
        λ d. inr (rest.0 d),
        λ b. elim b [ inl (c, i) ↦ absurd (skipped px py work wg e c i.0) | inr b' ↦ rest.1 b' ],
      )
      | inr e ↦
          let work' = drawn_is_work work wg e in
          let here = window_segments-Near px py t front wg.rect f ff in
          rw e (
            iff_trans
              (frame_if-Drawn px py wg.window (color_of wg.window) (window_segments front t wg.rect)
                _)
              (sum_iff ((λ c. (work', here.0 c)), λ (_, b). here.1 b) rest))
    ]

-- When no right or bottom side of a window overflows, a point lies in a segment of the frames exactly
-- when it lies in a window of work, nearer than the thickness to one of its sides, and in no window
-- in front of that one.
pub recompute_frames-OnBorder :
    (px py : I32) (windows : List WindowGeom) (work : List WindowId) (cfg : BorderCfg)
    → All IsFit (rects windows)
    → Drawn px py (recompute_frames windows work cfg) ↔ OnBorder px py work cfg.thickness [] windows
unfolding recompute_frames
recompute_frames-OnBorder px py windows work cfg f =
    frames_from-OnBorder px py [] windows work cfg.thickness (λ w. cfg.color) tt f
