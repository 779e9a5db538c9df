-- ===== src/Core/Overlay/Bands.antt =====
-- The ring along the edges of a rectangle.
use clave.Prelude.{
  ℕ, ◌+◌, ◌-◌, ◌^◌, ◌≤◌, ◌<◌, ◌≡◌, ◌↔◌, ◌⊎◌, refl, sym, inl, inr, arith, Bool-cases, false, All,
  ltb, ltb→lt, lt→ltb,
}
use clave.Core.Overlay.{I32, bias, add32, sub32, RectPx, new_rect, right, bottom, middle, bands}
use clave.Core.Overlay.Points.{
  IsFit, Inside, right-IsFit, bottom-IsFit, Spans, In, Inside-Spans, IsFit-Spans, Covered,
  push_if-Covered,
}
use clave.Core.Overlay.Pieces.{
  iff_trans, sum_iff, span_of, of_piece, last_Covered, push_if-IsFit, pushed-IsFit,
}

-- The point is nearer than `thickness` to one of the sides.
abbrev pub Near : I32 → I32 → I32 → RectPx → Type 0
Near px py thickness r =
    (px < r.x + (thickness - bias))
    ⊎ ((right r ≤ px + (thickness - bias))
        ⊎ ((py < r.y + (thickness - bias)) ⊎ (bottom r ≤ py + (thickness - bias))))

add32_lem : (a t : I32) → bias ≤ t → a + (t - bias) < 2 ^ 32 → add32 a t ≡ a + (t - bias)
add32_lem a t low fits =
    let e : a + t + bias ≡ (a + (t - bias)) + 2 ^ 32 = omega arith in rw e (omega arith)

back_lem :
    (a t : I32) → a < 2 ^ 32 → t < 2 ^ 32 → bias ≤ t → t - bias ≤ a → sub32 a t ≡ a - (t - bias)
back_lem a t fa ft low le =
    let e : a + (2 ^ 32 - t) + bias ≡ (a - (t - bias)) + 2 ^ 32 = omega arith in rw e (omega arith)

-- `h - 2 * t`, also where `2 * t` overflows
middle_lem :
    (h t : I32) → bias < t → t ≤ h → h < 2 ^ 32 → sub32 h (add32 t t) ≡ h + 2 ^ 32 - (t + t)
middle_lem h t low le fits = omega arith

-- The four bands of a box are what is near one of its sides.
four_bands :
    (l r t b w h k px py : ℕ)
    → r + bias ≡ l + w
    → b + bias ≡ t + h
    → bias < k
    → k ≤ w
    → k ≤ h
    → (In l r t (t + (k - bias)) px py
        ⊎ (((k < h) × In l r (b - (k - bias)) b px py)
            ⊎ ((bias < h + 2 ^ 32 - (k + k))
                × (In l (l + (k - bias)) (t + (k - bias)) (b - (k - bias)) px py
                    ⊎ ((k < w) × In (r - (k - bias)) r (t + (k - bias)) (b - (k - bias)) px py)))))
      ↔ (In l r t b px py
          × ((px < l + (k - bias))
              ⊎ ((r ≤ px + (k - bias)) ⊎ ((py < t + (k - bias)) ⊎ (b ≤ py + (k - bias))))))
four_bands l r t b w h k px py er eb pos kw kh = ground arith

not_room : (m : I32) → ltb bias m ≡ false → bias < m → ⊥
not_room m e lt = ground (arith, lt→ltb bias m lt)

module _ (r : RectPx) (t : I32) (f : IsFit r) (pos : bias < t) (tw : t ≤ r.w) (th : t ≤ r.h) where
  rr : right r + bias ≡ r.x + r.w
  rr = right-IsFit r f

  br : bottom r + bias ≡ r.y + r.h
  br = bottom-IsFit r f

  fr : right r < 2 ^ 32
  fr = omega (arith, rr, f.right_high)

  fb : bottom r < 2 ^ 32
  fb = omega (arith, br, f.bottom_high)

  lower : add32 r.y t ≡ r.y + (t - bias)
  lower = add32_lem r.y t (omega arith) (omega (arith, br, fb))

  top_band : Spans (new_rect r.x r.y r.w t) r.x (right r) r.y (r.y + (t - bias))
  top_band =
      span_of r.x r.y r.w t (right r) (r.y + (t - bias)) (sym rr) (omega arith) f.x_fits f.y_fits
        f.w_fits (omega (arith, f.w_fits)) fr (omega (arith, br, fb))

  bottom_band :
      Spans
        (new_rect r.x (sub32 (bottom r) t) r.w t)
        r.x
        (right r)
        (bottom r - (t - bias))
        (bottom r)
  bottom_band =
      let e : sub32 (bottom r) t ≡ bottom r - (t - bias) =
        back_lem (bottom r) t fb (omega (arith, f.w_fits)) (omega arith) (omega (arith, br)) in
      rw e (
        span_of r.x _ r.w t (right r) (bottom r) (sym rr) (omega (arith, br)) f.x_fits
          (omega (arith, fb)) f.w_fits (omega (arith, f.w_fits)) fr fb)

  module _ (m : I32) (em : m ≡ r.h + 2 ^ 32 - (t + t)) (room : bias < m) where
    left_band :
        Spans
          (new_rect r.x (add32 r.y t) t m)
          r.x
          (r.x + (t - bias))
          (r.y + (t - bias))
          (bottom r - (t - bias))
    left_band = rw lower (
        span_of r.x _ t m (r.x + (t - bias)) (bottom r - (t - bias)) (omega arith)
          (omega (arith, br)) f.x_fits (omega (arith, br, fb)) (omega (arith, f.w_fits))
          (omega (arith, f.h_fits)) (omega (arith, rr, fr)) (omega (arith, fb)))

    right_band :
        Spans
          (new_rect (sub32 (right r) t) (add32 r.y t) t m)
          (right r - (t - bias))
          (right r)
          (r.y + (t - bias))
          (bottom r - (t - bias))
    right_band =
        let e : sub32 (right r) t ≡ right r - (t - bias) =
          back_lem (right r) t fr (omega (arith, f.w_fits)) (omega arith) (omega (arith, rr)) in
        rw (lower, e)
          (span_of _ _ t m (right r) (bottom r - (t - bias)) (omega (arith, rr)) (omega (arith, br))
            (omega (arith, fr)) (omega (arith, br, fb)) (omega (arith, f.w_fits))
            (omega (arith, f.h_fits)) fr (omega (arith, fb)))

  middle-Covered :
      (px py m : I32)
      → m ≡ r.h + 2 ^ 32 - (t + t)
      → Covered px py (middle r t m) ↔ (
          (bias < m)
          × (In r.x (r.x + (t - bias)) (r.y + (t - bias)) (bottom r - (t - bias)) px py
              ⊎ ((t < r.w)
                  × In
                      (right r - (t - bias))
                      (right r)
                      (r.y + (t - bias))
                      (bottom r - (t - bias))
                      px
                      py)))
  middle-Covered px py m em = elim (Bool-cases (ltb bias m)) [
    | inl e ↦
        let room = ltb→lt bias m e in
        let all = sum_iff (Inside-Spans _ _ _ _ _ px py (left_band m em room)) (
          iff_trans (last_Covered px py (ltb t r.w) _)
            (of_piece px py t r.w _ _ _ _ _ (right_band m em room))) in
        rw e ((λ c. (room, all.0 c)), λ (_, c). all.1 c)
    | inr e ↦ rw e ((λ c. elim c [ ]), λ (room, c). absurd (not_room m e room))
  ]

  pub bands-Covered : (px py : I32) → Covered px py (bands r t) ↔ (Inside px py r × Near px py t r)
  bands-Covered px py =
      let m = middle_lem r.h t pos th f.h_fits in
      let ir = Inside-Spans r r.x (right r) r.y (bottom r) px py (IsFit-Spans r f) in
      iff_trans
        (sum_iff (Inside-Spans _ _ _ _ _ px py top_band) (
          iff_trans (push_if-Covered px py (ltb t r.h) _ _) (
            sum_iff (of_piece px py t r.h _ _ _ _ _ bottom_band)
              (rw m (middle-Covered px py _ refl)))))
        (iff_trans (four_bands r.x (right r) r.y (bottom r) r.w r.h t px py rr br pos tw th)
          ((λ (i, n). (ir.1 i, n)), λ (i, n). (ir.0 i, n)))

  middle-IsFit : (m : I32) → m ≡ r.h + 2 ^ 32 - (t + t) → All IsFit (middle r t m)
  middle-IsFit m em = elim (Bool-cases (ltb bias m)) [
    | inl e ↦
        let room = ltb→lt bias m e in
        rw e ((left_band m em room).fits, push_if-IsFit (ltb t r.w) _ (right_band m em room).fits)
    | inr e ↦ rw e tt
  ]

  pub bands-IsFit : All IsFit (bands r t)
  bands-IsFit =
      let m = middle_lem r.h t pos th f.h_fits in
      (
        top_band.fits,
        pushed-IsFit (ltb t r.h) _ (middle r t (sub32 r.h (add32 t t))) bottom_band.fits
            (rw m (middle-IsFit _ refl)),
      )
