-- ===== src/Core/Overlay/Pieces.antt =====
-- A rectangle less a part of it, in four pieces.
use clave.Prelude.{
  ◌+◌, ◌-◌, ◌^◌, ◌≤◌, ◌<◌, ◌≡◌, ◌↔◌, ◌⊎◌, refl, sym, inl, inr, arith, Bool, true, false, List, ◌++◌,
  All, min, max, ltb, ltb→lt, lt→ltb,
}
use clave.Core.Overlay.{I32, bias, sub32, RectPx, new_rect, right, bottom, push_if, pieces}
use clave.Core.Overlay.Points.{
  IsFit, Inside, right-IsFit, bottom-IsFit, sub32_lem, Spans, In, Inside-Spans, IsFit-Spans,
  Covered, push_if-Covered, four_pieces,
}

pub span_of :
    (x y w h r b : I32)
    → x + w ≡ r + bias
    → y + h ≡ b + bias
    → x < 2 ^ 32
    → y < 2 ^ 32
    → w < 2 ^ 32
    → h < 2 ^ 32
    → r < 2 ^ 32
    → b < 2 ^ 32
    → Spans (new_rect x y w h) x r y b
span_of x y w h r b ew eh fx fy fw fh fr fb = record {
  fits = record {
    x_fits = fx;
    y_fits = fy;
    w_fits = fw;
    h_fits = fh;
    right_low = omega arith;
    right_high = omega arith;
    bottom_low = omega arith;
    bottom_high = omega arith;
  };
  x = refl;
  xw = ew;
  y = refl;
  yh = eh;
}

-- What two alternatives mean, so do their sums.
pub sum_iff : {A B C D : Type 0} → (A ↔ B) → (C ↔ D) → (A ⊎ C) ↔ (B ⊎ D)
sum_iff f g = (
  λ x. elim x [ inl a ↦ inl (f.0 a) | inr c ↦ inr (g.0 c) ],
  λ x. elim x [ inl b ↦ inl (f.1 b) | inr d ↦ inr (g.1 d) ],
)

pub iff_trans : {A B C : Type 0} → (A ↔ B) → (B ↔ C) → A ↔ C
iff_trans f g = (λ a. g.0 (f.0 a), λ c. f.1 (g.1 c))

pub last_Covered :
    (px py : I32) (c : Bool) (q : RectPx)
    → Covered px py (push_if c q) ↔ ((c ≡ true) × Inside px py q)
last_Covered px py true q =
    (λ x. elim x [ inl i ↦ (refl, i) | inr e ↦ elim e [ ] ], λ (e, i). inl i)
last_Covered px py false q = (λ x. elim x [ ], λ (e, i). cc)

pub of_piece :
    (px py m n l r t b : I32) (q : RectPx)
    → Spans q l r t b
    → ((ltb m n ≡ true) × Inside px py q) ↔ ((m < n) × In l r t b px py)
of_piece px py m n l r t b q s = (
  λ (e, i). (ltb→lt m n e, (Inside-Spans q l r t b px py s).0 i),
  λ (e, i). (lt→ltb m n e, (Inside-Spans q l r t b px py s).1 i),
)

four_pushed :
    (px py : I32) (c c' d d' : Bool) (q q' r r' : RectPx)
    → Covered px py (push_if c q ++ (push_if c' q' ++ (push_if d r ++ push_if d' r'))) ↔ (
        ((c ≡ true) × Inside px py q)
        ⊎ (((c' ≡ true) × Inside px py q')
            ⊎ (((d ≡ true) × Inside px py r) ⊎ ((d' ≡ true) × Inside px py r'))))
four_pushed px py c c' d d' q q' r r' = iff_trans (push_if-Covered px py c q _) (
    sum_iff (λ x. x, λ x. x)
      (iff_trans (push_if-Covered px py c' q' _) (
        sum_iff (λ x. x, λ x. x)
          (iff_trans (push_if-Covered px py d r _)
            (sum_iff (λ x. x, λ x. x) (last_Covered px py d' r'))))))

-- `ix` is a part of `a` that is not empty.
pub record Within (a ix : RectPx) : Type 0 where
  whole : IsFit a
  small : IsFit ix
  left : a.x ≤ ix.x
  wide : ix.x < right ix
  right_of : right ix ≤ right a
  top : a.y ≤ ix.y
  high : ix.y < bottom ix
  bottom_of : bottom ix ≤ bottom a

pub of_Common :
    (a o q : RectPx)
    → IsFit a
    → Spans q (max a.x o.x) (min (right a) (right o)) (max a.y o.y) (min (bottom a) (bottom o))
    → (max a.x o.x < min (right a) (right o))
    → (max a.y o.y < min (bottom a) (bottom o))
    → Within a q
of_Common a o q fa s lx ly =
    let r : right q ≡ min (right a) (right o) = omega (arith, right-IsFit q s.fits, s.xw) in
    let b : bottom q ≡ min (bottom a) (bottom o) = omega (arith, bottom-IsFit q s.fits, s.yh) in
    record {
      whole = fa;
      small = s.fits;
      left = omega (arith, s.x);
      wide = omega (arith, s.x);
      right_of = omega arith;
      top = omega (arith, s.y);
      high = omega (arith, s.y);
      bottom_of = omega arith;
    }

pub push_if-IsFit : (c : Bool) (q : RectPx) → IsFit q → All IsFit (push_if c q)
push_if-IsFit true q f = (f, tt)
push_if-IsFit false q f = tt

pub pushed-IsFit :
    (c : Bool) (q : RectPx) (rest : List RectPx)
    → IsFit q
    → All IsFit rest
    → All IsFit (push_if c q ++ rest)
pushed-IsFit true q rest f fs = (f, fs)
pushed-IsFit false q rest f fs = fs

four_pushed-IsFit :
    (c c' d d' : Bool) (q q' r r' : RectPx)
    → IsFit q
    → IsFit q'
    → IsFit r
    → IsFit r'
    → All IsFit (push_if c q ++ (push_if c' q' ++ (push_if d r ++ push_if d' r')))
four_pushed-IsFit c c' d d' q q' r r' f f' g g' =
    pushed-IsFit c q _ f (pushed-IsFit c' q' _ f' (pushed-IsFit d r _ g (push_if-IsFit d' r' g')))

module _ (a ix : RectPx) (h : Within a ix) where
  ra : right a + bias ≡ a.x + a.w
  ra = right-IsFit a h.whole

  ba : bottom a + bias ≡ a.y + a.h
  ba = bottom-IsFit a h.whole

  ri : right ix + bias ≡ ix.x + ix.w
  ri = right-IsFit ix h.small

  bi : bottom ix + bias ≡ ix.y + ix.h
  bi = bottom-IsFit ix h.small

  above : Spans (new_rect a.x a.y a.w (sub32 ix.y a.y)) a.x (right a) a.y ix.y
  above =
      let d : sub32 ix.y a.y ≡ ix.y - a.y + bias =
        sub32_lem ix.y a.y h.small.y_fits h.top
          (omega (arith, bi, ba, h.high, h.bottom_of, h.whole.h_fits)) in
      rw d (
        span_of a.x a.y a.w _ (right a) ix.y (sym ra) (omega (arith, h.top)) h.whole.x_fits
          h.whole.y_fits h.whole.w_fits (omega (arith, bi, ba, h.high, h.bottom_of, h.whole.h_fits))
          (omega (arith, ra, h.whole.right_high)) h.small.y_fits)

  below :
      Spans
        (new_rect a.x (bottom ix) a.w (sub32 (bottom a) (bottom ix)))
        a.x
        (right a)
        (bottom ix)
        (bottom a)
  below =
      let fb : bottom a < 2 ^ 32 = omega (arith, ba, h.whole.bottom_high) in
      let d : sub32 (bottom a) (bottom ix) ≡ bottom a - bottom ix + bias =
        sub32_lem (bottom a) (bottom ix) fb h.bottom_of
          (omega (arith, ba, h.top, h.high, h.whole.h_fits)) in
      rw d (
        span_of a.x (bottom ix) a.w _ (right a) (bottom a) (sym ra) (omega (arith, h.bottom_of))
          h.whole.x_fits (omega (arith, fb, h.bottom_of)) h.whole.w_fits
          (omega (arith, ba, h.top, h.high, h.whole.h_fits)) (omega (arith, ra, h.whole.right_high))
          fb)

  left_of : Spans (new_rect a.x ix.y (sub32 ix.x a.x) ix.h) a.x ix.x ix.y (bottom ix)
  left_of =
      let d : sub32 ix.x a.x ≡ ix.x - a.x + bias =
        sub32_lem ix.x a.x h.small.x_fits h.left
          (omega (arith, ri, ra, h.wide, h.right_of, h.whole.w_fits)) in
      rw d (
        span_of a.x ix.y _ ix.h ix.x (bottom ix) (omega (arith, h.left)) (sym bi) h.whole.x_fits
          h.small.y_fits (omega (arith, ri, ra, h.wide, h.right_of, h.whole.w_fits)) h.small.h_fits
          h.small.x_fits (omega (arith, bi, h.small.bottom_high)))

  beyond :
      Spans
        (new_rect (right ix) ix.y (sub32 (right a) (right ix)) ix.h)
        (right ix)
        (right a)
        ix.y
        (bottom ix)
  beyond =
      let fr : right a < 2 ^ 32 = omega (arith, ra, h.whole.right_high) in
      let d : sub32 (right a) (right ix) ≡ right a - right ix + bias =
        sub32_lem (right a) (right ix) fr h.right_of
          (omega (arith, ra, h.left, h.wide, h.whole.w_fits)) in
      rw d (
        span_of (right ix) ix.y _ ix.h (right a) (bottom ix) (omega (arith, h.right_of)) (sym bi)
          (omega (arith, fr, h.right_of)) h.small.y_fits
          (omega (arith, ra, h.left, h.wide, h.whole.w_fits)) h.small.h_fits fr
          (omega (arith, bi, h.small.bottom_high)))

  -- The pieces cover what lies in `a` and not in its part `ix`.
  pub pieces-Covered :
      (px py : I32) → Covered px py (pieces a ix) ↔ (Inside px py a × (Inside px py ix → ⊥))
  unfolding pieces
  pieces-Covered px py =
      let ia = Inside-Spans a a.x (right a) a.y (bottom a) px py (IsFit-Spans a h.whole) in
      let ii = Inside-Spans ix ix.x (right ix) ix.y (bottom ix) px py (IsFit-Spans ix h.small) in
      let all =
        four_pieces a.x ix.x (right ix) (right a) a.y ix.y (bottom ix) (bottom a) px py h.left
          h.wide h.right_of h.top h.high h.bottom_of in
      iff_trans (four_pushed px py _ _ _ _ _ _ _ _) (
        iff_trans
          (sum_iff (of_piece px py a.y ix.y a.x (right a) a.y ix.y _ above) (
            sum_iff
              (of_piece px py (bottom ix) (bottom a) a.x (right a) (bottom ix) (bottom a) _ below)
              (sum_iff (of_piece px py a.x ix.x a.x ix.x ix.y (bottom ix) _ left_of) (
                of_piece px py (right ix) (right a) (right ix) (right a) ix.y (bottom ix) _
                  beyond))))
          (
            λ x. let (i, o) = all.1 x in (ia.1 i, λ j. o (ii.0 j)),
            λ (i, o). all.0 (ia.0 i, λ j. o (ii.1 j)),
          ))

  pub pieces-IsFit : All IsFit (pieces a ix)
  unfolding pieces
  pieces-IsFit =
      four_pushed-IsFit (ltb a.y ix.y) (ltb (bottom ix) (bottom a)) (ltb a.x ix.x)
        (ltb (right ix) (right a)) _ _ _ _ above.fits below.fits left_of.fits beyond.fits
