-- ===== src/Core/Overlay/Points.antt =====
-- Rectangles as sets of points, as long as no sum of theirs overflows.
use clave.Prelude.{
  ℕ, ◌+◌, ◌-◌, ◌^◌, ◌≤◌, ◌<◌, ◌≡◌, ◌↔◌, ◌⊎◌, refl, sym, inl, inr, arith, Bool-cases, Bool, true,
  false, Option, none, some, List, ◌++◌, Any, min, max, ltb, ltb→lt,
}
use clave.Core.Overlay.{I32, bias, sub32, RectPx, new_rect, right, bottom, intersect, push_if}

-- The sides do not overflow: `x`, `y`, `x + w` and `y + h` are values of an `i32`.
pub record IsFit (r : RectPx) : Type 0 where
  pub x_fits : r.x < 2 ^ 32
  pub y_fits : r.y < 2 ^ 32
  pub w_fits : r.w < 2 ^ 32
  pub h_fits : r.h < 2 ^ 32
  pub right_low : bias ≤ r.x + r.w
  pub right_high : r.x + r.w < 2 ^ 32 + bias
  pub bottom_low : bias ≤ r.y + r.h
  pub bottom_high : r.y + r.h < 2 ^ 32 + bias

-- The point at `px`, `py` lies in the rectangle.
pub record Inside (px py : I32) (r : RectPx) : Type 0 where
  pub from_left : r.x ≤ px
  pub to_right : px + bias < r.x + r.w
  pub from_top : r.y ≤ py
  pub to_bottom : py + bias < r.y + r.h

pub right-IsFit : (r : RectPx) → IsFit r → right r + bias ≡ r.x + r.w
right-IsFit r f = omega (arith, f.right_low, f.right_high)

pub bottom-IsFit : (r : RectPx) → IsFit r → bottom r + bias ≡ r.y + r.h
bottom-IsFit r f = omega (arith, f.bottom_low, f.bottom_high)

pub sub32_lem : (a b : I32) → a < 2 ^ 32 → b ≤ a → a - b < bias → sub32 a b ≡ a - b + bias
sub32_lem a b small le fits =
    let e : (a + (2 ^ 32 - b) + bias) ≡ (a - b + bias) + 2 ^ 32 = omega arith in rw e (omega arith)

-- A rectangle with these sides.
pub record Spans (r : RectPx) (left right top bottom : I32) : Type 0 where
  pub fits : IsFit r
  pub x : r.x ≡ left
  pub xw : r.x + r.w ≡ right + bias
  pub y : r.y ≡ top
  pub yh : r.y + r.h ≡ bottom + bias

of_sides :
    (l r t b : I32)
    → l ≤ r
    → t ≤ b
    → r < 2 ^ 32
    → b < 2 ^ 32
    → r - l < bias
    → b - t < bias
    → Spans (new_rect l t (sub32 r l) (sub32 b t)) l r t b
of_sides l r t b lr tb fr fb dw dh =
    let w = sub32_lem r l fr lr dw in
    let h = sub32_lem b t fb tb dh in
    rw (w, h)
      (record {
        fits = record {
          x_fits = omega arith;
          y_fits = omega arith;
          w_fits = omega arith;
          h_fits = omega arith;
          right_low = omega arith;
          right_high = omega arith;
          bottom_low = omega arith;
          bottom_high = omega arith;
        };
        x = refl;
        xw = omega arith;
        y = refl;
        yh = omega arith;
      })

-- The common part of two rectangles, or that they have no common point.
pub data Common (a o : RectPx) : Option RectPx → Type 0 where
  part :
      (q : RectPx)
      → Spans q (max a.x o.x) (min (right a) (right o)) (max a.y o.y) (min (bottom a) (bottom o))
      → (max a.x o.x < min (right a) (right o))
      → (max a.y o.y < min (bottom a) (bottom o))
      → Common a o (some q)
  apart : ((px py : I32) → Inside px py a → Inside px py o → ⊥) → Common a o none

not_ltb : (a b : ℕ) → ltb a b ≡ false → b ≤ a
not_ltb a b h = ground arith

no_room :
    (x w ox ow r or p : ℕ)
    → r + bias ≡ x + w
    → or + bias ≡ ox + ow
    → min r or ≤ max x ox
    → x ≤ p
    → p + bias < x + w
    → ox ≤ p
    → p + bias < ox + ow
    → ⊥
no_room x w ox ow r or p e oe le a b c d = omega arith

-- One axis: the common part of two sides is a side.
common_side :
    (x w ox ow r or : ℕ)
    → r + bias ≡ x + w
    → or + bias ≡ ox + ow
    → w < 2 ^ 32
    → x + w < 2 ^ 32 + bias
    → max x ox < min r or
    → (max x ox ≤ min r or) × (min r or < 2 ^ 32) × (min r or - max x ox < bias)
common_side x w ox ow r or e oe fits high lt = (omega arith, omega arith, omega arith)

pub intersect-Common : (a o : RectPx) → IsFit a → IsFit o → Common a o (intersect a o)
unfolding intersect
intersect-Common a o fa fo = elim (Bool-cases (ltb (max a.x o.x) (min (right a) (right o)))) [
  | inl wide ↦ elim (Bool-cases (ltb (max a.y o.y) (min (bottom a) (bottom o)))) [
    | inl high ↦
        let lx = ltb→lt _ _ wide in
        let ly = ltb→lt _ _ high in
        let (xle, xfit, xd) =
          common_side a.x a.w o.x o.w (right a) (right o) (right-IsFit a fa) (right-IsFit o fo)
            fa.w_fits fa.right_high lx in
        let (yle, yfit, yd) =
          common_side a.y a.h o.y o.h (bottom a) (bottom o) (bottom-IsFit a fa) (bottom-IsFit o fo)
            fa.h_fits fa.bottom_high ly in
        rw (wide, high) (part _ (of_sides _ _ _ _ xle yle xfit yfit xd yd) lx ly)
    | inr flat ↦
        let le = not_ltb _ _ flat in
        let ra = bottom-IsFit a fa in
        let ro = bottom-IsFit o fo in
        rw (wide, flat)
          (apart λ px py i j.
            no_room a.y a.h o.y o.h (bottom a) (bottom o) py ra ro le i.from_top i.to_bottom
              j.from_top j.to_bottom)
  ]
  | inr thin ↦
      let le = not_ltb _ _ thin in
      rw thin (
        apart λ px py i j.
          no_room a.x a.w o.x o.w (right a) (right o) px (right-IsFit a fa) (right-IsFit o fo) le
            i.from_left i.to_right j.from_left j.to_right)
]

-- The point lies between these sides.
abbrev pub In : I32 → I32 → I32 → I32 → I32 → I32 → Type 0
In l r t b px py = (l ≤ px) × (px < r) × (t ≤ py) × (py < b)

pub Inside-Spans :
    (q : RectPx) (l r t b px py : I32) → Spans q l r t b → Inside px py q ↔ In l r t b px py
Inside-Spans q l r t b px py s = (
  λ i. (
    omega (arith, i.from_left, s.x),
    omega (arith, i.to_right, s.xw),
    omega (arith, i.from_top, s.y),
    omega (arith, i.to_bottom, s.yh),
  ),
  λ (c, d, e, f). record {
    from_left = omega (arith, s.x);
    to_right = omega (arith, s.xw);
    from_top = omega (arith, s.y);
    to_bottom = omega (arith, s.yh);
  },
)

pub IsFit-Spans : (a : RectPx) → IsFit a → Spans a a.x (right a) a.y (bottom a)
IsFit-Spans a f = record {
  fits = f;
  x = refl;
  xw = sym (right-IsFit a f);
  y = refl;
  yh = sym (bottom-IsFit a f);
}

-- What lies in a region.
abbrev pub Covered : I32 → I32 → List RectPx → Type 0
Covered px py region = Any (Inside px py) region

pub push_if-Covered :
    (px py : I32) (c : Bool) (q : RectPx) (rest : List RectPx)
    → Covered px py (push_if c q ++ rest) ↔ (((c ≡ true) × Inside px py q) ⊎ Covered px py rest)
push_if-Covered px py true q rest = (
  λ x. elim x [ inl i ↦ inl (refl, i) | inr y ↦ inr y ],
  λ x. elim x [ inl (e, i) ↦ inl i | inr y ↦ inr y ],
)
push_if-Covered px py false q rest = (λ x. inr x, λ x. elim x [ inl (e, i) ↦ cc | inr y ↦ y ])

-- A box less a part of it is in four pieces.
pub four_pieces :
    (l l' r' r t t' b' b px py : I32)
    → l ≤ l'
    → l' < r'
    → r' ≤ r
    → t ≤ t'
    → t' < b'
    → b' ≤ b
    → (In l r t b px py × (In l' r' t' b' px py → ⊥)) ↔ (
        ((t < t') × In l r t t' px py)
        ⊎ (((b' < b) × In l r b' b px py)
            ⊎ (((l < l') × In l l' t' b' px py) ⊎ ((r' < r) × In r' r t' b' px py))))
four_pieces l l' r' r t t' b' b px py a c d e f g = ground arith
