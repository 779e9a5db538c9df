-- ===== src/Core/Overlay/Tests.antt =====
-- The border of one window behind another.
use clave.Prelude.{◌+◌, ◌≡◌, refl, ◌↔◌, arith, List, [], ◌∷◌}
use clave.Platform.Types.{WindowId-discrete}
use clave.Core.Overlay.{bias, new_rect, WindowGeom, default_border, recompute_frames}
use clave.Core.Overlay.Points.{IsFit}
use clave.Core.Overlay.Frames.{Drawn, OnBorder, recompute_frames-OnBorder}

abbrev behind_window : WindowGeom
behind_window = record {
  window = record { id = 1 };
  rect = new_rect bias bias (bias + 100) (bias + 100);
}

abbrev front_window : WindowGeom
front_window = record {
  window = record { id = 2 };
  rect = new_rect bias bias (bias + 100) (bias + 50);
}

abbrev desktop : List WindowGeom
desktop = front_window ∷ behind_window ∷ []

behind-IsFit : IsFit (behind_window.rect)
behind-IsFit = record {
  x_fits = omega arith;
  y_fits = omega arith;
  w_fits = omega arith;
  h_fits = omega arith;
  right_low = omega arith;
  right_high = omega arith;
  bottom_low = omega arith;
  bottom_high = omega arith;
}

front-IsFit : IsFit (front_window.rect)
front-IsFit = record {
  x_fits = omega arith;
  y_fits = omega arith;
  w_fits = omega arith;
  h_fits = omega arith;
  right_low = omega arith;
  right_high = omega arith;
  bottom_low = omega arith;
  bottom_high = omega arith;
}

-- The point at (1, 60), on the left border of the window behind
recompute_frames-OnBorder_example :
    Drawn (bias + 1) (bias + 60) (recompute_frames desktop (record { id = 1 } ∷ []) default_border)
    ↔ OnBorder (bias + 1) (bias + 60) (record { id = 1 } ∷ []) (bias + 3) [] desktop
recompute_frames-OnBorder_example =
    recompute_frames-OnBorder (bias + 1) (bias + 60) desktop (record { id = 1 } ∷ []) default_border
      (front-IsFit, (behind-IsFit, tt))

-- The top border of the window behind is hidden; the rest of it is drawn.
hidden_top :
    recompute_frames desktop (record { id = 1 } ∷ []) default_border
    ≡ record {
      window = record { id = 1 };
      color = default_border.color;
      segments =
          new_rect bias (bias + 97) (bias + 100) (bias + 3)
          ∷ new_rect bias (bias + 50) (bias + 3) (bias + 47)
          ∷ new_rect (bias + 97) (bias + 50) (bias + 3) (bias + 47)
          ∷ [];
    }
      ∷ []
unfolding recompute_frames WindowId-discrete native.Mathlib.Decide.ℕ_discrete
hidden_top = refl
