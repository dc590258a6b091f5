-- ===== src/Icon/Shapes.antt =====
-- ferr/src/components/Icon.tsx: the elements of an svg. Attributes are kept as they are written.
use trokk.Prelude.{List, Option}
use trokk.Text.{Str}

pub data Shape : Type 0 where
  path polyline polygon : Str → Shape
  circle : Str → Str → Str → Shape
  line : Str → Str → Str → Str → Shape
  rect : Str → Str → Str → Str → Option Str → Shape

-- Lines of a width, or an area; every svg has the view box 0 0 24 24.
pub data Paint : Type 0 where
  outline : Str → Paint
  filled : Paint

pub record Drawing : Type 0 where
  pub paint : Paint
  pub shapes : List Shape
