-- ===== src/Runtime.antt =====
-- What the program takes from its JavaScript engine: the clock, `Math.random` and the `Date`
-- conversions. An engine is a parameter; the readings of the clock and the draws are streams.
use trokk.Prelude.{ℕ, suc, ◌/◌, ◌%◌, ◌^◌, ◌<◌, ◌≡◌, refl, [], ◌∷◌}
use trokk.Text.{Str, str}
use trokk.Types.{AgentPersonality}

-- `toISOString`, `getTime` and `getHours` (in the engine's time zone), with what the standard says
-- of them: a time survives its print. An hour of a valid date is below 24; 24 or more stands for the
-- `NaN` of a text that is no date.
pub record Dates : Type 0 where
  pub to_iso : ℕ → Str
  pub get_time : Str → ℕ
  pub get_hours : Str → ℕ
  pub get_time-to_iso : (t : ℕ) → get_time (to_iso t) ≡ t

-- The k-th reading of `Date.now()` from here on, in milliseconds, and the k-th draw of
-- `Math.random()`, in units of 1 / 2^53; and what a field that is absent at run time counts as where
-- its type has no `undefined`, of which nothing is assumed.
pub record World : Type 0 where
  pub clock : ℕ → ℕ
  pub draw : ℕ → ℕ
  pub absent_text : Str
  pub absent_personality : AgentPersonality

abbrev pub after_now : World → World
after_now w = record w { clock = λ k. w.clock (suc k) }

abbrev pub after_draw : World → World
after_draw w = record w { draw = λ k. w.draw (suc k) }

-- Draws are below one.
abbrev pub IsWorld : World → Type 0
IsWorld w = (k : ℕ) → w.draw k < 2 ^ 53

-- An engine to run the model in: it prints a time as a single unit.
pub plain_time : Str → ℕ
plain_time [] = 0
plain_time (t ∷ _) = t

pub plain_hours : Str → ℕ
unfolding plain_time
plain_hours s = plain_time s / 3600000 % 24

pub plain_time_iso : (t : ℕ) → plain_time (t ∷ []) ≡ t
unfolding plain_time
plain_time_iso t = refl

unfoldable pub plain_dates : Dates
unfolding plain_time plain_hours
plain_dates = record {
  to_iso = λ t. t ∷ [];
  get_time = plain_time;
  get_hours = plain_hours;
  get_time-to_iso = plain_time_iso;
}

-- A world whose clock and draws stand still.
abbrev pub still : ℕ → World
still t = record {
  clock = λ k. t;
  draw = λ k. 2 ^ 52;
  absent_text = str "undefined";
  absent_personality = record {
    domain = [];
    temperament = [];
    communication_style = [];
    knowledge_datasets = [];
  };
}
