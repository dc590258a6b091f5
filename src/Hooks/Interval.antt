-- ===== src/Hooks/Interval.antt =====
-- ferr/src/lib/api/hooks.ts: the effect that `useSchedulerStatus` and `useQuickStats` share. It makes
-- a request, and sets an interval that makes the next ones until the component unmounts.
pub mod Laws
pub mod Ends
use trokk.Prelude.{
  ℕ, ◌+◌, ◌-◌, ◌==◌, Bool, true, false, ◌||◌, not, List, [], ◌∷◌, Option, none, some, filter,
  if◌then◌else◌, ltb,
}
use trokk.Hooks.{Settled}

-- The intervals of the engine that are set: each with its number and its period.
pub record Interval : Type 0 where
  pub id : ℕ
  pub period : ℕ

-- `interval` is the variable that the cleanup closes over; `in_flight` counts requests under way.
pub record Hook (S : Type 0) : Type 0 where
  pub view : S
  pub interval : ℕ
  pub set : List Interval
  pub next : ℕ
  pub in_flight : ℕ

-- The interval with this number fires, a request settles, the page calls `refresh`, or the component
-- unmounts.
pub data Event (A : Type 0) : Type 0 where
  fires : ℕ → Event A
  settles : Settled A → Event A
  refresh : Event A
  unmount : Event A

abbrev is_set : ℕ → List Interval → Bool
is_set i [] = false
is_set i (x ∷ xs) = x.id == i || is_set i xs

-- What a hook adds: the period, and what its `fetch` sets when the request has settled.
pub record Spec (S A : Type 0) : Type 0 where
  pub period : ℕ
  pub after : Settled A → S → S

module _ {S A : Type 0} (spec : Spec S A) where
  abbrev pub fetch : Hook S → Hook S
  fetch h = record h { in_flight = h.in_flight + 1 }

  -- `const interval = setInterval(fetch, period)`
  abbrev set_interval : Hook S → Hook S
  set_interval h = record h {
    interval = h.next;
    set = record { id = h.next; period = spec.period } ∷ h.set;
    next = h.next + 1;
  }

  -- `clearInterval(interval)`
  abbrev clear_interval : Hook S → Hook S
  clear_interval h = record h { set = filter (λ x. not (x.id == h.interval)) h.set }

  -- The effect at the mount, where the engine's next number is `next`.
  unfoldable pub mount : ℕ → S → Hook S
  mount next initial =
      set_interval
        (fetch (record { view = initial; interval = 0; set = []; next = next; in_flight = 0 }))

  -- An event that cannot happen changes nothing.
  unfoldable pub step : Hook S → Event A → Hook S
  step h (fires i) = if is_set i h.set then fetch h else h
  step h (settles r) =
      if ltb 0 h.in_flight
      then record h { view = spec.after r h.view; in_flight = h.in_flight - 1 }
      else h
  step h refresh = fetch h
  step h unmount = clear_interval h

  unfoldable pub run : Hook S → List (Event A) → Hook S
  unfolding step
  run h [] = h
  run h (e ∷ es) = run (step h e) es
