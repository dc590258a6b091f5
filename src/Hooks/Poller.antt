-- ===== src/Hooks/Poller.antt =====
-- ferr/src/lib/api/hooks.ts: the effect that `useAgents`, `useAgent` and `useMessages` share. Each
-- timer makes a request and schedules the next timer, whether or not the request has settled.
pub mod Leaks
use trokk.Prelude.{
  ℕ, zero, suc, ◌+◌, ◌-◌, Bool, true, false, List, [], ◌∷◌, Option, none, some, if◌then◌else◌, ltb,
}
use trokk.Polling.{Key, get_polling_interval}
use trokk.Polling
use trokk.Hooks.{Settled}
use trokk.Hooks.Timers.{Timers, set_timeout, clear_timeout, remove, waits}

pub record Hook (S : Type 0) : Type 0 where
  pub view : S
  pub active : Bool
  pub timeout : Option ℕ
  pub timers : Timers
  pub in_flight : ℕ
  pub subscribed : Bool

pub data Event (A : Type 0) : Type 0 where
  fires : ℕ → Event A
  settles : Settled A → Event A
  interval_changed : Event A
  refresh : Event A
  unmount : Event A

-- What a hook adds to the shared effect: the interval that it reads, what its `fetch` sets before
-- the request, and what it sets when the request has settled.
pub record Spec (S A : Type 0) : Type 0 where
  pub key : Key
  pub before : S → S
  pub after : Settled A → S → S

module _ {S A : Type 0} (spec : Spec S A) where
  abbrev pub fetch : Hook S → Hook S
  fetch h = record h { view = spec.before h.view; in_flight = h.in_flight + 1 }

  -- `if (!active) return; timeout = setTimeout(() => { fetch(); schedule(); }, …)`
  abbrev pub schedule : Polling.Store → Hook S → Hook S
  schedule p h =
      if h.active
      then record h {
        timeout = some h.timers.next;
        timers = set_timeout (get_polling_interval p spec.key) h.timers;
      }
      else h

  -- The effect at the mount: subscribe, fetch, schedule.
  unfoldable pub mount : Polling.Store → S → Hook S
  mount p initial = schedule p (
      fetch (record {
        view = initial;
        active = true;
        timeout = none;
        timers = record { next = 0; pending = [] };
        in_flight = 0;
        subscribed = true;
      }))

  -- An event that cannot happen changes nothing. The handlers of a request do not look at `active`,
  -- and the listener is `schedule` itself: it clears nothing.
  unfoldable pub step : Polling.Store → Hook S → Event A → Hook S
  step p h (fires i) =
      if waits i h.timers.pending
      then schedule p
          (fetch (record h { timers = record h.timers { pending = remove i h.timers.pending } }))
      else h
  step p h (settles r) =
      if ltb 0 h.in_flight
      then record h { view = spec.after r h.view; in_flight = h.in_flight - 1 }
      else h
  step p h interval_changed = if h.subscribed then schedule p h else h
  step p h refresh = fetch h
  step p h unmount = record h {
    active = false;
    timers = clear_timeout h.timeout h.timers;
    subscribed = false;
  }

  unfoldable pub run : Polling.Store → Hook S → List (Event A) → Hook S
  unfolding step
  run p h [] = h
  run p h (e ∷ es) = run p (step p h e) es
