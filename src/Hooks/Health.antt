-- ===== src/Hooks/Health.antt =====
-- ferr/src/lib/api/hooks.ts: `useHealth`, which schedules the next request when one has settled.
pub mod Chains
use trokk.Prelude.{
  ℕ, zero, suc, ◌+◌, ◌-◌, Bool, true, false, List, [], ◌∷◌, Option, none, some, if◌then◌else◌, ltb,
}
use trokk.Types.{HealthStatus}
use trokk.Polling.{get_polling_interval}
use trokk.Polling
use trokk.Hooks.{Settled, View, settle}
use trokk.Hooks.Timers.{Timers, set_timeout, clear_timeout, remove, waits}

pub record Hook : Type 0 where
  pub view : View (Option HealthStatus)
  pub active : Bool
  pub timeout : Option ℕ
  pub timers : Timers
  pub in_flight : ℕ
  pub subscribed : Bool

pub data Event : Type 0 where
  fires : ℕ → Event
  settles : Settled HealthStatus → Event
  interval_changed : Event
  unmount : Event

abbrev pub fetch : Hook → Hook
fetch h = record h { in_flight = h.in_flight + 1 }

-- `if (!active) return; timeout = setTimeout(fetch, getPollingInterval("health"))`
abbrev pub schedule : Polling.Store → Hook → Hook
schedule p h =
    if h.active
    then record h {
      timeout = some h.timers.next;
      timers = set_timeout (get_polling_interval p Polling.Key.health) h.timers;
    }
    else h

abbrev as_option : Settled HealthStatus → Settled (Option HealthStatus)
as_option (Settled.resolved s) = Settled.resolved (some s)
as_option (Settled.rejected text) = Settled.rejected text

-- `then`, `catch` and `finally` of the request
abbrev settled : Polling.Store → Settled HealthStatus → Hook → Hook
settled p r h = if h.active then schedule p (record h { view = settle (as_option r) h.view }) else h

-- The effect at the mount.
unfoldable pub use_health : Hook
use_health = fetch (record {
  view = record { value = none; loading = true; error = none };
  active = true;
  timeout = none;
  timers = record { next = 0; pending = [] };
  in_flight = 0;
  subscribed = true;
})

-- An event that cannot happen changes nothing: a timer that does not wait, a request that was not
-- made, a listener that is not in the set.
unfoldable pub step : Polling.Store → Hook → Event → Hook
step p h (fires i) =
    if waits i h.timers.pending
    then fetch (record h { timers = record h.timers { pending = remove i h.timers.pending } })
    else h
step p h (settles r) =
    if ltb 0 h.in_flight then settled p r (record h { in_flight = h.in_flight - 1 }) else h
step p h interval_changed =
    if h.subscribed then schedule p (record h { timers = clear_timeout h.timeout h.timers }) else h
step p h unmount = record h {
  active = false;
  timers = clear_timeout h.timeout h.timers;
  subscribed = false;
}

unfoldable pub run : Polling.Store → Hook → List Event → Hook
unfolding step
run p h [] = h
run p h (e ∷ es) = run p (step p h e) es
