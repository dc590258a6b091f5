-- ===== src/Pages/Control.antt =====
-- ferr/src/app/control/page.tsx: the three handlers of the control page, over the hooks
-- `useControlActions` and `useSchedulerStatus`. `later` is the engine when the page asks again.
pub mod Laws
pub mod Shown
pub mod Sections
pub mod Ticks
use trokk.Prelude.{ℕ, Bool, List, Option, none, some}
use trokk.Text.{Str}
use trokk.Types.{SchedulerStatus}
use trokk.Http.{Outcome, ok, throw, untyped}
use trokk.Mock.{Store}
use trokk.Client.{Env}
use trokk.Service.{get_scheduler_status, trigger_agent_tick, pause_all_agents, resume_all_agents}
use trokk.Hooks.{Settled, resolved, rejected, View, message_of}
use trokk.Hooks.Views.{Action, use_scheduler_status, trigger_tick, pause_all, resume_all}

pub record Control : Type 0 where
  pub statuses : View (List SchedulerStatus)
  pub action : Action

-- `none`: the value is not of the promised type, and the page cannot show it.
abbrev pub settled_of {ℓ} : {A : Type ℓ} → Outcome A → Option (Settled A)
settled_of (ok a) = some (resolved a)
settled_of (throw f) = some (rejected (message_of f))
settled_of untyped = none

abbrev pub shown : Control → Option (Settled (List SchedulerStatus)) → Option Control
shown c none = none
shown c (some r) = some (record c { statuses = use_scheduler_status r c.statuses })

-- `refresh` of `useSchedulerStatus`
unfoldable pub refresh : Env → Control → Store → Option Control × Store
refresh e c s = let (o, t) = get_scheduler_status e s in (shown c (settled_of o), t)

-- `if (result) refresh()`
abbrev pub if_result {ℓ} :
    {A : Type ℓ} → Env → Control → Store → Option A × Action → Option Control × Store
if_result later c s (none, v) = (some (record c { action = v }), s)
if_result later c s (some a, v) = refresh later (record c { action = v }) s

-- The rest of `handlePauseAll` once the request has settled, `handleResumeAll` and `handleTrigger`
-- likewise. The last asks again whatever the request returned.
abbrev pub after_pause : Env → Control → Store → Option (Settled ℕ) → Option Control × Store
after_pause later c s none = (none, s)
after_pause later c s (some r) = if_result later c s (pause_all r c.action)

abbrev pub after_resume : Env → Control → Store → Option (Settled ℕ) → Option Control × Store
after_resume later c s none = (none, s)
after_resume later c s (some r) = if_result later c s (resume_all r c.action)

abbrev pub after_tick :
    Env → Control → Store → Option (Settled (Bool × Str)) → Option Control × Store
after_tick later c s none = (none, s)
after_tick later c s (some r) = refresh later (record c { action = (trigger_tick r c.action).1 }) s

unfoldable pub handle_pause_all : Env → Env → Control → Store → Option Control × Store
unfolding refresh
handle_pause_all e later c s =
    let (o, t) = pause_all_agents e s in after_pause later c t (settled_of o)

unfoldable pub handle_resume_all : Env → Env → Control → Store → Option Control × Store
unfolding refresh
handle_resume_all e later c s =
    let (o, t) = resume_all_agents e s in after_resume later c t (settled_of o)

unfoldable pub handle_trigger : Env → Env → Str → Control → Store → Option Control × Store
unfolding refresh
handle_trigger e later agent_id c s =
    let (o, t) = trigger_agent_tick e agent_id s in after_tick later c t (settled_of o)
