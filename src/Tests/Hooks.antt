-- ===== src/Tests/Hooks.antt =====
-- The hooks on concrete sequences of events.
use trokk.Prelude.{ℕ, ◌+◌, ◌≡◌, ◌≢◌, refl, true, false, List, [], ◌∷◌, Option, none, some}
use trokk.Text.{Str, str}
use trokk.Types.{Agent, MessageResponse, CursorPaginatedMessages}
use trokk.Polling
use trokk.Hooks.{Settled, resolved, rejected, View}
use trokk.Hooks.Health.{use_health}
use trokk.Hooks.Health
use trokk.Hooks.Health.Chains.{chains, added, run-use_health-chains}
use trokk.Hooks.Poller.{Hook, Event, fires, settles, interval_changed, unmount, mount, step, run}
use trokk.Hooks.Poller.Leaks.{timers_of, run-mount-timers}
use trokk.Hooks.Views.{use_agents, loading_view, no_messages, show_latest, Action}
use trokk.Hooks.Loading.{Serves, last, more, load_times, IsComplete, load_times-show_latest}
use trokk.Hooks.Stats.{StatsView}
use trokk.Hooks.Actions.{Press, pauses, resumes}
use trokk.Prelude.{◌++◌}
use trokk.Tests.Data.{ann, hello, answer}

abbrev agents_events : List (Event (List Agent))
agents_events =
    settles (resolved (ann ∷ []))
    ∷ interval_changed
    ∷ fires 0
    ∷ interval_changed
    ∷ settles (rejected (str "x"))
    ∷ []

abbrev agents_hook : Hook (View (List Agent))
agents_hook = mount use_agents Polling.init (loading_view [])

run-mount-timers_example :
    (timers_of (run use_agents Polling.init agents_hook agents_events) ≡ 3)
    × (timers_of (
          step use_agents Polling.init
            (run use_agents Polling.init agents_hook agents_events)
            unmount)
        ≡ 2)
run-mount-timers_example =
    run-mount-timers use_agents Polling.init (loading_view []) agents_events
      (refl, (refl, (refl, (refl, (refl, tt)))))

abbrev health_events : List Health.Event
health_events = Health.interval_changed ∷ Health.settles (rejected (str "x")) ∷ Health.fires 0 ∷ []

changed_ne : Health.interval_changed ≢ Health.unmount
changed_ne h = cc

settled_ne : Health.settles (rejected (str "x")) ≢ Health.unmount
settled_ne h = cc

fired_ne : Health.fires 0 ≢ Health.unmount
fired_ne h = cc

run-use_health-chains_example :
    chains (Health.run Polling.init use_health health_events)
    ≡ 1 + added Polling.init use_health health_events
run-use_health-chains_example =
    run-use_health-chains Polling.init health_events (changed_ne, (settled_ne, (fired_ne, tt)))

-- A backend of two pages.
abbrev pages : Option Str → Settled CursorPaginatedMessages
pages none =
    resolved
      (record { messages = answer ∷ []; next_cursor = some (str "msg-002"); has_more = true })
pages (some c) = resolved (record { messages = hello ∷ []; next_cursor = none; has_more = false })

pages-Serves : Serves pages none (answer ∷ hello ∷ [])
pages-Serves =
    more none (answer ∷ []) (hello ∷ []) b'm' (str "sg-002") refl
      (last (some (str "msg-002")) (hello ∷ []) none refl)

load_times-show_latest_example :
    ((n : ℕ) × IsComplete pages
        (answer ∷ hello ∷ [])
        (load_times pages n (show_latest (pages none) no_messages)))
    × ((tail : List MessageResponse) × ((load_times pages 1
              (show_latest (pages none) no_messages)).messages
            ++ tail
          ≡ answer ∷ hello ∷ []))
    × (show_latest (pages none) (load_times pages 1 (show_latest (pages none) no_messages))
        ≡ show_latest (pages none) no_messages)
load_times-show_latest_example =
    load_times-show_latest pages (answer ∷ hello ∷ []) no_messages 1 pages-Serves

abbrev stats_view : StatsView
stats_view = record {
  stats = record {
    total_agents = 0;
    active_agents = 0;
    total_messages = 0;
    messages_last_hour = 0;
  };
  loading = true;
}

abbrev idle : Action
idle = record { loading = false; error = none }

abbrev presses : List Press
presses = pauses (rejected (str "offline")) ∷ resumes (resolved 8) ∷ []
