-- ===== src/Tests/Intervals.antt =====
-- A hook that polls by `setInterval`, on concrete events.
use trokk.Prelude.{◌+◌, ◌≤◌, ◌≡◌, refl, List, [], ◌∷◌, arith}
use trokk.Text.{str}
use trokk.Types.{SchedulerStatus}
use trokk.Hooks.{resolved, rejected}
use trokk.Hooks.Interval.{Event, mount, step, run}
use trokk.Hooks.Interval.Laws.{run-mount_interval}
use trokk.Hooks.Interval.Ends.{run-mount_ends}
use trokk.Hooks.Views.{scheduler_status, loading_view}

abbrev events : List (Event (List SchedulerStatus))
events = Event.settles (resolved []) ∷ Event.fires 4 ∷ Event.refresh ∷ Event.unmount ∷ []

abbrev later : List (Event (List SchedulerStatus))
later = Event.fires 4 ∷ Event.settles (resolved []) ∷ Event.settles (rejected (str "x")) ∷ []

run-mount_interval_example :
    ((run scheduler_status (mount scheduler_status 4 (loading_view [])) events).set ≡ [])
    × ((run scheduler_status
          (run scheduler_status (mount scheduler_status 4 (loading_view [])) events)
          later).in_flight
        ≤ (run scheduler_status (mount scheduler_status 4 (loading_view [])) events).in_flight
          + 0
          + 0)
run-mount_interval_example = run-mount_interval scheduler_status 4 (loading_view []) events later

run-mount_ends_example :
    ((run scheduler_status
        (run scheduler_status (mount scheduler_status 4 (loading_view [])) events)
        later).in_flight
      ≡ 0)
    × (run scheduler_status
          (run scheduler_status
            (run scheduler_status (mount scheduler_status 4 (loading_view [])) events)
            later)
          (Event.fires 4 ∷ [])
        ≡ run scheduler_status
            (run scheduler_status (mount scheduler_status 4 (loading_view [])) events)
            later)
unfolding run mount step scheduler_status
run-mount_ends_example =
    run-mount_ends scheduler_status 4 (loading_view []) events later (Event.fires 4 ∷ []) refl refl
      refl (omega arith)
