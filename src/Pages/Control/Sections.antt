-- ===== src/Pages/Control/Sections.antt =====
-- The control page over its hook `useSchedulerStatus`: what stands in the place of the table.
use trokk.Prelude.{ℕ, ◌≡◌, refl, Bool, List, [], ◌∷◌, if◌then◌else◌, arith}
use trokk.Types.{Agent, SchedulerStatus}
use trokk.Runtime.{Dates}
use trokk.Ui.{skeletons, has_error}
use trokk.Hooks.{View}
use trokk.Hooks.Interval.{mount, run, step, Hook, Event}
use trokk.Hooks.Views.{scheduler_status, loading_view}
use trokk.Pages.Sections.{IsExclusive, settle-IsExclusive, one_shown}
use trokk.Pages.Control.Shown.{status_items, table_items, error_items}

step-IsExclusive :
    (h : Hook (View (List SchedulerStatus))) (e : Event (List SchedulerStatus))
    → IsExclusive h.view
    → IsExclusive (step scheduler_status h e).view
unfolding step scheduler_status
step-IsExclusive h (Event.fires i) k = ground arith
step-IsExclusive h (Event.settles r) k = ground (arith, settle-IsExclusive r h.view)
step-IsExclusive h Event.refresh k = k
step-IsExclusive h Event.unmount k = k

run-IsExclusive :
    (h : Hook (View (List SchedulerStatus))) (es : List (Event (List SchedulerStatus)))
    → IsExclusive h.view
    → IsExclusive (run scheduler_status h es).view
unfolding run
run-IsExclusive h [] k = k
run-IsExclusive h (e ∷ es) k =
    run-IsExclusive (step scheduler_status h e) es (step-IsExclusive h e k)

mount-IsExclusive : (next : ℕ) → IsExclusive (mount scheduler_status next (loading_view [])).view
unfolding mount
mount-IsExclusive next = refl

module _ (d : Dates) (clock : ℕ) (agents : List Agent) (busy : Bool) where
  shown_status :
      (v : View (List SchedulerStatus))
      → IsExclusive v
      → status_items d clock agents busy v ≡ (
          if v.loading
          then skeletons 10
          else if has_error v.error
          then error_items
          else table_items d clock agents busy v.value)
  unfolding status_items
  shown_status v h =
      one_shown v.loading (has_error v.error) (skeletons 10) error_items
        (table_items d clock agents busy v.value) h

  -- Through every sequence of events of `useSchedulerStatus` from the mount, the page shows exactly one
  -- of the three: the skeletons while it loads, then the error if there is one, or the table of the
  -- states that the hook has.
  run-status_items :
      (next : ℕ) (es : List (Event (List SchedulerStatus)))
      → let v = (run scheduler_status (mount scheduler_status next (loading_view [])) es).view in
        status_items d clock agents busy v ≡ (
          if v.loading
          then skeletons 10
          else if has_error v.error
          then error_items
          else table_items d clock agents busy v.value)
  run-status_items next es =
      let start = mount scheduler_status next (loading_view []) in
      shown_status (run scheduler_status start es).view
        (run-IsExclusive start es (mount-IsExclusive next))
