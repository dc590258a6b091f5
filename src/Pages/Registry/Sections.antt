-- ===== src/Pages/Registry/Sections.antt =====
-- The registry over its hook `useAgents`: what stands below its header through every sequence of events.
use trokk.Prelude.{◌≡◌, refl, List, [], ◌∷◌, if◌then◌else◌, arith}
use trokk.Types.{Agent}
use trokk.Ui.{each, skeletons, has_error, Locale}
use trokk.Polling
use trokk.Hooks.{View}
use trokk.Hooks.Poller.{mount, run, step, Hook, Event}
use trokk.Hooks.Views.{use_agents, loading_view}
use trokk.Pages.Sections.{IsExclusive, settle-IsExclusive, one_shown}
use trokk.Pages.Registry.View.{section_items, card_items, error_items}

step-IsExclusive :
    (p : Polling.Store) (h : Hook (View (List Agent))) (e : Event (List Agent))
    → IsExclusive h.view
    → IsExclusive (step use_agents p h e).view
unfolding step use_agents
step-IsExclusive p h (Event.fires i) k = ground arith
step-IsExclusive p h (Event.settles r) k = ground (arith, settle-IsExclusive r h.view)
step-IsExclusive p h Event.interval_changed k = ground arith
step-IsExclusive p h Event.refresh k = k
step-IsExclusive p h Event.unmount k = k

run-IsExclusive :
    (p : Polling.Store) (h : Hook (View (List Agent))) (es : List (Event (List Agent)))
    → IsExclusive h.view
    → IsExclusive (run use_agents p h es).view
unfolding run
run-IsExclusive p h [] k = k
run-IsExclusive p h (e ∷ es) k =
    run-IsExclusive p (step use_agents p h e) es (step-IsExclusive p h e k)

mount-IsExclusive : (p : Polling.Store) → IsExclusive (mount use_agents p (loading_view [])).view
unfolding mount use_agents
mount-IsExclusive p = refl

shown_section :
    (loc : Locale) (v : View (List Agent))
    → IsExclusive v
    → section_items loc v ≡ (
        if v.loading
        then skeletons 12
        else if has_error v.error
        then error_items
        else each (card_items loc) v.value)
unfolding section_items
shown_section loc v h =
    one_shown v.loading (has_error v.error) (skeletons 12) error_items
      (each (card_items loc) v.value) h

-- Through every sequence of events of `useAgents` from the mount, with any polling intervals, what the
-- page shows below its header is exactly one of the three: the skeletons while it loads, then the
-- error if there is one, or the cards of the agents that the hook has.
pub run-section_items :
    (loc : Locale) (p : Polling.Store) (es : List (Event (List Agent)))
    → let v = (run use_agents p (mount use_agents p (loading_view [])) es).view in
      section_items loc v ≡ (
        if v.loading
        then skeletons 12
        else if has_error v.error
        then error_items
        else each (card_items loc) v.value)
run-section_items loc p es =
    shown_section loc (run use_agents p (mount use_agents p (loading_view [])) es).view
      (run-IsExclusive p (mount use_agents p (loading_view [])) es (mount-IsExclusive p))
