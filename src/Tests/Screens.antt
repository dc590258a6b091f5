-- ===== src/Tests/Screens.antt =====
-- The registry and the profile over their hooks, on concrete events.
use trokk.Prelude.{◌+◌, ◌≡◌, refl, false, List, [], ◌∷◌, none, some, if◌then◌else◌, ◌++◌, true}
use trokk.Text.{Str, str}
use trokk.Types.{Agent, AgentWithStats}
use trokk.Ui.{each, skeletons, has_error}
use trokk.Polling
use trokk.Hooks.{View, resolved, rejected}
use trokk.Hooks.Poller.{Hook, Event, mount, run, step}
use trokk.Hooks.Views.{use_agents, loading_view}
use trokk.Mock.Routes.Agents.{as_update}
use trokk.Pages.Registry.{Page, updates, start_edit, submit, is_blank, handle_submit}
use trokk.Pages.Registry
use trokk.Pages.Registry.View.{Field, section_items, card_items, error_items}
use trokk.Pages.Registry.Sections.{run-section_items}
use trokk.Pages.Registry.Form.{change_all, submit-change_all}
use trokk.Service.Agents.{no_stats}
use trokk.Pages.Registry.Create.{section_items-submit}
use trokk.Runtime.{after_draw}
use trokk.Http.{ok}
use trokk.Mock.{Store}
use trokk.Mock.Routes.Agents.{new_agent}
use trokk.Service.{get_agents}
use trokk.Tests.Data.{ann, bob, store, new_form, env, env-IsMock, plain_locale}

abbrev events : List (Event (List Agent))
events =
    Event.settles (resolved (ann ∷ bob ∷ []))
    ∷ Event.fires 0
    ∷ Event.settles (rejected (str "offline"))
    ∷ []

abbrev shown : View (List Agent)
shown = (run use_agents Polling.init (mount use_agents Polling.init (loading_view [])) events).view

run-section_items_example : section_items plain_locale shown ≡ (
    if shown.loading
    then skeletons 12
    else if has_error shown.error
    then error_items
    else each (card_items plain_locale) shown.value)
run-section_items_example = run-section_items plain_locale Polling.init events

abbrev ann_detail : AgentWithStats
ann_detail = record { agent = ann; stats = no_stats }

abbrev typed : List (Field × Str)
typed =
    (Field.username, str "eve")
    ∷ (Field.display_name, str "Anna")
    ∷ (Field.domain, str "nft_artist")
    ∷ []

submit-change_all_example :
    ((change_all typed (start_edit ann Registry.init)).form.username ≡ str "ann-01")
    × (submit (change_all typed (start_edit ann Registry.init)) ≡ (
        if is_blank (change_all typed (start_edit ann Registry.init)).form
        then none
        else some (
            updates (str "a1") (as_update (change_all typed (start_edit ann Registry.init)).form))))
submit-change_all_example = submit-change_all ann typed Registry.init refl

abbrev filled_page : Page
filled_page = record Registry.init { show_form = true; form = new_form }

abbrev created : Agent
created = new_agent env.dates (after_draw env.world) store filled_page.form

abbrev with_created : Store
with_created = record store { agents = ann ∷ bob ∷ created ∷ [] }

abbrev submitted : Page × Hook (View (List Agent)) × Store
submitted =
    handle_submit env Polling.init filled_page (mount use_agents Polling.init (loading_view []))
      store

section_items-submit_example :
    (submitted.2 ≡ with_created)
    × (submitted.0.show_form ≡ false)
    × (submitted.0.editing_id ≡ none)
    × (submitted.0.form.username ≡ [])
    × (submitted.1.in_flight ≡ (mount use_agents Polling.init (loading_view [])).in_flight + 1)
    × (get_agents env submitted.2 ≡ (ok with_created.agents, with_created))
    × (section_items plain_locale
          (step use_agents Polling.init submitted.1
            (Event.settles (resolved with_created.agents))).view
        ≡ each (card_items plain_locale) store.agents ++ card_items plain_locale created)
unfolding trokk.Text.trim Registry.init
section_items-submit_example =
    section_items-submit env env plain_locale Polling.init
      (mount use_agents Polling.init (loading_view [])) filled_page store env-IsMock env-IsMock refl
      refl
