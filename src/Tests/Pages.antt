-- ===== src/Tests/Pages.antt =====
-- The pages on concrete figures and events.
use trokk.Prelude.{
  ℕ, ◌≤◌, ◌≡◌, refl, true, false, List, [], ◌∷◌, ◌++◌, some, All, arith, filter, length, map, min,
  get_elem?, sum_by,
}
use mathlib.Core.List.{Perm}
use trokk.Text.{Str, str}
use trokk.Types.{MessageResponse}
use trokk.Runtime.{plain_dates}
use trokk.Http.{ok}
use trokk.Sort.{IsDown}
use trokk.Pages.Metrics.{Bar, tally, top, messages_by_hour, max_bar}
use trokk.Pages.Metrics.Laws.{HasDistinctKeys, count_of, total, tally_counts, top-IsDown}
use trokk.Pages.Metrics.Hours.{at_hour, has_hour, messages_by_hour_counts}
use trokk.Pages.Dashboard.{Investigation, Answer, Event}
use trokk.Pages.Dashboard
use trokk.Pages.Dashboard.Laws.{IsPolled, run-init-IsPolled}
use trokk.Pages.Registry.{
  Request, updates, perform, form_of, submit, start_edit, after_submit, toggle_active,
}
use trokk.Pages.Registry
use trokk.Pages.Registry.Laws.{perform-start_edit}
use trokk.Mock.Routes.Control.{set_active}
use trokk.Types.{SchedulerStatus}
use trokk.Runtime.{IsWorld}
use trokk.Hooks.Views.{loading_view, idle}
use trokk.Pages.Control.{Control, handle_pause_all, handle_resume_all}
use trokk.Pages.Control.Laws.{showing}
use trokk.Pages.Control.Shown.{page_items as control_items}
use trokk.Pages.Control.Ticks.{disabled, all_of, page_items-handle_pause_all}
use trokk.Tests.Data.{ann, hello, answer, store, env, env-IsMock}

abbrev endorsements : MessageResponse → ℕ
endorsements m = m.endorsement_count

tally_counts_example :
    HasDistinctKeys (tally store.agents endorsements (hello ∷ answer ∷ hello ∷ []))
    × (count_of (str "a1") (tally store.agents endorsements (hello ∷ answer ∷ hello ∷ [])) ≡ 6)
    × (total (tally store.agents endorsements (hello ∷ answer ∷ hello ∷ [])) ≡ 8)
tally_counts_example =
    tally_counts store.agents endorsements (str "a1") (hello ∷ answer ∷ hello ∷ [])

top-IsDown_example :
    (rest : List Bar) × Perm
      (top store.agents endorsements store.messages ++ rest)
      (map (λ e. e.bar) (tally store.agents endorsements store.messages))
    × IsDown (λ b. b.count) (top store.agents endorsements store.messages ++ rest)
    × (length (top store.agents endorsements store.messages)
        ≡ min 8 (length (tally store.agents endorsements store.messages)))
top-IsDown_example = top-IsDown store.agents endorsements store.messages

abbrev started : Investigation
started = record {
  id = str "i1";
  question = str "why?";
  status = str "in_progress";
  created_at = [];
}

abbrev dashboard_events : List Event
dashboard_events =
    Event.typed (str "why?")
    ∷ Event.start_settled (some started)
    ∷ Event.investigations_settled
        (Answer.data_of (some (record started { status = str "complete" } ∷ [])))
    ∷ Event.interval_fired
    ∷ []

run-init-IsPolled_example : IsPolled (Dashboard.run dashboard_events (Dashboard.init []))
run-init-IsPolled_example = run-init-IsPolled dashboard_events []

perform-start_edit_example :
    (r : Request) × (submit (start_edit ann Registry.init) ≡ some r)
    × (perform env r store ≡ (ok ann, store))
    × (after_submit (some ann) (start_edit ann Registry.init) ≡ start_edit ann Registry.init)
    × ((start_edit ann Registry.init).show_form ≡ true)
unfolding trokk.Text.trim
perform-start_edit_example =
    perform-start_edit env Registry.init ann store (some ann) env-IsMock (refl, refl) refl refl

messages_by_hour_counts_example :
    (get_elem? (messages_by_hour plain_dates store.messages) 1
      ≡ some (length (filter (at_hour plain_dates 1) store.messages)))
    × (sum_by (λ c. c) (messages_by_hour plain_dates store.messages)
        ≡ length (filter (has_hour plain_dates) store.messages))
    × All
        (λ c. c ≤ max_bar (messages_by_hour plain_dates store.messages))
        (messages_by_hour plain_dates store.messages)
    × (1 ≤ max_bar (messages_by_hour plain_dates store.messages))
messages_by_hour_counts_example = messages_by_hour_counts plain_dates store.messages 1 (omega arith)

abbrev control_page : Control
control_page = record { statuses = loading_view []; action = idle }

env_world-IsWorld : IsWorld env.world
env_world-IsWorld k = omega arith

page_items-handle_pause_all_example :
    ((rows : List SchedulerStatus) × (handle_pause_all env env control_page store ≡ (
      some (showing rows control_page),
      record store { agents = map (set_active false) store.agents },
    ))
      × (length rows ≡ 2)
      × (disabled (
            control_items plain_dates 9000000 store.agents
              (showing rows control_page).action.loading
              (showing rows control_page).statuses
              (loading_view []))
          ≡ false ∷ false ∷ false ∷ all_of true rows))
    × ((rows : List SchedulerStatus) × (handle_resume_all env env control_page store ≡ (
      some (showing rows control_page),
      record store { agents = map (set_active true) store.agents },
    ))
        × (length rows ≡ 2)
        × (disabled (
              control_items plain_dates 9000000 store.agents
                (showing rows control_page).action.loading
                (showing rows control_page).statuses
                (loading_view []))
            ≡ false ∷ false ∷ false ∷ all_of false rows))
page_items-handle_pause_all_example =
    page_items-handle_pause_all plain_dates 9000000 store.agents env env control_page store
      (loading_view []) env-IsMock env-IsMock env_world-IsWorld
