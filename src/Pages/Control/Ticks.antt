-- ===== src/Pages/Control/Ticks.antt =====
-- ferr/src/app/control/page.tsx: the buttons that the page shows after its bulk actions.
use mathlib.Core.List.{append-nil}
use trokk.Prelude.{
  ℕ, ◌≡◌, refl, Bool, true, false, ◌||◌, not, List, [], ◌∷◌, ◌++◌, some, length, map, All,
}
use trokk.Types.{Agent, SchedulerStatus, CronConfig}
use trokk.Runtime.{Dates, IsWorld}
use trokk.Mock.{Store}
use trokk.Mock.Routes.Control.{set_active}
use trokk.Client.{Env}
use trokk.Service.Laws.{IsMock}
use trokk.Ui.{Item, button, each, collect, collect-append, collects}
use trokk.Hooks.{View}
use trokk.Pages.Control.{Control, handle_pause_all, handle_resume_all}
use trokk.Pages.Control.Laws.{showing, handle_pause_all-handle_resume_all}
use trokk.Pages.Control.Shown.{row_items, config_items, configs_items, status_items, page_items}

abbrev flag_of : Item → List Bool
flag_of (button label disabled) = disabled ∷ []
flag_of _ = []

-- Whether each button of a page is disabled, in order.
abbrev pub disabled : List Item → List Bool
disabled items = collect flag_of items

disabled-config_items :
    (d : Dates) (clock : ℕ) (cs : List CronConfig) → disabled (each (config_items d clock) cs) ≡ []
disabled-config_items d clock [] = refl
disabled-config_items d clock (c ∷ cs) = disabled-config_items d clock cs

or_false : (b : Bool) → (b || false) ≡ b
or_false true = refl
or_false false = refl

-- The same flag for each of a list.
abbrev pub all_of {ℓ} : {A : Type ℓ} → Bool → List A → List Bool
all_of b xs = map (λ x. b) xs

disabled-configs_items :
    (d : Dates) (clock : ℕ) (v : View (List CronConfig)) → disabled (configs_items d clock v) ≡ []
unfolding configs_items
disabled-configs_items d clock v = simp (collects, disabled-config_items d clock v.value)

module _ (d : Dates) (clock : ℕ) (agents : List Agent) where
  disabled-row_items :
      (b : Bool) (rows : List SchedulerStatus)
      → All (λ r. r.active ≡ b) rows
      → disabled (each (row_items d clock agents false) rows) ≡ all_of (not b) rows
  unfolding row_items
  disabled-row_items b [] h = refl
  disabled-row_items b (r ∷ rows) h = rw (h.0, disabled-row_items b rows h.1, or_false (not b)) refl

  disabled-page_items :
      (b : Bool) (rows : List SchedulerStatus) (c : Control) (configs : View (List CronConfig))
      → All (λ r. r.active ≡ b) rows
      → disabled (
          page_items d clock agents
            (showing rows c).action.loading
            (showing rows c).statuses
            configs)
        ≡ (false ∷ false ∷ false ∷ []) ++ all_of (not b) rows
  unfolding page_items status_items
  disabled-page_items b rows c configs h =
      rw
        (
          collect-append flag_of (status_items d clock agents false (showing rows c).statuses)
              (configs_items d clock configs),
          disabled-row_items b rows h,
          disabled-configs_items d clock configs,
          append-nil (all_of (not b) rows),
        )
        refl

  module _ (e later : Env) (c : Control) (s : Store) (configs : View (List CronConfig)) where
    -- In mock mode, with draws below one, after `handlePauseAll` has run to its end the page shows a row
    -- for each agent of the store, its three buttons above are enabled and the button "Tick" of every
    -- row is disabled; after `handleResumeAll` there is a row for each agent and every button is
    -- enabled. It shows no other button, whatever the files of configuration are.
    pub page_items-handle_pause_all :
        IsMock e
        → IsMock later
        → IsWorld later.world
        → ((rows : List SchedulerStatus) × (handle_pause_all e later c s
              ≡ (some (showing rows c), record s { agents = map (set_active false) s.agents }))
            × (length rows ≡ length s.agents)
            × (disabled (
                  page_items d clock agents
                    (showing rows c).action.loading
                    (showing rows c).statuses
                    configs)
                ≡ false ∷ false ∷ false ∷ all_of true rows))
          × ((rows : List SchedulerStatus) × (handle_resume_all e later c s
                ≡ (some (showing rows c), record s { agents = map (set_active true) s.agents }))
              × (length rows ≡ length s.agents)
              × (disabled (
                    page_items d clock agents
                      (showing rows c).action.loading
                      (showing rows c).statuses
                      configs)
                  ≡ false ∷ false ∷ false ∷ all_of false rows))
    page_items-handle_pause_all h k good =
        let ((rows, paused, count, off), (rows', resumed, count', on)) =
          handle_pause_all-handle_resume_all e later c s h k good in
        (
          (rows, paused, count, disabled-page_items false rows c configs off),
          (rows', resumed, count', disabled-page_items true rows' c configs on),
        )
