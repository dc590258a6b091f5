-- ===== src/Pages/Control/Shown.antt =====
-- ferr/src/app/control/page.tsx: what the control page shows.
use trokk.Prelude.{
  ℕ, Bool, false, ◌&&◌, ◌||◌, not, List, [], ◌∷◌, ◌++◌, Option, none, some, find, length,
  if◌then◌else◌,
}
use trokk.Text.{Str, str, truthy}
use trokk.Text.Digits.{decimal}
use trokk.Types.{Agent, SchedulerStatus, CronConfig}
use trokk.Types.Domains.{domain_color}
use trokk.Runtime.{Dates}
use trokk.Mock.{is_agent}
use trokk.Ui.{
  Item, heading, text, icon, swatch, button, show_if, has_error, each, skeletons, is_empty,
}
use trokk.Hooks.{View}
use trokk.Pages.Ages.{time_ago_or_future}

abbrev color_of : Option Agent → Str
color_of none = domain_color (str "")
color_of (some a) = domain_color a.personality.domain

-- `status.last_tick ? … : "—"`, and likewise for the next tick.
abbrev tick_text : Option Str → Str → Str
tick_text none shown = str "—"
tick_text (some iso) shown = if truthy iso then shown else str "—"

abbrev pub error_items : List Item
error_items = icon (str "warning") ∷ text (str "Failed to load scheduler status") ∷ []

module _ (d : Dates) (clock : ℕ) where
  -- A row of the table; `busy` is the `loading` of the actions.
  unfoldable pub row_items : List Agent → Bool → SchedulerStatus → List Item
  unfolding domain_color time_ago_or_future
  row_items agents busy s =
      swatch (color_of (find (is_agent s.agent_id) agents))
      ∷ text s.agent_display_name
      ∷ text (if s.active then str "Active" else str "Paused")
      ∷ text (decimal s.interval_seconds ++ str "s")
      ∷ text (tick_text s.last_tick (time_ago_or_future d clock s.last_tick ++ str " ago"))
      ∷ text (tick_text s.next_tick (str "in " ++ time_ago_or_future d clock s.next_tick))
      ∷ icon (str "play")
      ∷ button (str "Tick") (not s.active || busy)
      ∷ []

  abbrev pub table_items : List Agent → Bool → List SchedulerStatus → List Item
  table_items agents busy statuses =
      text (str "Agent")
      ∷ text (str "Status")
      ∷ text (str "Interval")
      ∷ text (str "Last Tick")
      ∷ text (str "Next Tick")
      ∷ text (str "Action")
      ∷ each (row_items agents busy) statuses

  -- The skeletons, the error and the table, each under its own test.
  unfoldable pub status_items : List Agent → Bool → View (List SchedulerStatus) → List Item
  unfolding row_items
  status_items agents busy v =
      show_if v.loading (skeletons 10)
      ++ show_if (has_error v.error) error_items
      ++ show_if (not v.loading && not (has_error v.error)) (table_items agents busy v.value)

  abbrev pub config_items : CronConfig → List Item
  config_items c = icon (str "chevron-right") ∷ text c.filename ∷ text c.content ∷ []

  unfoldable pub configs_items : View (List CronConfig) → List Item
  configs_items v =
      (heading (str "Agent Config Files")
        ∷ text (if v.loading then str "Loading..." else decimal (length v.value) ++ str " files")
        ∷ [])
      ++ show_if v.loading (skeletons 3)
      ++ show_if (not v.loading && not (is_empty v.value)) (each config_items v.value)
      ++ show_if (not v.loading && is_empty v.value)
          (text (str "No config files found in configs/agents/") ∷ [])

  unfoldable pub page_items :
      List Agent → Bool → View (List SchedulerStatus) → View (List CronConfig) → List Item
  unfolding status_items configs_items
  page_items agents busy statuses configs =
      (heading (str "Experiment Control")
        ∷ text (str "Start, stop, and manage the simulation runtime")
        ∷ text (str "Bulk Actions")
        ∷ icon (str "play")
        ∷ button (str "Resume All") busy
        ∷ icon (str "pause")
        ∷ button (str "Pause All") busy
        ∷ icon (str "refresh")
        ∷ button (str "Refresh") false
        ∷ [])
      ++ status_items agents busy statuses
      ++ configs_items configs
