-- ===== src/Pages/Site.antt =====
-- ferr/src/app: the pages together. The folder of a page is its address, and a user moves from one to
-- another by the links that it shows and by the addresses that the landing page pushes. No page and no
-- layout renders the navigation bar. An address is read as it is written: the identifiers in it have
-- no dot segments, which a browser would resolve.
pub mod Laws
pub mod Flaws
pub mod Icons
use trokk.Prelude.{ℕ, ◌≡◌, Bool, true, false, ◌||◌, List, [], ◌∷◌, ◌++◌, Option, some}
use trokk.Text.{Str, str, str_eq, starts_with}
use trokk.Types.{Agent, AgentWithStats, MessageResponse, MessageDetail, SchedulerStatus, CronConfig}
use trokk.Runtime.{Dates}
use trokk.Ui.{Item, links, Locale}
use trokk.Hooks.{View}
use trokk.Hooks.Views.{Messages}
use trokk.Pages.Landing.{Url, Landing, handle_submit, pick_template, page_items as landing_items}
use trokk.Pages.Dashboard.{Dashboard}
use trokk.Pages.Dashboard.View.{page_items as dashboard_items}
use trokk.Pages.Investigations.{Investigations, page_items as investigations_items}
use trokk.Pages.Report.{Page as ReportPage}
use trokk.Pages.Report.View.{page_items as report_page_items}
use trokk.Pages.Registry.{Page as RegistryPage}
use trokk.Pages.Registry.View.{page_items as registry_items}
use trokk.Pages.Profile.View.{page_items as profile_items}
use trokk.Pages.Stream.{Stream}
use trokk.Pages.Stream.View.{page_items as stream_items}
use trokk.Pages.Metrics.View.{page_items as metrics_items}
use trokk.Pages.Control.Shown.{page_items as control_items}
use trokk.Pages.Settings.{Settings}
use trokk.Pages.Settings.View.{page_items as settings_items}

-- A page, in a state of its cells and of its hooks.
pub data Screen : Type 0 where
  landing : Landing → Screen
  dashboard : Dashboard → Screen
  investigations : Investigations → Screen
  report : ReportPage → Screen
  registry : View (List Agent) → Bool → Bool → RegistryPage → Screen
  profile : Str → View (Option AgentWithStats) → List MessageResponse → Screen
  stream : List Agent → Messages → (MessageResponse → View (Option MessageDetail)) → Stream → Screen
  metrics : List Agent → List MessageResponse → Screen
  control : List Agent → Bool → View (List SchedulerStatus) → View (List CronConfig) → Screen
  settings : Settings → Screen

-- The address is this path, with or without a query.
abbrev pub at_path : Str → Str → Bool
at_path path a = str_eq a path || starts_with (path ++ str "?") a

-- The page is the one of this address.
unfoldable pub fits : Screen → Str → Bool
fits (landing p) a = at_path (str "/") a
fits (dashboard p) a = at_path (str "/dashboard") a
fits (investigations p) a = at_path (str "/investigations") a
fits (report p) a = starts_with (str "/reports/") a
fits (registry v creating updating p) a = at_path (str "/agents") a
fits (profile id v messages) a = starts_with (str "/agents/") a
fits (stream agents h threads p) a = at_path (str "/stream") a
fits (metrics agents messages) a = at_path (str "/metrics") a
fits (control agents busy statuses configs) a = at_path (str "/control") a
fits (settings p) a = at_path (str "/settings") a

abbrev pub has_link : Str → List Str → Bool
has_link a [] = false
has_link a (l ∷ ls) = str_eq l a || has_link a ls

module _ (url : Url) (loc : Locale) (d : Dates) (clock : ℕ)
    (print : List MessageResponse → Str) where
  unfoldable pub items_of : Screen → List Item
  items_of (landing p) = landing_items p
  items_of (dashboard p) = dashboard_items loc p
  items_of (investigations p) = investigations_items loc p
  items_of (report p) = report_page_items loc p
  items_of (registry v creating updating p) = registry_items loc v creating updating p
  items_of (profile id v messages) = profile_items d loc clock id v messages
  items_of (stream agents h threads p) = stream_items d clock agents h threads p
  items_of (metrics agents messages) = metrics_items d print agents messages
  items_of (control agents busy statuses configs) =
      control_items d clock agents busy statuses configs
  items_of (settings p) = settings_items p

  -- A move of the user from one address to another.
  pub data Moves (a b : Str) : Type 0 where
    follows : (s : Screen) → fits s a ≡ true → has_link b (links (items_of s)) ≡ true → Moves a b
    submits :
        (p : Landing) → at_path (str "/") a ≡ true → (handle_submit url p).1 ≡ some b → Moves a b
    picks :
        (placeholder : Str)
        → at_path (str "/") a ≡ true
        → pick_template url placeholder ≡ some b
        → Moves a b

  pub data Reaches (a : Str) : Str → Type 0 where
    here : Reaches a a
    next : {b c : Str} → Reaches a b → Moves b c → Reaches a c
