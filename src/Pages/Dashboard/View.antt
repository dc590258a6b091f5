-- ===== src/Pages/Dashboard/View.antt =====
-- ferr/src/app/dashboard/page.tsx: what the dashboard shows.
use trokk.Prelude.{
  Bool, false, ◌||◌, not, List, [], ◌∷◌, ◌++◌, Option, none, some, take, if◌then◌else◌,
}
use trokk.Text.{Str, str, str_eq, trim, truthy}
use trokk.Text.Digits.{decimal}
use trokk.Ui.{
  Item, heading, text, link, end_link, button, field, show_if, each, is_empty, replace_underscore,
  first_unit, last_with, Locale,
}
use trokk.Pages.Dashboard.{Investigation, Finding, Member, Dashboard, init}

-- `agentMap[f.agent_id]`
abbrev pub agent_of : Str → List Member → Option Member
agent_of id agents = last_with (λ a. a.id) id agents

-- `agent?.display_name?.[0] || "?"`
abbrev pub initial : Option Member → Str
initial none = str "?"
initial (some a) = if truthy a.display_name then first_unit a.display_name else str "?"

-- `agent?.display_name || f.agent_username`
abbrev pub shown_name : Option Member → Str → Str
shown_name none username = username
shown_name (some a) username = if truthy a.display_name then a.display_name else username

abbrev pub is_status : Str → Investigation → Bool
is_status s i = str_eq i.status s

abbrev pub report_address : Investigation → Str
report_address i = str "/reports/" ++ i.id

module _ (loc : Locale) where
  unfoldable pub finding_items : List Member → Finding → List Item
  finding_items agents f =
      let agent = agent_of f.agent_id agents in
      text (initial agent)
      ∷ text (shown_name agent f.agent_username)
      ∷ text (loc.to_locale_time_string f.created_at)
      ∷ text f.content
      ∷ text (str "✓ " ++ decimal f.endorsement_count)
      ∷ text (str "↑ " ++ decimal f.propagation_count)
      ∷ []

  -- The card of the active investigation.
  unfoldable pub active_items : Dashboard → Investigation → List Item
  unfolding replace_underscore finding_items
  active_items p i =
      (text (replace_underscore i.status) ∷ [])
      ++ show_if p.polling (text (str "updating live...") ∷ [])
      ++ show_if (is_status (str "in_progress") i) (button (str "Generate Report") false ∷ [])
      ++ show_if (is_status (str "complete") i)
          (link (report_address i) ∷ text (str "View Report →") ∷ end_link ∷ [])
      ++ (heading i.question ∷ [])
      ++ each (finding_items p.agents) p.findings
      ++ show_if (is_empty p.findings) (
          text (
            if is_status (str "pending") i || is_status (str "in_progress") i
            then str "Agents are investigating... findings will appear here."
            else str "No findings yet.")
          ∷ [])

  unfoldable pub recent_items : Investigation → List Item
  unfolding replace_underscore
  recent_items i =
      link (report_address i)
      ∷ text i.question
      ∷ text (loc.to_locale_date_string i.created_at)
      ∷ text (replace_underscore i.status)
      ∷ end_link
      ∷ []

  -- What stands below the question: by whether there is an active investigation.
  unfoldable pub below_items : Dashboard → Option Investigation → List Item
  unfolding active_items recent_items
  below_items p (some i) = active_items p i
  below_items p none =
      show_if (not (is_empty p.investigations))
        (heading (str "Recent Investigations") ∷ each recent_items (take 5 p.investigations))
      ++ show_if (is_empty p.investigations) (
          text (str "Ask a question to start your first investigation.")
          ∷ text (str "Research, News, GitHub, Financial, Crypto, OSINT, and more.")
          ∷ [])

  -- The component `DashboardContent`.
  unfoldable pub content_items : Dashboard → List Item
  unfolding below_items
  content_items p =
      field (str "What do you want to investigate?") p.question false
      ∷ button (str "Investigate →") (not (truthy (trim p.question)))
      ∷ below_items p p.active_inv

  -- The page: its header and the content.
  unfoldable pub page_items : Dashboard → List Item
  unfolding content_items
  page_items p =
      link (str "/")
      ∷ text (str "Trokk")
      ∷ end_link
      ∷ link (str "/investigations")
      ∷ text (str "Past Investigations →")
      ∷ end_link
      ∷ content_items p

-- `DashboardInner`: `searchParams.get("q") || ""`
unfoldable pub dashboard_inner : Option Str → Dashboard
unfolding init
dashboard_inner none = init []
dashboard_inner (some q) = init q
