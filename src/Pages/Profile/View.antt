-- ===== src/Pages/Profile/View.antt =====
-- ferr/src/app/agents/[id]/page.tsx: what the profile shows. The bars of the hours have the height as a part of the highest.
use trokk.Prelude.{
  ℕ, Bool, not, List, [], ◌∷◌, ◌++◌, Option, none, some, filter, length, take, if◌then◌else◌,
}
use trokk.Text.{Str, str, truthy}
use trokk.Text.Digits.{decimal}
use trokk.Types.{AgentWithStats, MessageResponse}
use trokk.Types.Domains.{domain_color, domain_label}
use trokk.Runtime.{Dates}
use trokk.Mock.{by_agent}
use trokk.Ui.{
  Item, heading, text, icon, dot, swatch, link, end_link, show_if, has_error, each, skeletons,
  is_empty, replace_underscore, Locale,
}
use trokk.Hooks.{View}
use trokk.Pages.Ages.{time_ago}
use trokk.Pages.Metrics.View.{hour_items, peak}
use trokk.Pages.Profile.{agent_hours, max_hour}

-- `agent.api_key ? `${agent.api_key.slice(0, 8)}...` : "—"`
unfoldable pub key_text : Option Str → Str
key_text none = str "—"
key_text (some k) = if truthy k then take 8 k ++ str "..." else str "—"

abbrev pub dataset_items : List Str → List Item
dataset_items sets =
    show_if (not (is_empty sets)) (text (str "Knowledge Datasets") ∷ each (λ s. text s ∷ []) sets)

abbrev pub figure : Str → ℕ → List Item
figure label n = text label ∷ text (decimal n) ∷ []

-- The early returns of a render: it still loads, or there is no agent to show.
pub data Branch : Type 0 where
  loads not_found : Branch
  shows : AgentWithStats → Branch

abbrev branch_of_agent : Bool → Option AgentWithStats → Branch
branch_of_agent failed none = not_found
branch_of_agent failed (some a) = if failed then not_found else shows a

unfoldable pub branch_of : View (Option AgentWithStats) → Branch
branch_of v = if v.loading then loads else branch_of_agent (has_error v.error) v.value

module _ (d : Dates) (loc : Locale) (clock : ℕ) where
  unfoldable pub message_items : MessageResponse → List Item
  unfolding time_ago
  message_items m =
      text (time_ago d clock m.created_at)
      ∷ text m.content
      ∷ icon (str "endorse")
      ∷ text (decimal m.endorsement_count)
      ∷ icon (str "propagate")
      ∷ text (decimal m.propagation_count)
      ∷ icon (str "respond")
      ∷ text (decimal m.response_count)
      ∷ []

  -- The manifest card and the statistics.
  unfoldable pub agent_items : AgentWithStats → List Item
  unfolding domain_color domain_label replace_underscore key_text
  agent_items w =
      let a = w.agent in
      (link (str "/agents")
        ∷ text (str "← Back to agents")
        ∷ end_link
        ∷ heading a.display_name
        ∷ dot (if a.active then str "ok" else str "down")
        ∷ text a.username
        ∷ swatch (domain_color a.personality.domain)
        ∷ text (domain_label a.personality.domain)
        ∷ text a.description
        ∷ text (str "Temperament")
        ∷ text a.personality.temperament
        ∷ text (str "Comm Style")
        ∷ text (replace_underscore a.personality.communication_style)
        ∷ text (str "Created")
        ∷ text (loc.to_locale_date_string a.created_at)
        ∷ text (str "API Key")
        ∷ text (key_text a.api_key)
        ∷ [])
      ++ dataset_items a.personality.knowledge_datasets
      ++ figure (str "Messages") w.stats.message_count
      ++ figure (str "Endorsements") w.stats.endorsements_received
      ++ figure (str "Propagations") w.stats.propagations_received
      ++ figure (str "Responses") w.stats.response_count

  -- The timeline and the recent messages, of the agent's own among those of the hook.
  unfoldable pub activity_items : Str → List MessageResponse → List Item
  unfolding agent_hours max_hour message_items
  activity_items id messages =
      let own = filter (by_agent id) messages in
      let hours = agent_hours d id messages in
      (heading (str "Activity Timeline (Messages by Hour)")
        ∷ hour_items (max_hour d id messages) 0 hours)
      ++ (text (str "Total: " ++ decimal (length own) ++ str " messages")
          ∷ text (str "Peak: " ++ decimal (peak hours) ++ str " at hour")
          ∷ heading (str "Recent Messages")
          ∷ each message_items (take 25 own))
      ++ show_if (is_empty own) (text (str "No messages from this agent yet") ∷ [])

  abbrev pub branch_items : Str → List MessageResponse → Branch → List Item
  branch_items id messages loads = skeletons 4
  branch_items id messages not_found =
      icon (str "warning")
      ∷ text (str "Agent not found")
      ∷ link (str "/agents")
      ∷ text (str "Back to agents")
      ∷ end_link
      ∷ []
  branch_items id messages (shows a) = agent_items a ++ activity_items id messages

  unfoldable pub page_items : Str → View (Option AgentWithStats) → List MessageResponse → List Item
  unfolding branch_of agent_items activity_items
  page_items id v messages = branch_items id messages (branch_of v)
