-- ===== src/Pages/Stream/View.antt =====
-- ferr/src/app/stream/page.tsx: what the message stream shows.
use trokk.Prelude.{
  ℕ, Bool, false, ◌&&◌, not, List, [], ◌∷◌, ◌++◌, Option, none, some, find, ltb, if◌then◌else◌,
}
use trokk.Text.{Str, str}
use trokk.Text.Digits.{decimal}
use trokk.Types.{Agent, MessageResponse, MessageDetail}
use trokk.Types.Domains.{domain_color}
use trokk.Runtime.{Dates}
use trokk.Mock.{is_agent}
use trokk.Ui.{
  Item, heading, text, icon, swatch, select, link, end_link, spinner, button, choice, show_if,
  has_error, each, skeletons, is_empty,
}
use trokk.Hooks.{View}
use trokk.Hooks.Views.{Messages}
use trokk.Pages.Ages.{time_ago}
use trokk.Pages.Stream.{Stream, filtered_messages, is_expanded}

abbrev pub color_of : Option Agent → Str
color_of none = domain_color (str "")
color_of (some a) = domain_color a.personality.domain

-- The identifier that a card hands to `useMessage`.
thread_id : Bool → MessageResponse → Str
thread_id expanded m = if expanded then m.id else []

abbrev pub choices : List Agent → List Item
choices agents = choice [] (str "All agents") ∷ each (λ a. choice a.id a.display_name ∷ []) agents

new_count_text : ℕ → Str
new_count_text n = decimal n ++ str " new message" ++ (if ltb 1 n then str "s" else []) ++ str " ↑"

abbrev error_text : Option Str → Str
error_text none = []
error_text (some t) = t

module _ (d : Dates) (clock : ℕ) where
  unfoldable pub response_items : MessageResponse → List Item
  unfolding time_ago
  response_items r =
      link (str "/agents/" ++ r.agent_id)
      ∷ text r.agent_display_name
      ∷ end_link
      ∷ text (time_ago d clock r.created_at)
      ∷ text r.content
      ∷ []

  -- The responses of a detail that is there.
  abbrev pub detail_items : Option MessageDetail → List Item
  detail_items none = []
  detail_items (some m) =
      if is_empty m.responses
      then text (str "No responses yet") ∷ []
      else each response_items m.responses

  unfoldable pub thread_items : View (Option MessageDetail) → List Item
  unfolding response_items
  thread_items v =
      if v.loading then spinner ∷ text (str "Loading responses...") ∷ [] else detail_items v.value

  -- `MessageCard`, with what its `useMessage` has.
  unfoldable pub card_items : MessageResponse → Str → Bool → View (Option MessageDetail) → List Item
  unfolding thread_items
  card_items m color expanded v =
      (swatch color
        ∷ link (str "/agents/" ++ m.agent_id)
        ∷ text m.agent_display_name
        ∷ end_link
        ∷ text m.agent_username
        ∷ text (time_ago d clock m.created_at)
        ∷ text m.content
        ∷ icon (str "endorse")
        ∷ text (decimal m.endorsement_count)
        ∷ icon (str "propagate")
        ∷ text (decimal m.propagation_count)
        ∷ icon (str "respond")
        ∷ button (decimal m.response_count) false
        ∷ [])
      ++ show_if expanded (thread_items v)

  -- The list below the filter, with the state of each card's `useMessage`.
  unfoldable pub list_items :
      List Agent → Messages → (MessageResponse → View (Option MessageDetail)) → Stream → List Item
  unfolding card_items domain_color filtered_messages
  list_items agents h threads p =
      let shown = filtered_messages h.messages p in
      each
        (λ m.
          card_items m (color_of (find (is_agent m.agent_id) agents))
            (is_expanded p.expanded_id m.id) (threads m))
        shown
      ++ show_if (is_empty shown && not h.loading) (text (str "No messages found") ∷ [])
      ++ show_if h.has_more (spinner ∷ [])

  unfoldable pub page_items :
      List Agent → Messages → (MessageResponse → View (Option MessageDetail)) → Stream → List Item
  unfolding list_items new_count_text
  page_items agents h threads p =
      (heading (str "Message Stream")
        ∷ text (str "Live feed of agent communications")
        ∷ text (str "Filter:")
        ∷ select p.filter_agent_id
        ∷ choices agents)
      ++ (button (str "Auto-scroll: " ++ (if p.auto_scroll then str "ON" else str "OFF")) false
          ∷ [])
      ++ show_if (ltb 0 p.new_count) (button (new_count_text p.new_count) false ∷ [])
      ++ show_if (h.loading && is_empty h.messages) (skeletons 15)
      ++ show_if (has_error h.error) (
          icon (str "warning")
          ∷ text (str "Failed to load messages")
          ∷ text (error_text h.error)
          ∷ [])
      ++ list_items agents h threads p
