-- ===== src/Pages/Site/Icons.antt =====
-- The icons that the pages show, and what the component `Icon` draws.
use trokk.Prelude.{
  ℕ, suc, ◌≡◌, refl, Bool, true, false, List, [], ◌∷◌, ◌++◌, Option, none, some, take, find, filter,
  if◌then◌else◌, Bool-cases, inl, inr,
}
use trokk.Text.{Str, str}
use trokk.Types.{
  Agent, HealthStatus, AgentWithStats, MessageResponse, MessageDetail, SchedulerStatus, CronConfig,
}
use trokk.Types.Domains.{domains, temperaments, comm_styles}
use trokk.Runtime.{Dates}
use trokk.Mock.{is_agent, by_agent}
use trokk.Icon.{is_drawn, is_name, icon_names, is_drawn-icon_names}
use trokk.Pages.Nav.{NavItem, item_link, bar_items as nav_bar, nav_items, mobile_items}
use trokk.Ui.{Item, icon, text, choice, collect, collect-each, collects, is_empty, Locale}
use trokk.Hooks.{View}
use trokk.Hooks.Views.{Messages}
use trokk.Pages.Site.{
  Screen, landing, dashboard, investigations, report, registry, profile, stream, metrics, control,
  settings, items_of,
}
use trokk.Pages.Site.Flaws.{
  flaw, flaws, landing-flaws, dashboard-flaws, investigations-flaws, report-flaws,
}
use trokk.Pages.Landing.{Url}
use trokk.Pages.Registry.{Page}
use trokk.Pages.Registry.View.{form_items, card_items, section_items, page_items as registry_items}
use trokk.Pages.Settings.{Settings}
use trokk.Pages.Settings.View.{member_items, page_items as settings_items}
use trokk.Pages.Metrics.{Bar, messages_by_hour, max_bar, top_endorsed, top_propagated}
use trokk.Pages.Metrics.View.{
  hour_items, bar_items, max_count, distribution_items, page_items as metrics_items,
}
use trokk.Pages.Control.Shown.{
  status_items, row_items, configs_items, config_items, page_items as control_items,
}
use trokk.Pages.Stream.{Stream, filtered_messages, is_expanded}
use trokk.Pages.Stream.View.{
  color_of, response_items, thread_items, detail_items, card_items as message_card,
  list_items as stream_list, page_items as stream_items,
}
use trokk.Pages.Profile.{agent_hours, max_hour}
use trokk.Pages.Profile.View.{
  message_items, agent_items, activity_items, branch_items, branch_of, Branch, loads, not_found,
  shows, page_items as profile_items,
}

abbrev undrawn_of : Item → List Str
undrawn_of (icon n) = if is_drawn n then [] else n ∷ []
undrawn_of _ = []

-- The icons of a page for which nothing is drawn.
abbrev pub undrawn : List Item → List Str
undrawn items = collect undrawn_of items

none_before {ℓ} : {A : Type ℓ} (xs ys : List A) → xs ++ ys ≡ [] → xs ≡ []
none_before [] ys h = refl
none_before (x ∷ xs) ys h = cc

none_after {ℓ} : {A : Type ℓ} (xs ys : List A) → xs ++ ys ≡ [] → ys ≡ []
none_after [] ys h = h
none_after (x ∷ xs) ys h = cc

-- A part without flaws is no icon that is not drawn.
flaw-undrawn_of : (i : Item) → flaw i ≡ [] → undrawn_of i ≡ []
flaw-undrawn_of (icon n) h = h
flaw-undrawn_of (text t) h = refl
flaw-undrawn_of _ h = refl

flaws-undrawn : (items : List Item) → flaws items ≡ [] → undrawn items ≡ []
flaws-undrawn [] h = refl
flaws-undrawn (i ∷ items) h =
    rw
      (
        flaw-undrawn_of i (none_before (flaw i) (flaws items) h),
        flaws-undrawn items (none_after (flaw i) (flaws items) h),
      )
      refl

settings-undrawn : (p : Settings) → undrawn (settings_items p) ≡ []
unfolding settings_items member_items is_drawn
settings-undrawn p = elim (Bool-cases p.loading) [
  | inl e ↦ rw e refl
  | inr e ↦ rw e (elim (Bool-cases (is_empty p.agents)) [
    | inl f ↦ rw f refl
    | inr f ↦ rw f (collect-each undrawn_of member_items p.agents (λ a. refl))
  ])
]

registry-undrawn :
    (loc : Locale) (v : View (List Agent)) (creating updating : Bool) (p : Page)
    → undrawn (registry_items loc v creating updating p) ≡ []
unfolding registry_items section_items card_items is_drawn form_items domains temperaments
    comm_styles
registry-undrawn loc v creating updating p =
    simp (collects, collect-each undrawn_of (card_items loc) v.value (λ a. refl))

hour-undrawn : (highest hour : ℕ) (ns : List ℕ) → undrawn (hour_items highest hour ns) ≡ []
hour-undrawn highest hour [] = refl
hour-undrawn highest hour (n ∷ ns) = hour-undrawn highest (suc hour) ns

distribution-undrawn :
    (title nothing : Str) (bars : List Bar) → undrawn (distribution_items title nothing bars) ≡ []
distribution-undrawn title nothing bars =
    simp (collects, collect-each undrawn_of (bar_items (max_count bars)) bars (λ b. refl))

metrics-undrawn :
    (d : Dates) (print : List MessageResponse → Str) (agents : List Agent)
    (messages : List MessageResponse)
    → undrawn (metrics_items d print agents messages) ≡ []
unfolding metrics_items is_drawn
metrics-undrawn d print agents messages =
    let hours = messages_by_hour d messages in
    simp (
      collects,
      hour-undrawn (max_bar hours) 0 hours,
      distribution-undrawn (str "Endorsement Distribution") (str "No endorsement data yet")
          (top_endorsed agents messages),
      distribution-undrawn (str "Propagation Distribution") (str "No propagation data yet")
          (top_propagated agents messages),
    )

module _ (d : Dates) (clock : ℕ) where
  control-undrawn :
      (agents : List Agent) (busy : Bool) (statuses : View (List SchedulerStatus))
      (configs : View (List CronConfig))
      → undrawn (control_items d clock agents busy statuses configs) ≡ []
  unfolding control_items status_items row_items configs_items is_drawn
  control-undrawn agents busy statuses configs = simp (
    collects,
    collect-each undrawn_of (row_items d clock agents busy) statuses.value (λ r. refl),
    collect-each undrawn_of (config_items d clock) configs.value (λ c. refl),
  )

  detail-undrawn : (o : Option MessageDetail) → undrawn (detail_items d clock o) ≡ []
  unfolding response_items
  detail-undrawn none = refl
  detail-undrawn (some m) = elim (Bool-cases (is_empty m.responses)) [
    | inl e ↦ rw e refl
    | inr e ↦ rw e (collect-each undrawn_of (response_items d clock) m.responses (λ r. refl))
  ]

  thread-undrawn : (v : View (Option MessageDetail)) → undrawn (thread_items d clock v) ≡ []
  unfolding thread_items
  thread-undrawn v = elim (Bool-cases v.loading) [
    | inl e ↦ rw e refl
    | inr e ↦ rw e (detail-undrawn v.value)
  ]

  card-undrawn :
      (m : MessageResponse) (color : Str) (expanded : Bool) (v : View (Option MessageDetail))
      → undrawn (message_card d clock m color expanded v) ≡ []
  unfolding message_card is_drawn
  card-undrawn m color expanded v = simp (collects, thread-undrawn v)

  stream-undrawn :
      (agents : List Agent) (h : Messages) (threads : MessageResponse → View (Option MessageDetail))
      (p : Stream)
      → undrawn (stream_items d clock agents h threads p) ≡ []
  unfolding stream_items stream_list is_drawn
  stream-undrawn agents h threads p = simp (
    collects,
    collect-each undrawn_of
        (λ m.
          message_card d clock m (color_of (find (is_agent m.agent_id) agents))
            (is_expanded p.expanded_id m.id) (threads m))
        (filtered_messages h.messages p)
        (λ m.
          card-undrawn m (color_of (find (is_agent m.agent_id) agents))
            (is_expanded p.expanded_id m.id) (threads m)),
    collect-each undrawn_of (λ (a : Agent). choice a.id a.display_name ∷ []) agents (λ a. refl),
  )

module _ (d : Dates) (loc : Locale) (clock : ℕ) where
  agent-undrawn : (w : AgentWithStats) → undrawn (agent_items d loc clock w) ≡ []
  unfolding agent_items
  agent-undrawn w = simp (
    collects,
    collect-each undrawn_of (λ (s : Str). text s ∷ []) w.agent.personality.knowledge_datasets
        (λ s. refl),
  )

  activity-undrawn :
      (id : Str) (messages : List MessageResponse)
      → undrawn (activity_items d loc clock id messages) ≡ []
  unfolding activity_items message_items is_drawn
  activity-undrawn id messages = simp (
    collects,
    hour-undrawn (max_hour d id messages) 0 (agent_hours d id messages),
    collect-each undrawn_of (message_items d loc clock) (take 25 (filter (by_agent id) messages))
        (λ m. refl),
  )

  branch-undrawn :
      (id : Str) (messages : List MessageResponse) (b : Branch)
      → undrawn (branch_items d loc clock id messages b) ≡ []
  unfolding is_drawn
  branch-undrawn id messages loads = refl
  branch-undrawn id messages not_found = refl
  branch-undrawn id messages (shows w) =
      simp (collects, agent-undrawn w, activity-undrawn id messages)

  profile-undrawn :
      (id : Str) (v : View (Option AgentWithStats)) (messages : List MessageResponse)
      → undrawn (profile_items d loc clock id v messages) ≡ []
  unfolding profile_items
  profile-undrawn id v messages = branch-undrawn id messages (branch_of v)

  items_of-undrawn :
      (url : Url) (print : List MessageResponse → Str) (s : Screen)
      → undrawn (items_of url loc d clock print s) ≡ []
  unfolding items_of
  items_of-undrawn url print (landing p) =
      flaws-undrawn (items_of url loc d clock print (landing p)) (landing-flaws p)
  items_of-undrawn url print (dashboard p) =
      flaws-undrawn (items_of url loc d clock print (dashboard p)) (dashboard-flaws loc p)
  items_of-undrawn url print (investigations p) =
      flaws-undrawn (items_of url loc d clock print (investigations p)) (investigations-flaws loc p)
  items_of-undrawn url print (report p) =
      flaws-undrawn (items_of url loc d clock print (report p)) (report-flaws loc p)
  items_of-undrawn url print (registry v creating updating p) =
      registry-undrawn loc v creating updating p
  items_of-undrawn url print (profile id v messages) = profile-undrawn id v messages
  items_of-undrawn url print (stream agents h threads p) = stream-undrawn d clock agents h threads p
  items_of-undrawn url print (metrics agents messages) = metrics-undrawn d print agents messages
  items_of-undrawn url print (control agents busy statuses configs) =
      control-undrawn d clock agents busy statuses configs
  items_of-undrawn url print (settings p) = settings-undrawn p

  item_link-undrawn :
      (active : Bool) (i : NavItem)
      → is_drawn i.icon_name ≡ true
      → undrawn (item_link active i) ≡ []
  item_link-undrawn true i e = rw e refl
  item_link-undrawn false i e = rw e refl

  nav_bar-undrawn :
      (pathname : Str) (health : Option HealthStatus) → undrawn (nav_bar pathname health) ≡ []
  unfolding nav_bar nav_items mobile_items is_drawn
  nav_bar-undrawn pathname health = simp collects

  -- Every icon that a page shows, in any state of its cells and of its hooks, or that the navigation bar
  -- shows at any address, is one for which the component `Icon` draws something; and `Icon` draws
  -- something for the names of the type `IconName`, and for no other.
  pub is_drawn-items_of :
      (url : Url) (print : List MessageResponse → Str) (s : Screen) (pathname : Str)
      (health : Option HealthStatus) (name : Str)
      → (undrawn (items_of url loc d clock print s) ≡ [])
        × (undrawn (nav_bar pathname health) ≡ [])
        × (is_drawn name ≡ is_name name icon_names)
  is_drawn-items_of url print s pathname health name =
      (items_of-undrawn url print s, nav_bar-undrawn pathname health, is_drawn-icon_names name)
