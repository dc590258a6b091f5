-- ===== src/Pages/Nav.antt =====
-- ferr/src/components/TopNav.tsx and the items of ferr/src/data/index.ts: the navigation bar.
pub mod Laws
use trokk.Prelude.{
  Bool, true, false, ◌&&◌, ◌||◌, not, List, [], ◌∷◌, ◌++◌, Option, none, some, take,
}
use trokk.Text.{Str, str, str_eq, starts_with}
use trokk.Types.{HealthState, ok_state, degraded, down, HealthStatus}
use trokk.Ui.{Item, text, icon, dot, link, end_link, mark, show_if, each}

pub record NavItem : Type 0 where
  pub icon_name : Str
  pub label : Str
  pub href : Str

abbrev nav_item : Str → Str → Str → NavItem
nav_item i l h = record { icon_name = i; label = l; href = h }

unfoldable pub nav_items : List NavItem
nav_items =
    nav_item (str "dashboard") (str "Dashboard") (str "/")
    ∷ nav_item (str "stream") (str "Stream") (str "/stream")
    ∷ nav_item (str "agents") (str "Agents") (str "/agents")
    ∷ nav_item (str "metrics") (str "Metrics") (str "/metrics")
    ∷ nav_item (str "control") (str "Control") (str "/control")
    ∷ nav_item (str "settings") (str "Settings") (str "/settings")
    ∷ []

-- `isActive` of the bar for wide screens, and of the one for mobile screens.
unfoldable pub is_active : Str → NavItem → Bool
is_active pathname i =
    str_eq pathname i.href || (not (str_eq i.href (str "/")) && starts_with i.href pathname)

unfoldable pub is_active_mobile : Str → NavItem → Bool
is_active_mobile pathname i = str_eq pathname i.href

unfoldable pub mobile_items : List NavItem
unfolding nav_items
mobile_items = take 5 nav_items

-- `statusClass`
status_class : Option HealthStatus → Str
status_class none = str "down"
status_class (some h) = elim h.status [
  | ok_state ↦ str "ok"
  | degraded ↦ str "degraded"
  | down ↦ str "down"
]

-- `health?.status ?? "—"`
unfoldable pub status_text : Option HealthStatus → Str
status_text none = str "—"
status_text (some h) = elim h.status [
  | ok_state ↦ str "ok"
  | degraded ↦ str "degraded"
  | down ↦ str "down"
]

abbrev pub item_link : Bool → NavItem → List Item
item_link active i =
    link i.href ∷ show_if active (mark ∷ []) ++ (icon i.icon_name ∷ text i.label ∷ end_link ∷ [])

-- The component `TopNav`: the bar for wide screens, the state of the backend, the bar for mobile ones.
unfoldable pub bar_items : Str → Option HealthStatus → List Item
unfolding nav_items mobile_items status_class status_text is_active is_active_mobile
bar_items pathname health =
    (link (str "/") ∷ text (str "Trokk") ∷ end_link ∷ [])
    ++ each (λ i. item_link (is_active pathname i) i) nav_items
    ++ (dot (status_class health) ∷ text (status_text health) ∷ [])
    ++ each (λ i. item_link (is_active_mobile pathname i) i) mobile_items
