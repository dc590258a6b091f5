-- ===== src/Icon.antt =====
-- ferr/src/components/Icon.tsx: what the component draws for a name.
pub mod Shapes
pub mod Pages
pub mod Signs
use trokk.Prelude.{
  Bool, true, false, List, [], ◌∷◌, Option, none, some, if◌then◌else◌, ◌≡◌, refl, ◌||◌, arith,
}
use trokk.Text.{Str, str, str_eq}
use trokk.Icon.Shapes.{Drawing}
use trokk.Icon.Pages.{
  dashboard_icon, stream_icon, agents_icon, metrics_icon, control_icon, settings_icon, health_icon,
  message_icon, endorse_icon, propagate_icon, respond_icon, agent_icon, plus_icon, edit_icon,
  trash_icon,
}
use trokk.Icon.Signs.{
  play_icon, pause_icon, refresh_icon, export_icon, search_icon, close_icon, chevron_down_icon,
  chevron_right_icon, external_icon, check_icon, x_icon, dot_icon, info_icon, warning_icon,
  clock_icon, toggle_icon,
}

-- `case` by `case`, in order.
unfoldable pub icons : List (Str × Drawing)
icons =
    (str "dashboard", dashboard_icon)
    ∷ (str "stream", stream_icon)
    ∷ (str "agents", agents_icon)
    ∷ (str "metrics", metrics_icon)
    ∷ (str "control", control_icon)
    ∷ (str "settings", settings_icon)
    ∷ (str "health", health_icon)
    ∷ (str "message", message_icon)
    ∷ (str "endorse", endorse_icon)
    ∷ (str "propagate", propagate_icon)
    ∷ (str "respond", respond_icon)
    ∷ (str "agent", agent_icon)
    ∷ (str "plus", plus_icon)
    ∷ (str "edit", edit_icon)
    ∷ (str "trash", trash_icon)
    ∷ (str "play", play_icon)
    ∷ (str "pause", pause_icon)
    ∷ (str "refresh", refresh_icon)
    ∷ (str "export", export_icon)
    ∷ (str "search", search_icon)
    ∷ (str "close", close_icon)
    ∷ (str "chevron-down", chevron_down_icon)
    ∷ (str "chevron-right", chevron_right_icon)
    ∷ (str "external", external_icon)
    ∷ (str "check", check_icon)
    ∷ (str "x", x_icon)
    ∷ (str "dot", dot_icon)
    ∷ (str "info", info_icon)
    ∷ (str "warning", warning_icon)
    ∷ (str "clock", clock_icon)
    ∷ (str "toggle", toggle_icon)
    ∷ []

-- The first case of that name, and nothing by `default`.
abbrev pub lookup : Str → List (Str × Drawing) → Option Drawing
lookup name [] = none
lookup name ((n, drawing) ∷ rest) = if str_eq name n then some drawing else lookup name rest

unfoldable pub draw : Str → Option Drawing
unfolding icons
draw name = lookup name icons

abbrev is_set : Option Drawing → Bool
is_set none = false
is_set (some drawing) = true

-- The component draws something.
unfoldable pub is_drawn : Str → Bool
unfolding draw
is_drawn name = is_set (draw name)

-- The type `IconName`.
unfoldable pub icon_names : List Str
icon_names =
    str "dashboard"
    ∷ str "stream"
    ∷ str "agents"
    ∷ str "metrics"
    ∷ str "control"
    ∷ str "settings"
    ∷ str "health"
    ∷ str "message"
    ∷ str "endorse"
    ∷ str "propagate"
    ∷ str "respond"
    ∷ str "agent"
    ∷ str "plus"
    ∷ str "edit"
    ∷ str "trash"
    ∷ str "play"
    ∷ str "pause"
    ∷ str "refresh"
    ∷ str "export"
    ∷ str "search"
    ∷ str "close"
    ∷ str "chevron-down"
    ∷ str "chevron-right"
    ∷ str "external"
    ∷ str "check"
    ∷ str "x"
    ∷ str "dot"
    ∷ str "info"
    ∷ str "warning"
    ∷ str "clock"
    ∷ str "toggle"
    ∷ []

abbrev pub is_name : Str → List Str → Bool
is_name name [] = false
is_name name (n ∷ names) = str_eq name n || is_name name names

names_of : List (Str × Drawing) → List Str
names_of [] = []
names_of ((n, drawing) ∷ rest) = n ∷ names_of rest

lookup-is_name :
    (name : Str) (table : List (Str × Drawing))
    → is_set (lookup name table) ≡ is_name name (names_of table)
unfolding names_of
lookup-is_name name [] = refl
lookup-is_name name ((n, drawing) ∷ rest) = ground (arith, lookup-is_name name rest)

-- Something is drawn for the names of the type, and for no other.
pub is_drawn-icon_names : (name : Str) → is_drawn name ≡ is_name name icon_names
unfolding is_drawn icon_names names_of
is_drawn-icon_names name = lookup-is_name name icons
