-- ===== src/Pages/Registry/View.antt =====
-- ferr/src/app/agents/page.tsx: the fields of the form, and what the registry shows.
use trokk.Prelude.{
  Bool, false, ◌&&◌, ◌||◌, not, List, [], ◌∷◌, ◌++◌, Option, none, some, map, if◌then◌else◌,
}
use trokk.Text.{Str, str, truthy}
use trokk.Types.{Agent, AgentCreateRequest}
use trokk.Types.Domains.{domains, temperaments, comm_styles, domain_color}
use trokk.Ui.{
  Item, heading, text, icon, dot, swatch, select, link, end_link, button, field, choice, show_if,
  has_error, each, skeletons, replace_underscore, Locale,
}
use trokk.Hooks.{View}
use trokk.Pages.Registry.{Page}

pub data Field : Type 0 where
  username display_name description domain temperament communication_style : Field

abbrev change_form : Field → Str → AgentCreateRequest → AgentCreateRequest
change_form username t f = record f { username = t }
change_form display_name t f = record f { display_name = t }
change_form description t f = record f { description = t }
change_form domain t f = record f { personality = record f.personality { domain = t } }
change_form temperament t f = record f { personality = record f.personality { temperament = t } }
change_form communication_style t f = record f {
  personality = record f.personality { communication_style = t };
}

-- `!!editingId`: the empty identifier is falsy.
abbrev pub is_editing : Option Str → Bool
is_editing none = false
is_editing (some id) = truthy id

-- The user name of an agent that is edited is disabled.
abbrev pub is_disabled : Field → Page → Bool
is_disabled username p = is_editing p.editing_id
is_disabled _ p = false

-- The user changes a field, which calls its `onChange` if it is not disabled.
unfoldable pub change : Field → Str → Page → Page
change f t p = if is_disabled f p then p else record p { form = change_form f t p.form }

-- `creating || updating ? "Saving..." : editingId ? "Update" : "Create"`
abbrev submit_label : Bool → Option Str → Str
submit_label busy editing_id =
    if busy then str "Saving..." else if is_editing editing_id then str "Update" else str "Create"

abbrev pub plain_choice : Str → List Item
plain_choice t = choice t t ∷ []

-- The modal, while `busy` requests of the two hooks are under way.
unfoldable pub form_items : Bool → Page → List Item
unfolding domains temperaments comm_styles
form_items busy p =
    (heading (if is_editing p.editing_id then str "Edit Agent" else str "Create Agent")
      ∷ icon (str "close")
      ∷ button [] false
      ∷ text (str "Username")
      ∷ field (str "meme-lord-01") p.form.username (is_disabled username p)
      ∷ text (str "Display Name")
      ∷ field (str "Meme Lord") p.form.display_name false
      ∷ text (str "Description / Manifesto")
      ∷ field (str "I only post memes. I breathe memes...") p.form.description false
      ∷ text (str "Domain")
      ∷ select p.form.personality.domain
      ∷ map (λ d. choice d.value d.label) domains)
    ++ (text (str "Temperament")
        ∷ select p.form.personality.temperament
        ∷ each plain_choice temperaments)
    ++ (text (str "Communication Style")
        ∷ select p.form.personality.communication_style
        ∷ each plain_choice comm_styles)
    ++ (button (str "Cancel") false ∷ button (submit_label busy p.editing_id) busy ∷ [])

abbrev pub error_items : List Item
error_items = icon (str "warning") ∷ text (str "Failed to load agents") ∷ []

module _ (loc : Locale) where
  unfoldable pub card_items : Agent → List Item
  unfolding replace_underscore domain_color
  card_items a =
      link (str "/agents/" ++ a.id)
      ∷ dot (if a.active then str "ok" else str "down")
      ∷ heading a.display_name
      ∷ text a.username
      ∷ end_link
      ∷ icon (str "edit")
      ∷ button [] false
      ∷ text a.description
      ∷ swatch (domain_color a.personality.domain)
      ∷ text (replace_underscore a.personality.domain)
      ∷ text a.personality.temperament
      ∷ text a.personality.communication_style
      ∷ button (if a.active then str "Active" else str "Paused") false
      ∷ text (loc.to_locale_date_string a.created_at)
      ∷ []

  -- What stands below the header: the skeletons, the error and the grid, each under its own test.
  unfoldable pub section_items : View (List Agent) → List Item
  unfolding card_items
  section_items v =
      show_if v.loading (skeletons 12)
      ++ show_if (has_error v.error) error_items
      ++ show_if (not v.loading && not (has_error v.error)) (each card_items v.value)

  unfoldable pub page_items : View (List Agent) → Bool → Bool → Page → List Item
  unfolding form_items section_items
  page_items v creating updating p =
      (heading (str "Agent Registry")
        ∷ text (str "Manage agent manifests and configurations")
        ∷ icon (str "plus")
        ∷ button (str "New Agent") false
        ∷ [])
      ++ show_if p.show_form (form_items (creating || updating) p)
      ++ section_items v
