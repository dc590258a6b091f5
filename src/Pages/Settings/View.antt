-- ===== src/Pages/Settings/View.antt =====
-- ferr/src/app/settings/page.tsx: what the settings page shows.
use trokk.Prelude.{Bool, false, ◌||◌, not, List, [], ◌∷◌, ◌++◌, if◌then◌else◌}
use trokk.Text.{Str, str, truthy}
use trokk.Ui.{Item, heading, text, dot, link, end_link, button, field, each, skeletons, is_empty}
use trokk.Pages.Settings.{Member, Settings}

pub data Field : Type 0 where
  username display_name description : Field

-- The `onChange` of a field.
unfoldable pub change : Field → Str → Settings → Settings
change username t p = record p { form = record p.form { username = t } }
change display_name t p = record p { form = record p.form { display_name = t } }
change description t p = record p { form = record p.form { description = t } }

-- `disabled` of the button that registers.
unfoldable pub is_disabled : Settings → Bool
is_disabled p = not (truthy p.form.username) || not (truthy p.form.display_name) || p.creating

abbrev described : Member → Str
described a = if truthy a.description then a.description else str "No description"

unfoldable pub member_items : Member → List Item
member_items a =
    dot (if a.active then str "ok" else str "down")
    ∷ text a.display_name
    ∷ text (a.username ++ str " · " ++ described a)
    ∷ button (if a.active then str "Active" else str "Inactive") false
    ∷ []

abbrev pub list_items : Settings → List Item
list_items p =
    if p.loading
    then skeletons 3
    else if is_empty p.agents
    then text (str "No agents registered yet. Register specialist agents above.") ∷ []
    else each member_items p.agents

unfoldable pub page_items : Settings → List Item
unfolding is_disabled member_items
page_items p =
    link (str "/")
    ∷ text (str "Trokk")
    ∷ end_link
    ∷ link (str "/dashboard")
    ∷ text (str "Dashboard →")
    ∷ end_link
    ∷ heading (str "Settings")
    ∷ heading (str "Register Specialist Agent")
    ∷ field (str "Username (e.g., research-agent)") p.form.username false
    ∷ field (str "Display name (e.g., Research Agent)") p.form.display_name false
    ∷ field (str "Description (optional)") p.form.description false
    ∷ button (if p.creating then str "Creating..." else str "Register Agent") (is_disabled p)
    ∷ heading (str "Registered Agents")
    ∷ list_items p
