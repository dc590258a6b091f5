-- ===== src/Pages/Settings.antt =====
-- ferr/src/app/settings/page.tsx: the agents of the settings page and its form. The page reads the
-- backend by itself; what its requests settle to is an argument (`none`: the request threw).
pub mod Laws
pub mod View
use trokk.Prelude.{
  Bool, true, false, ◌&&◌, not, List, [], ◌∷◌, ◌++◌, Option, none, some, map, if◌then◌else◌,
}
use trokk.Text.{Str, str_eq, truthy}

-- `interface Agent` of the page
pub record Member : Type 0 where
  pub id : Str
  pub username : Str
  pub display_name : Str
  pub description : Str
  pub active : Bool
  pub created_at : Str

pub record Form : Type 0 where
  pub username : Str
  pub display_name : Str
  pub description : Str

pub record Settings : Type 0 where
  pub agents : List Member
  pub form : Form
  pub loading : Bool
  pub creating : Bool

abbrev pub empty_form : Form
empty_form = record { username = []; display_name = []; description = [] }

unfoldable pub init : Settings
init = record { agents = []; form = empty_form; loading = true; creating = false }

-- The effect of the first render, whose request answers with `data.agents`.
unfoldable pub load : Option (Option (List Member)) → Settings → Settings
load none p = record p { loading = false }
load (some none) p = record p { agents = []; loading = false }
load (some (some agents)) p = record p { agents = agents; loading = false }

-- `createAgent` until its request: the form that it sends, if any, and the page meanwhile.
unfoldable pub start_create : Settings → Option Form × Settings
start_create p =
    if truthy p.form.username && truthy p.form.display_name
    then (some p.form, record p { creating = true })
    else (none, p)

-- `createAgent` after its request.
unfoldable pub finish_create : Option Member → Settings → Settings
finish_create none p = record p { creating = false }
finish_create (some a) p = record p {
  agents = p.agents ++ a ∷ [];
  form = empty_form;
  creating = false;
}

abbrev pub set_active : Str → Bool → Member → Member
set_active agent_id active a = if str_eq a.id agent_id then record a { active = not active } else a

-- `toggleActive(agentId, active)`: `sent` when the request was answered, with whatever status.
unfoldable pub toggle_active : Bool → Str → Bool → Settings → Settings
toggle_active sent agent_id active p =
    if sent then record p { agents = map (set_active agent_id active) p.agents } else p
