-- ===== src/Pages/Registry/Form.antt =====
-- The form of the registry while an agent is edited.
use trokk.Prelude.{◌≡◌, refl, ap, ◌∙◌, true, List, [], ◌∷◌, none, some, if◌then◌else◌}
use trokk.Text.{Str, truthy}
use trokk.Types.{Agent}
use trokk.Mock.Routes.Agents.{as_update}
use trokk.Pages.Registry.{Page, updates, start_edit, submit, is_blank}
use trokk.Pages.Registry.View.{
  Field, username, display_name, description, domain, temperament, communication_style, change,
  is_editing,
}

abbrev pub change_all : List (Field × Str) → Page → Page
change_all [] p = p
change_all ((f, t) ∷ rest) p = change_all rest (change f t p)

-- The page edits this agent.
abbrev Edits : Agent → Page → Type 0
Edits a p = (p.editing_id ≡ some a.id) × (p.form.username ≡ a.username)

change-Edits :
    (a : Agent) (f : Field) (t : Str) (p : Page)
    → truthy a.id ≡ true
    → Edits a p
    → Edits a (change f t p)
unfolding change
change-Edits a username t p h e =
    let locked : is_editing p.editing_id ≡ true = ap is_editing e.0 ∙ h in rw locked e
change-Edits a display_name t p h e = e
change-Edits a description t p h e = e
change-Edits a domain t p h e = e
change-Edits a temperament t p h e = e
change-Edits a communication_style t p h e = e

change_all-Edits :
    (a : Agent) (fs : List (Field × Str)) (p : Page)
    → truthy a.id ≡ true
    → Edits a p
    → Edits a (change_all fs p)
change_all-Edits a [] p h e = e
change_all-Edits a ((f, t) ∷ rest) p h e =
    change_all-Edits a rest (change f t p) h (change-Edits a f t p h e)

-- From the edit of an agent with an identifier, whatever fields the user changes, in any order, the
-- user name stays the agent's, and the form's only request is an update of that agent by the form: it
-- makes none exactly when one of its texts is blank.
pub submit-change_all :
    (a : Agent) (fs : List (Field × Str)) (p : Page)
    → truthy a.id ≡ true
    → ((change_all fs (start_edit a p)).form.username ≡ a.username)
      × (submit (change_all fs (start_edit a p)) ≡ (
          if is_blank (change_all fs (start_edit a p)).form
          then none
          else some (updates a.id (as_update (change_all fs (start_edit a p)).form))))
unfolding submit start_edit
submit-change_all a fs p h =
    let (same, kept) = change_all-Edits a fs (start_edit a p) h (refl, refl) in
    (kept, rw same (rw h))
