-- ===== src/Pages/Investigations.antt =====
-- ferr/src/app/investigations/page.tsx: the list of the past investigations.
use trokk.Prelude.{Bool, true, false, List, [], ◌∷◌, ◌++◌, Option, none, some, if◌then◌else◌}
use trokk.Text.{Str, str, str_eq, truthy}
use trokk.Ui.{Item, heading, text, link, end_link, each, skeletons, replace_underscore, Locale}

-- `interface Investigation` of the page
pub record Investigation : Type 0 where
  pub id : Str
  pub question : Str
  pub status : Str
  pub created_at : Str
  pub completed_at : Option Str

pub record Investigations : Type 0 where
  pub investigations : List Investigation
  pub loading : Bool

unfoldable pub init : Investigations
init = record { investigations = []; loading = true }

-- The effect of the first render, whose request answers with `data.investigations` or fails.
unfoldable pub load : Option (Option (List Investigation)) → Investigations → Investigations
load none p = record p { loading = false }
load (some none) p = record { investigations = []; loading = false }
load (some (some list)) p = record { investigations = list; loading = false }

-- `inv.status === "complete" ? … : …`
unfoldable pub address : Investigation → Str
address i =
    if str_eq i.status (str "complete")
    then str "/reports/" ++ i.id
    else str "/dashboard?inv=" ++ i.id

module _ (loc : Locale) where
  abbrev completed : Option Str → Str
  completed none = []
  completed (some at) =
      if truthy at then str " · completed " ++ loc.to_locale_date_string at else []

  unfoldable pub row_items : Investigation → List Item
  unfolding address replace_underscore
  row_items i =
      link (address i)
      ∷ text i.question
      ∷ text (loc.to_locale_date_string i.created_at ++ completed i.completed_at)
      ∷ text (replace_underscore i.status)
      ∷ end_link
      ∷ []

  abbrev pub list_items : List Investigation → List Item
  list_items [] =
      text (str "No investigations yet.")
      ∷ link (str "/dashboard")
      ∷ text (str "Start your first →")
      ∷ end_link
      ∷ []
  list_items (i ∷ is) = each row_items (i ∷ is)

  unfoldable pub page_items : Investigations → List Item
  unfolding row_items
  page_items p =
      link (str "/")
      ∷ text (str "Trokk")
      ∷ end_link
      ∷ link (str "/dashboard")
      ∷ text (str "New Investigation →")
      ∷ end_link
      ∷ heading (str "Investigations")
      ∷ (if p.loading then skeletons 6 else list_items p.investigations)
