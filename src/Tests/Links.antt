-- ===== src/Tests/Links.antt =====
-- Where the pages lead, on concrete investigations and addresses.
use trokk.Prelude.{◌≡◌, refl, false, List, [], ◌∷◌, some, All}
use trokk.Text.{str, trim}
use trokk.Ui.{links}
use trokk.Pages.Dashboard.{Request, Event}
use trokk.Pages.Dashboard
use trokk.Pages.Dashboard.Laws.{IsFresh}
use trokk.Pages.Dashboard.View.{content_items, dashboard_inner}
use trokk.Pages.Dashboard.Links.{run-init-links}
use trokk.Pages.Landing.{Landing, handle_submit, pick_template}
use trokk.Pages.Landing.Laws.{dashboard_inner-handle_submit}
use trokk.Tests.Data.{plain_locale, query_of, url}

abbrev started : Dashboard.Investigation
started = record {
  id = str "i1";
  question = str "why?";
  status = str "in_progress";
  created_at = [];
}

abbrev events : List Event
events = Event.typed (str "why?") ∷ Event.start_settled (some started) ∷ Event.interval_fired ∷ []

events-IsFresh : All IsFresh events
unfolding IsFresh
events-IsFresh = (tt, (refl, (tt, tt)))

run-init-links_example :
    links (content_items plain_locale (Dashboard.run events (Dashboard.init []))) ≡ []
unfolding Dashboard.run Dashboard.init Dashboard.step
run-init-links_example = run-init-links plain_locale events [] started events-IsFresh refl

abbrev asked : Landing
asked = record { question = str " why? "; loading = false }

dashboard_inner-handle_submit_example :
    ((handle_submit url asked).1 ≡ some (str "/dashboard?q=why?"))
    × (dashboard_inner (query_of (str "/dashboard?q=why?")) ≡ Dashboard.init (str "why?"))
    × (Dashboard.start_investigation (Dashboard.init (str "why?"))
        ≡ Request.post_investigation (str "why?") ∷ [])
    × (pick_template url (str "Investigate...") ≡ some (str "/dashboard?q=Investigate..."))
    × (dashboard_inner (query_of (str "/dashboard?q=Investigate..."))
        ≡ Dashboard.init (str "Investigate..."))
unfolding trim
dashboard_inner-handle_submit_example =
    dashboard_inner-handle_submit url asked (str "why?") (str "Investigate...")
      (str "Investigate...") refl refl refl
