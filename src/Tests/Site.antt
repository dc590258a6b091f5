-- ===== src/Tests/Site.antt =====
-- A way from the landing page to the list of investigations.
use trokk.Prelude.{◌≡◌, refl, true, [], List, none}
use trokk.Text.{Str, str}
use trokk.Types.{MessageResponse}
use trokk.Runtime.{plain_dates}
use trokk.Pages.Landing.{pick_template}
use trokk.Pages.Dashboard
use trokk.Pages.Dashboard.View.{page_items, content_items}
use trokk.Pages.Investigations
use trokk.Pages.Site.{Screen, fits, items_of, follows, picks, Reaches, here, next}
use trokk.Pages.Site.Flaws.{is_open}
use trokk.Pages.Site.Laws.{is_open_screen, Reaches-fits}
use trokk.Pages.Site.Icons.{undrawn, is_drawn-items_of}
use trokk.Pages.Nav.{bar_items}
use trokk.Icon.{is_drawn, is_name, icon_names}
use trokk.Tests.Data.{plain_locale, url}

abbrev print : List MessageResponse → Str
print messages = []

way : Reaches url plain_locale plain_dates 0 print (str "/") (str "/investigations")
unfolding pick_template fits items_of page_items content_items Dashboard.init
way =
    next (next here (picks (str "Investigate...") refl refl))
      (follows (Screen.dashboard (Dashboard.init [])) refl refl)

investigations_fit : fits (Screen.investigations Investigations.init) (str "/investigations") ≡ true
unfolding fits
investigations_fit = refl

Reaches-fits_example :
    (is_open (str "/investigations") ≡ true)
    × (is_open_screen (Screen.investigations Investigations.init) ≡ true)
Reaches-fits_example =
    Reaches-fits url plain_locale plain_dates 0 print (str "/investigations")
      (Screen.investigations Investigations.init) way investigations_fit

is_drawn-items_of_example :
    (undrawn (items_of url plain_locale plain_dates 0 print (Screen.dashboard (Dashboard.init [])))
      ≡ [])
    × (undrawn (bar_items (str "/agents") none) ≡ [])
    × (is_drawn (str "banner") ≡ is_name (str "banner") icon_names)
is_drawn-items_of_example =
    is_drawn-items_of plain_dates plain_locale 0 url print (Screen.dashboard (Dashboard.init []))
      (str "/agents") none (str "banner")
