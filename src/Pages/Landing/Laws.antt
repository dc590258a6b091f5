-- ===== src/Pages/Landing/Laws.antt =====
-- From the landing page to the dashboard.
use trokk.Prelude.{◌≡◌, true, [], ◌∷◌, ◌++◌, some}
use trokk.Text.{Str, str, trim, truthy}
use trokk.Text.Trim.{trim-trim}
use trokk.Pages.Landing.{Url, Landing, handle_submit, pick_template}
use trokk.Pages.Dashboard.{Request, init, start_investigation}
use trokk.Pages.Dashboard.View.{dashboard_inner}

-- If the question is not blank and can be encoded, submitting it pushes an address at which the
-- dashboard opens with the question, trimmed, and whose button then posts exactly that question. A
-- template that can be encoded opens the dashboard with its own text.
pub dashboard_inner-handle_submit :
    (url : Url) (p : Landing) (e placeholder e' : Str)
    → truthy (trim p.question) ≡ true
    → url.encode (trim p.question) ≡ some e
    → url.encode placeholder ≡ some e'
    → ((handle_submit url p).1 ≡ some (str "/dashboard?q=" ++ e))
      × (dashboard_inner (url.get_q (str "/dashboard?q=" ++ e)) ≡ init (trim p.question))
      × (start_investigation (init (trim p.question))
          ≡ Request.post_investigation (trim p.question) ∷ [])
      × (pick_template url placeholder ≡ some (str "/dashboard?q=" ++ e'))
      × (dashboard_inner (url.get_q (str "/dashboard?q=" ++ e')) ≡ init placeholder)
unfolding handle_submit pick_template dashboard_inner init start_investigation
dashboard_inner-handle_submit url p e placeholder e' filled coded coded' = (
  rw (filled, coded),
  rw (url.get_q-encode (trim p.question) e coded),
  rw (trim-trim p.question, filled),
  rw coded',
  rw (url.get_q-encode placeholder e' coded'),
)
