-- ===== src/Pages/Dashboard/Links.antt =====
-- The links of the dashboard's content.
use trokk.Prelude.{
  ◌≡◌, refl, sym, ap, ◌∙◌, Bool, true, false, List, [], ◌∷◌, some, All, if◌then◌else◌,
}
use trokk.Text.{Str, str}
use mathlib.Core.List.{append-nil}
use trokk.Ui.{text, link, end_link, button, Locale, links, links-append, links-each, each, show_if}
use trokk.Pages.Dashboard.{Investigation, Dashboard, Event, run, init, shows_report}
use trokk.Pages.Dashboard.Laws.{IsFresh, run-init-shows_report}
use trokk.Pages.Dashboard.View.{
  finding_items, active_items, below_items, content_items, is_status, report_address,
}

links-finding_items :
    (loc : Locale) (p : Dashboard) → links (each (finding_items loc p.agents) p.findings) ≡ []
unfolding finding_items
links-finding_items loc p = links-each (finding_items loc p.agents) p.findings (λ f. refl)

links-if_text : (b : Bool) (t : Str) → links (show_if b (text t ∷ [])) ≡ []
links-if_text true t = refl
links-if_text false t = refl

links-if_button : (b : Bool) (t : Str) → links (show_if b (button t false ∷ [])) ≡ []
links-if_button true t = refl
links-if_button false t = refl

links-if_link :
    (b : Bool) (address t : Str)
    → links (show_if b (link address ∷ text t ∷ end_link ∷ [])) ≡ (if b then address ∷ [] else [])
links-if_link true address t = refl
links-if_link false address t = refl

-- The card of the active investigation has one link at most: to its report, if it is complete.
links-active_items :
    (loc : Locale) (p : Dashboard) (i : Investigation)
    → links (active_items loc p i)
      ≡ (if is_status (str "complete") i then report_address i ∷ [] else [])
unfolding active_items
links-active_items loc p i = simp (
  links-append,
  links-if_text,
  links-if_button,
  links-if_link,
  links-finding_items loc p,
  append-nil,
)

-- If no investigation is complete in the answer that creates it, then through every sequence of events
-- from the first render, while an investigation is shown, the dashboard's content has no link at all:
-- the link to the report never appears, whatever the lists that it polls say.
pub run-init-links :
    (loc : Locale) (es : List Event) (q : Str) (i : Investigation)
    → All IsFresh es
    → (run es (init q)).active_inv ≡ some i
    → links (content_items loc (run es (init q))) ≡ []
unfolding content_items below_items
run-init-links loc es q i fresh shown =
    ap (λ a. links (below_items loc (run es (init q)) a)) shown
    ∙ links-active_items loc (run es (init q)) i
    ∙ rw (sym (ap shows_report shown) ∙ run-init-shows_report es q fresh)
