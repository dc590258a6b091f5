-- ===== src/Pages/Site/Flaws.antt =====
-- The links of the landing page, the dashboard, the list of investigations and the reports lead to
-- each other alone, and these pages have no icon that is not drawn.
use trokk.Prelude.{
  ◌≡◌, refl, subst, Bool, true, ◌||◌, List, [], ◌∷◌, Option, none, some, take, if◌then◌else◌,
  Bool-cases, inl, inr,
}
use trokk.Text.{Str, str, str_eq, str_eq_iff, starts_with}
use trokk.Icon.{is_drawn}
use trokk.Ui.{Item, heading, text, icon, link, links, each, collect, collect-each, collects, Locale}
use trokk.Pages.Site.{at_path, has_link}
use trokk.Pages.Landing.{Landing, page_items as landing_items, templates}
use trokk.Pages.Dashboard.{Dashboard}
use trokk.Pages.Dashboard
use trokk.Pages.Dashboard.View.{
  finding_items, active_items, recent_items, below_items, content_items,
  page_items as dashboard_items,
}
use trokk.Pages.Investigations.{
  Investigations, page_items as investigations_items, row_items, address, list_items,
}
use trokk.Pages.Investigations
use trokk.Pages.Report.{Report, Fraction, KeyFinding, InvestigationDetail, Page}
use trokk.Pages.Report.View.{
  confidence_items, key_finding_items, contradiction_items, report_or_text, report_items,
  message_items, detail_items, settled_items, page_items as report_page_items,
}

-- The addresses of the four pages.
abbrev pub is_open : Str → Bool
is_open a =
    at_path (str "/") a
    || at_path (str "/dashboard") a
    || at_path (str "/investigations") a
    || starts_with (str "/reports/") a

abbrev pub flaw : Item → List Str
flaw (link a) = if is_open a then [] else a ∷ []
flaw (icon n) = if is_drawn n then [] else n ∷ []
flaw _ = []

-- The links that lead elsewhere, and the icons that are not drawn.
abbrev pub flaws : List Item → List Str
flaws items = collect flaw items

-- Without flaws every link is open.
pub has_link-open :
    (b : Str) (items : List Item)
    → flaws items ≡ []
    → has_link b (links items) ≡ true
    → is_open b ≡ true
has_link-open b [] s h = cc
has_link-open b (link a ∷ items) s h = elim (Bool-cases (is_open a)) [
  | inl e ↦ elim (Bool-cases (str_eq a b)) [
    | inl same ↦ subst (λ c. is_open c ≡ true) ((str_eq_iff a b).0 same) e
    | inr other ↦ has_link-open b items (rw e at s) (rw other at h)
  ]
  | inr e ↦ absurd (elsewhere (rw e at s))
]
  where
    elsewhere : ◌≡◌ {A = List Str} (a ∷ flaws items) [] → ⊥
    elsewhere p = cc
has_link-open b (icon n ∷ items) s h = elim (Bool-cases (is_drawn n)) [
  | inl e ↦ has_link-open b items (rw e at s) h
  | inr e ↦ absurd (undrawn (rw e at s))
]
  where
    undrawn : ◌≡◌ {A = List Str} (n ∷ flaws items) [] → ⊥
    undrawn p = cc
has_link-open b (heading t ∷ items) s h = has_link-open b items s h
has_link-open b (_ ∷ items) s h = has_link-open b items s h

pub landing-flaws : (p : Landing) → flaws (landing_items p) ≡ []
unfolding landing_items templates
landing-flaws p = refl

flaws-finding_items :
    (loc : Locale) (p : Dashboard) → flaws (each (finding_items loc p.agents) p.findings) ≡ []
unfolding finding_items
flaws-finding_items loc p = collect-each flaw (finding_items loc p.agents) p.findings (λ f. refl)

flaws-recent_items :
    (loc : Locale) (is : List Dashboard.Investigation) → flaws (each (recent_items loc) is) ≡ []
unfolding recent_items
flaws-recent_items loc is = collect-each flaw (recent_items loc) is (λ i. refl)

flaws-below_items :
    (loc : Locale) (p : Dashboard) (o : Option Dashboard.Investigation)
    → flaws (below_items loc p o) ≡ []
unfolding below_items active_items
flaws-below_items loc p none = simp (collects, flaws-recent_items loc (take 5 p.investigations))
flaws-below_items loc p (some i) = simp (collects, flaws-finding_items loc p)

pub dashboard-flaws : (loc : Locale) (p : Dashboard) → flaws (dashboard_items loc p) ≡ []
unfolding dashboard_items content_items
dashboard-flaws loc p = flaws-below_items loc p p.active_inv

row_items-flaws : (loc : Locale) (i : Investigations.Investigation) → flaws (row_items loc i) ≡ []
unfolding row_items address
row_items-flaws loc i = elim (Bool-cases (str_eq i.status (str "complete"))) [
  | inl e ↦ rw e
  | inr e ↦ rw e
]

investigations-list_items :
    (loc : Locale) (is : List Investigations.Investigation) → flaws (list_items loc is) ≡ []
investigations-list_items loc [] = refl
investigations-list_items loc (i ∷ is) =
    collect-each flaw (row_items loc) (i ∷ is) (row_items-flaws loc)

pub investigations-flaws :
    (loc : Locale) (p : Investigations) → flaws (investigations_items loc p) ≡ []
unfolding investigations_items
investigations-flaws loc p = elim (Bool-cases p.loading) [
  | inl e ↦ rw e
  | inr e ↦ rw e (investigations-list_items loc p.investigations)
]

confidence-flaws : (o : Option Fraction) → flaws (confidence_items o) ≡ []
confidence-flaws none = refl
confidence-flaws (some x) = refl

key_finding-flaws : (k : KeyFinding) → flaws (key_finding_items k) ≡ []
key_finding-flaws k = simp collects

report_items-flaws : (r : Report) → flaws (report_items r) ≡ []
unfolding report_items
report_items-flaws r = simp (
  collects,
  confidence-flaws r.confidence_score,
  collect-each flaw key_finding_items r.key_findings key_finding-flaws,
  collect-each flaw contradiction_items r.contradictions (λ c. refl),
  collect-each flaw (λ (q : Str). text (str "?") ∷ text q ∷ []) r.open_questions (λ q. refl),
  collect-each flaw (λ (q : Str). text (str "→") ∷ text q ∷ []) r.recommendations (λ q. refl),
)

report_or_text-flaws :
    (i : InvestigationDetail) (o : Option Report) → flaws (report_or_text i o) ≡ []
report_or_text-flaws i none = refl
report_or_text-flaws i (some r) = report_items-flaws r

settled-flaws :
    (loc : Locale) (p : Page) (o : Option InvestigationDetail) → flaws (settled_items loc p o) ≡ []
unfolding detail_items message_items
settled-flaws loc p none = refl
settled-flaws loc p (some i) = simp (
  collects,
  report_or_text-flaws i i.report,
  collect-each flaw (message_items loc p.agents) p.messages (λ m. refl),
)

pub report-flaws : (loc : Locale) (p : Page) → flaws (report_page_items loc p) ≡ []
unfolding report_page_items
report-flaws loc p = elim (Bool-cases p.loading) [
  | inl e ↦ rw e
  | inr e ↦ rw e (settled-flaws loc p p.inv)
]
