-- ===== src/Pages/Report/View.antt =====
-- ferr/src/app/reports/[id]/page.tsx: what the report's page shows.
use trokk.Prelude.{not, List, [], ◌∷◌, ◌++◌, Option, none, some, if◌then◌else◌}
use trokk.Text.{Str, str, str_eq, truthy}
use trokk.Text.Digits.{decimal}
use trokk.Ui.{
  Item, heading, text, link, end_link, swatch, show_if, each, is_empty, skeletons, first_unit,
  last_with, Locale,
}
use trokk.Pages.Report.{
  Fraction, KeyFinding, Contradiction, Report, InvestigationDetail, Message, Member, Page,
}

-- The color of the bar, whose length is left out: above 0.7, above 0.4, or neither.
abbrev confidence_color : Fraction → Str
confidence_color x =
    if x.above_07
    then str "var(--color-success)"
    else if x.above_04
    then str "var(--color-warning)"
    else str "var(--color-danger)"

abbrev pub confidence_items : Option Fraction → List Item
confidence_items none = []
confidence_items (some x) =
    text (str "Confidence") ∷ swatch (confidence_color x) ∷ text (x.percent ++ str "%") ∷ []

-- `kf.confidence ? … : ""`
abbrev percent_of : Option Fraction → Str
percent_of none = []
percent_of (some x) = if x.nonzero then x.percent ++ str "%" else []

abbrev verified_text : Str → Str
verified_text v = if truthy v then str " · Verified: " ++ v else []

abbrev pub key_finding_items : KeyFinding → List Item
key_finding_items k =
    text (percent_of k.confidence)
    ∷ text k.finding
    ∷ show_if (truthy k.agent) (text (str "Source: " ++ k.agent ++ verified_text k.verified) ∷ [])

abbrev pub contradiction_items : Contradiction → List Item
contradiction_items c = text c.claim_a ∷ text c.claim_b ∷ text c.resolution ∷ []

-- A section with a heading, shown if its list is not empty.
abbrev pub section {ℓ} : {A : Type ℓ} → Str → (A → List Item) → List A → List Item
section title f xs = show_if (not (is_empty xs)) (heading title ∷ each f xs)

unfoldable pub report_items : Report → List Item
report_items r =
    (heading (str "Executive Summary") ∷ text r.executive_summary ∷ [])
    ++ confidence_items r.confidence_score
    ++ section (str "Key Findings") key_finding_items r.key_findings
    ++ section (str "Contradictions") contradiction_items r.contradictions
    ++ section (str "Open Questions") (λ q. text (str "?") ∷ text q ∷ []) r.open_questions
    ++ section (str "Recommendations") (λ q. text (str "→") ∷ text q ∷ []) r.recommendations

-- The text in place of a report, by the status of the investigation.
unfoldable pub no_report_text : Str → Str
no_report_text status =
    if str_eq status (str "in_progress")
    then str
        "Investigation is in progress. The report will be generated once agents complete their findings."
    else if str_eq status (str "consensus")
    then str "Generating consensus report..."
    else str "No report yet."

abbrev pub report_or_text : InvestigationDetail → Option Report → List Item
report_or_text i none = text (no_report_text i.status) ∷ []
report_or_text i (some r) = report_items r

-- `agentMap[m.agent_id]`
abbrev pub agent_of : Str → List Member → Option Member
agent_of id agents = last_with (λ a. a.id) id agents

abbrev pub initial : Option Member → Str
initial none = str "?"
initial (some a) = if truthy a.display_name then first_unit a.display_name else str "?"

abbrev pub shown_name : Option Member → Str → Str
shown_name none username = username
shown_name (some a) username = if truthy a.display_name then a.display_name else username

module _ (loc : Locale) where
  unfoldable pub message_items : List Member → Message → List Item
  message_items agents m =
      let agent = agent_of m.agent_id agents in
      text (initial agent)
      ∷ text (shown_name agent m.agent_username)
      ∷ text (loc.to_locale_string m.created_at)
      ∷ text m.content
      ∷ text (str "✓ " ++ decimal m.endorsement_count ++ str " verified")
      ∷ text (str "↑ " ++ decimal m.propagation_count ++ str " escalated")
      ∷ text (str "↩ " ++ decimal m.response_count ++ str " responses")
      ∷ []

  abbrev header_items : List Item
  header_items = link (str "/") ∷ text (str "Trokk") ∷ end_link ∷ []

  -- The page with an investigation.
  unfoldable pub detail_items : Page → InvestigationDetail → List Item
  unfolding report_items no_report_text message_items
  detail_items p i =
      header_items
      ++ (link (str "/investigations")
          ∷ text (str "All Investigations")
          ∷ end_link
          ∷ link (str "/dashboard")
          ∷ text (str "New →")
          ∷ end_link
          ∷ text (str "Report")
          ∷ heading i.question
          ∷ [])
      ++ report_or_text i i.report
      ++ section (str "Agent Findings") (message_items p.agents) p.messages

  abbrev pub settled_items : Page → Option InvestigationDetail → List Item
  settled_items p none = header_items ++ (text (str "Report not found.") ∷ [])
  settled_items p (some i) = detail_items p i

  unfoldable pub page_items : Page → List Item
  unfolding detail_items
  page_items p = if p.loading then header_items ++ skeletons 3 else settled_items p p.inv
