-- ===== src/Pages/Dashboard/Laws.antt =====
-- What the dashboard keeps through every sequence of events: its interval, and what it can show.
use trokk.Prelude.{
  ℕ, ◌≡◌, refl, ap, ◌∙◌, Bool, true, false, ◌||◌, List, [], ◌∷◌, Option, none, some, find, All,
  arith, Bool-cases, inl, inr,
}
use trokk.Text.{Str, str, str_eq, str_eq_iff}
use trokk.Pages.Dashboard.{
  Investigation, Dashboard, Answer, Event, is_active, is_live, same_status, keep_active, or_empty,
  shows_report, handle, poll_effect, step, run, init,
}

abbrev count : Bool → ℕ
count true = 1
count false = 0

-- The page polls when the investigation is under way, by one interval.
unfoldable pub IsPolled : Dashboard → Type 0
IsPolled p = (p.polling ≡ is_live p.active_inv) × (p.intervals ≡ count (is_live p.active_inv))

same_status-is_live : (i j : Option Investigation) → same_status i j ≡ true → is_live i ≡ is_live j
same_status-is_live none none h = refl
same_status-is_live none (some j) h = ground arith
same_status-is_live (some i) none h = ground arith
same_status-is_live (some i) (some j) h =
    ap (λ t. str_eq t (str "in_progress") || str_eq t (str "consensus"))
      ((str_eq_iff i.status j.status).0 h)

-- An event leaves the two cells of the interval alone.
handle-frame :
    (e : Event) (p : Dashboard)
    → ((handle e p).0.polling ≡ p.polling) × ((handle e p).0.intervals ≡ p.intervals)
unfolding handle
handle-frame (Event.typed q) p = (refl, refl)
handle-frame (Event.key_down key shift) p = (refl, refl)
handle-frame Event.start_pressed p = (refl, refl)
handle-frame Event.consensus_pressed p = (refl, refl)
handle-frame Event.interval_fired p = (refl, refl)
handle-frame (Event.investigations_settled Answer.failed) p = (refl, refl)
handle-frame (Event.investigations_settled (Answer.data_of list)) p = (refl, refl)
handle-frame (Event.findings_settled Answer.failed) p = (refl, refl)
handle-frame (Event.findings_settled (Answer.data_of list)) p = (refl, refl)
handle-frame (Event.agents_settled Answer.failed) p = (refl, refl)
handle-frame (Event.agents_settled (Answer.data_of list)) p = (refl, refl)
handle-frame (Event.start_settled none) p = (refl, refl)
handle-frame (Event.start_settled (some i)) p = (refl, refl)
handle-frame (Event.consensus_settled true) p = (refl, refl)
handle-frame (Event.consensus_settled false) p = (refl, refl)

poll_effect-IsPolled :
    (previous : Option Investigation) (p : Dashboard)
    → p.polling ≡ is_live previous
    → p.intervals ≡ count (is_live previous)
    → IsPolled (poll_effect previous p)
unfolding poll_effect IsPolled
poll_effect-IsPolled previous p h k = elim (Bool-cases (same_status previous p.active_inv)) [
  | inl same ↦ rw same ground (arith, same_status-is_live previous p.active_inv same)
  | inr other ↦ rw other ground arith
]

step-IsPolled : (e : Event) (p : Dashboard) → IsPolled p → IsPolled (step e p)
unfolding step IsPolled
step-IsPolled e p h =
    poll_effect-IsPolled p.active_inv (handle e p).0 ((handle-frame e p).0 ∙ h.0)
      ((handle-frame e p).1 ∙ h.1)

-- Through every sequence of events from the first render, the page says that it polls just when
-- the investigation that it shows is in progress or in consensus, and then one interval is set;
-- otherwise none is.
pub run-init-IsPolled : (es : List Event) (q : Str) → IsPolled (run es (init q))
unfolding init run IsPolled
run-init-IsPolled es q = runs es (init q) (refl, refl)
  where
    runs : (es' : List Event) (p : Dashboard) → IsPolled p → IsPolled (run es' p)
    runs [] p h = h
    runs (e ∷ es') p h = runs es' (step e p) (step-IsPolled e p h)

-- The answer to a new investigation is not one that is complete already.
unfoldable pub IsFresh : Event → Type 0
IsFresh (Event.start_settled r) = shows_report r ≡ false
IsFresh _ = Unit

is_active-shows_report : (i : Investigation) → is_active i ≡ true → shows_report (some i) ≡ false
is_active-shows_report i h = elim (Bool-cases (str_eq i.status (str "complete"))) [
  | inl e ↦ absurd (clash ((str_eq_iff i.status (str "complete")).0 e))
  | inr e ↦ e
]
  where
    inactive : i.status ≡ str "complete" → is_active i ≡ false
    inactive e = ap (λ t. is_active (record i { status = t })) e

    clash : i.status ≡ str "complete" → ⊥
    clash e = cc (h, inactive e)

find-shows_report : (is : List Investigation) → shows_report (find is_active is) ≡ false
find-shows_report [] = refl
find-shows_report (i ∷ is) = elim (Bool-cases (is_active i)) [
  | inl e ↦ rw e (is_active-shows_report i e)
  | inr e ↦ rw e (find-shows_report is)
]

keep_active-shows_report :
    (i j : Option Investigation)
    → shows_report i ≡ false
    → shows_report j ≡ false
    → shows_report (keep_active i j) ≡ false
keep_active-shows_report i none h k = h
keep_active-shows_report i (some j) h k = k

handle-shows_report :
    (e : Event) (p : Dashboard)
    → IsFresh e
    → shows_report p.active_inv ≡ false
    → shows_report (handle e p).0.active_inv ≡ false
unfolding handle IsFresh
handle-shows_report (Event.typed q) p f h = h
handle-shows_report (Event.key_down key shift) p f h = h
handle-shows_report Event.start_pressed p f h = h
handle-shows_report Event.consensus_pressed p f h = h
handle-shows_report Event.interval_fired p f h = h
handle-shows_report (Event.investigations_settled Answer.failed) p f h = h
handle-shows_report (Event.investigations_settled (Answer.data_of list)) p f h =
    keep_active-shows_report p.active_inv (find is_active (or_empty list)) h
      (find-shows_report (or_empty list))
handle-shows_report (Event.findings_settled Answer.failed) p f h = h
handle-shows_report (Event.findings_settled (Answer.data_of list)) p f h = h
handle-shows_report (Event.agents_settled Answer.failed) p f h = h
handle-shows_report (Event.agents_settled (Answer.data_of list)) p f h = h
handle-shows_report (Event.start_settled none) p f h = h
handle-shows_report (Event.start_settled (some i)) p f h = f
handle-shows_report (Event.consensus_settled true) p f h = h
handle-shows_report (Event.consensus_settled false) p f h = h

-- The effect leaves the investigation alone.
poll_effect-active_inv :
    (previous : Option Investigation) (p : Dashboard)
    → (poll_effect previous p).active_inv ≡ p.active_inv
unfolding poll_effect
poll_effect-active_inv previous p = ground arith

step-shows_report :
    (e : Event) (p : Dashboard)
    → IsFresh e
    → shows_report p.active_inv ≡ false
    → shows_report (step e p).active_inv ≡ false
unfolding step
step-shows_report e p fresh h =
    ap shows_report (poll_effect-active_inv p.active_inv (handle e p).0)
    ∙ handle-shows_report e p fresh h

-- If no investigation is complete in the answer that creates it, then through every sequence of
-- events from the first render the page never shows the link to a report, whatever the lists that
-- it polls say.
pub run-init-shows_report :
    (es : List Event) (q : Str) → All IsFresh es → shows_report (run es (init q)).active_inv ≡ false
unfolding init run
run-init-shows_report es q fresh = runs es (init q) fresh refl
  where
    runs :
        (es' : List Event) (p : Dashboard)
        → All IsFresh es'
        → shows_report p.active_inv ≡ false
        → shows_report (run es' p).active_inv ≡ false
    runs [] p f h = h
    runs (e ∷ es') p f h = runs es' (step e p) f.1 (step-shows_report e p f.0 h)
