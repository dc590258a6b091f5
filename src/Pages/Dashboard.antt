-- ===== src/Pages/Dashboard.antt =====
-- ferr/src/app/dashboard/page.tsx: the state of the dashboard, its handlers with the requests that
-- they make, and the interval that polls while an investigation is under way. The page reads the
-- backend by itself; what its requests answer is carried by the events.
pub mod Laws
pub mod View
pub mod Links
use trokk.Prelude.{
  ℕ, ◌+◌, ◌-◌, Bool, true, false, ◌&&◌, ◌||◌, not, List, [], ◌∷◌, Option, none, some, find,
  if◌then◌else◌,
}
use trokk.Text.{Str, str, str_eq, trim, truthy}

-- `interface Investigation`
pub record Investigation : Type 0 where
  pub id : Str
  pub question : Str
  pub status : Str
  pub created_at : Str

-- `interface MessageResponse` and `interface Agent` of the page
pub record Finding : Type 0 where
  pub id : Str
  pub agent_id : Str
  pub agent_username : Str
  pub agent_display_name : Str
  pub content : Str
  pub endorsement_count : ℕ
  pub propagation_count : ℕ
  pub created_at : Str

pub record Member : Type 0 where
  pub id : Str
  pub username : Str
  pub display_name : Str
  pub active : Bool

-- The cells of the component; `intervals` counts the intervals that are set.
pub record Dashboard : Type 0 where
  pub question : Str
  pub investigations : List Investigation
  pub findings : List Finding
  pub agents : List Member
  pub active_inv : Option Investigation
  pub polling : Bool
  pub intervals : ℕ

pub data Request : Type 0 where
  get_investigations get_messages get_agents : Request
  post_investigation : Str → Request
  post_consensus : Str → Request

-- What a read settles to: it failed, or `data`, whose list may be missing.
pub data Answer (A : Type 0) : Type 0 where
  failed : Answer A
  data_of : Option (List A) → Answer A

-- `list || []`
abbrev pub or_empty : {A : Type 0} → Option (List A) → List A
or_empty none = []
or_empty (some xs) = xs

-- `["in_progress", "consensus", "pending"].includes(i.status)`
abbrev pub is_active : Investigation → Bool
is_active i =
    str_eq i.status (str "in_progress")
    || str_eq i.status (str "consensus")
    || str_eq i.status (str "pending")

-- `["in_progress", "consensus"].includes(activeInv.status)`, for the `activeInv` there is
abbrev pub is_live : Option Investigation → Bool
is_live none = false
is_live (some i) = str_eq i.status (str "in_progress") || str_eq i.status (str "consensus")

-- `activeInv?.status === activeInv?.status`, the dependency of the effect
abbrev pub same_status : Option Investigation → Option Investigation → Bool
same_status none none = true
same_status none (some j) = false
same_status (some i) none = false
same_status (some i) (some j) = str_eq i.status j.status

abbrev pub keep_active : Option Investigation → Option Investigation → Option Investigation
keep_active old none = old
keep_active old (some i) = some i

-- The rest of `fetchInvestigations`, `fetchFindings` and `fetchAgents` after the answer.
unfoldable pub fetch_investigations : Answer Investigation → Dashboard → Dashboard
fetch_investigations failed p = p
fetch_investigations (data_of list) p = record p {
  investigations = or_empty list;
  active_inv = keep_active p.active_inv (find is_active (or_empty list));
}

unfoldable pub fetch_findings : Answer Finding → Dashboard → Dashboard
fetch_findings failed p = p
fetch_findings (data_of list) p = record p { findings = or_empty list }

unfoldable pub fetch_agents : Answer Member → Dashboard → Dashboard
fetch_agents failed p = p
fetch_agents (data_of list) p = record p { agents = or_empty list }

-- The requests of `startInvestigation` and `triggerConsensus`, and what the first does once its
-- request has settled (`none`: it threw).
unfoldable pub start_investigation : Dashboard → List Request
start_investigation p =
    if truthy (trim p.question) then post_investigation (trim p.question) ∷ [] else []

unfoldable pub after_start : Option Investigation → Dashboard → Dashboard × List Request
after_start none p = (p, [])
after_start (some i) p = (record p { active_inv = some i; question = [] }, get_investigations ∷ [])

unfoldable pub trigger_consensus : Dashboard → List Request
trigger_consensus p = elim p.active_inv [ none ↦ [] | some i ↦ post_consensus i.id ∷ [] ]

-- `handleKeyDown`, with `e.key` and `e.shiftKey`
unfoldable pub handle_key_down : Str → Bool → Dashboard → List Request
unfolding start_investigation
handle_key_down key shift p =
    if str_eq key (str "Enter") && not shift then start_investigation p else []

-- The effect on `activeInv?.status`: the cleanup of the previous run, then the new run.
unfoldable pub clean_up : Option Investigation → Dashboard → Dashboard
clean_up previous p =
    if is_live previous then record p { polling = false; intervals = p.intervals - 1 } else p

unfoldable pub set_up : Dashboard → Dashboard
set_up p =
    if is_live p.active_inv then record p { polling = true; intervals = p.intervals + 1 } else p

unfoldable pub poll_effect : Option Investigation → Dashboard → Dashboard
unfolding clean_up set_up
poll_effect previous p =
    if same_status previous p.active_inv then p else set_up (clean_up previous p)

-- `consensus_settled` and `start_settled`: the request of a button has settled.
pub data Event : Type 0 where
  typed : Str → Event
  key_down : Str → Bool → Event
  start_pressed consensus_pressed interval_fired : Event
  investigations_settled : Answer Investigation → Event
  findings_settled : Answer Finding → Event
  agents_settled : Answer Member → Event
  start_settled : Option Investigation → Event
  consensus_settled : Bool → Event

-- The handler of an event, with the requests that it makes.
unfoldable pub handle : Event → Dashboard → Dashboard × List Request
unfolding fetch_investigations fetch_findings fetch_agents start_investigation after_start
    trigger_consensus handle_key_down
handle (typed q) p = (record p { question = q }, [])
handle (key_down key shift) p = (p, handle_key_down key shift p)
handle start_pressed p = (p, start_investigation p)
handle consensus_pressed p = (p, trigger_consensus p)
handle interval_fired p = (p, get_investigations ∷ get_messages ∷ [])
handle (investigations_settled r) p = (fetch_investigations r p, [])
handle (findings_settled r) p = (fetch_findings r p, [])
handle (agents_settled r) p = (fetch_agents r p, [])
handle (start_settled r) p = after_start r p
handle (consensus_settled true) p = (p, get_investigations ∷ [])
handle (consensus_settled false) p = (p, [])

-- An event, and the effect of the render after it.
unfoldable pub step : Event → Dashboard → Dashboard
unfolding handle poll_effect
step e p = poll_effect p.active_inv (handle e p).0

unfoldable pub run : List Event → Dashboard → Dashboard
run [] p = p
run (e ∷ es) p = run es (step e p)

-- The page at its first render, which requests all three lists.
unfoldable pub init : Str → Dashboard
init initial_question = record {
  question = initial_question;
  investigations = [];
  findings = [];
  agents = [];
  active_inv = none;
  polling = false;
  intervals = 0;
}

-- The link "View Report" is rendered.
abbrev pub shows_report : Option Investigation → Bool
shows_report none = false
shows_report (some i) = str_eq i.status (str "complete")
