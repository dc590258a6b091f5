-- ===== src/Pages/Report.antt =====
-- ferr/src/app/reports/[id]/page.tsx: the report of an investigation.
pub mod View
use trokk.Prelude.{ℕ, Bool, true, false, List, [], Option, none, some, filter, if◌then◌else◌}
use trokk.Text.{Str, str_eq, truthy}

-- A decimal fraction of a report, as far as the page reads it: whether it is other than 0, whether it
-- is above 0.7 and above 0.4, and its percentage as `(x * 100).toFixed(0)` prints it.
pub record Fraction : Type 0 where
  pub nonzero : Bool
  pub above_07 : Bool
  pub above_04 : Bool
  pub percent : Str

-- The parts of a report. A text that is missing is empty, and a list that is missing has no elements:
-- the page treats them alike.
pub record KeyFinding : Type 0 where
  pub confidence : Option Fraction
  pub finding : Str
  pub agent : Str
  pub verified : Str

pub record Contradiction : Type 0 where
  pub claim_a : Str
  pub claim_b : Str
  pub resolution : Str

pub record Report : Type 0 where
  pub executive_summary : Str
  pub confidence_score : Option Fraction
  pub key_findings : List KeyFinding
  pub contradictions : List Contradiction
  pub open_questions : List Str
  pub recommendations : List Str

pub record InvestigationTask : Type 0 where
  pub id : Str
  pub agent_id : Str
  pub task_type : Str
  pub status : Str

pub record InvestigationDetail : Type 0 where
  pub id : Str
  pub question : Str
  pub status : Str
  pub report : Option Report
  pub created_at : Str
  pub completed_at : Option Str
  pub tasks : List InvestigationTask

-- `interface MessageResponse` and `interface Agent` of the page
pub record Message : Type 0 where
  pub id : Str
  pub agent_id : Str
  pub agent_username : Str
  pub agent_display_name : Str
  pub content : Str
  pub endorsement_count : ℕ
  pub propagation_count : ℕ
  pub response_count : ℕ
  pub created_at : Str
  pub parent_msg_id : Option Str

pub record Member : Type 0 where
  pub id : Str
  pub display_name : Str
  pub username : Str

pub record Page : Type 0 where
  pub inv : Option InvestigationDetail
  pub messages : List Message
  pub agents : List Member
  pub loading : Bool

unfoldable pub init : Page
init = record { inv = none; messages = []; agents = []; loading = true }

-- `m.parent_msg_id === id`
abbrev pub answers : Str → Message → Bool
answers id m = elim m.parent_msg_id [ none ↦ false | some parent ↦ str_eq parent id ]

abbrev pub or_empty : {A : Type 0} → Option (List A) → List A
or_empty none = []
or_empty (some xs) = xs

-- The three answers of `Promise.all`.
pub record Answers : Type 0 where
  pub inv_data : InvestigationDetail
  pub msg_data : Option (List Message)
  pub agent_data : Option (List Member)

-- What the effect does when its requests have settled; `none`: one of them failed.
abbrev pub settle : Str → Option Answers → Page → Page
settle id none p = record p { loading = false }
settle id (some a) p = record {
  inv = some a.inv_data;
  messages = filter (answers id) (or_empty a.msg_data);
  agents = or_empty a.agent_data;
  loading = false;
}

-- The effect: `if (!id) return;` makes no request.
unfoldable pub load : Str → Option Answers → Page → Page
load id r p = if truthy id then settle id r p else p
