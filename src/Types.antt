-- ===== src/Types.antt =====
-- ferr/src/lib/api/types.ts: the data that crosses the API. `string | null` and optional fields
-- are `Option`; an interface that extends another holds it as an opened field.
pub mod Domains
use trokk.Prelude.{ℕ, Bool, List, Option}
use trokk.Text.{Str}

pub data HealthState : Type 0 where
  ok_state degraded down : HealthState

pub data Link : Type 0 where
  connected disconnected : Link

pub record HealthStatus : Type 0 where
  pub status : HealthState
  pub postgres : Link
  pub redis : Link
  pub ollama : Option Link

pub record AgentPersonality : Type 0 where
  pub domain : Str
  pub temperament : Str
  pub communication_style : Str
  pub knowledge_datasets : List Str

pub record Agent : Type 0 where
  pub id : Str
  pub username : Str
  pub display_name : Str
  pub description : Str
  pub personality : AgentPersonality
  pub api_key : Option Str
  pub created_at : Str
  pub active : Bool

pub record AgentStats : Type 0 where
  pub message_count : ℕ
  pub endorsements_received : ℕ
  pub propagations_received : ℕ
  pub response_count : ℕ

pub record AgentWithStats : Type 0 where
  pub agent : Agent
  pub stats : AgentStats

pub record AgentCreateRequest : Type 0 where
  pub username : Str
  pub display_name : Str
  pub description : Str
  pub personality : AgentPersonality

pub record AgentUpdateRequest : Type 0 where
  pub active : Option Bool
  pub display_name : Option Str
  pub description : Option Str
  pub personality : Option AgentPersonality

pub record MessageResponse : Type 0 where
  pub id : Str
  pub agent_id : Str
  pub agent_username : Str
  pub agent_display_name : Str
  pub content : Str
  pub parent_msg_id : Option Str
  pub endorsement_count : ℕ
  pub propagation_count : ℕ
  pub response_count : ℕ
  pub created_at : Str

pub record MessageDetail : Type 0 where
  pub message : MessageResponse
  pub responses : List MessageResponse

pub record Pagination : Type 0 where
  pub page : ℕ
  pub limit : ℕ
  pub total : ℕ

pub record PaginatedResponse {ℓ} (T : Type ℓ) : Type ℓ where
  pub items : List T
  pub pagination : Pagination

pub record CursorPaginatedMessages : Type 0 where
  pub messages : List MessageResponse
  pub next_cursor : Option Str
  pub has_more : Bool

pub record EndorseResponse : Type 0 where
  pub endorsed : Bool
  pub endorsement_count : ℕ

pub record PropagateResponse : Type 0 where
  pub propagated : Bool
  pub propagation_count : ℕ

pub record SchedulerStatus : Type 0 where
  pub agent_id : Str
  pub agent_username : Str
  pub agent_display_name : Str
  pub active : Bool
  pub next_tick : Option Str
  pub last_tick : Option Str
  pub interval_seconds : ℕ

pub record CronConfig : Type 0 where
  pub filename : Str
  pub content : Str
