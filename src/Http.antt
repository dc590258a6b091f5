-- ===== src/Http.antt =====
-- ferr/src/lib/api/client.ts: methods, results and failures, and the JSON values that the API's
-- routes exchange. `T` of `ApiResponse<T>` is erased at run time, so one type holds all of them.
use trokk.Prelude.{ℕ, Bool, true, false, List}
use trokk.Text.{Str}
use trokk.Types.{
  HealthStatus, Agent, AgentWithStats, AgentCreateRequest, AgentUpdateRequest, MessageDetail,
  CursorPaginatedMessages, EndorseResponse, PropagateResponse, SchedulerStatus, CronConfig,
}

-- `HttpMethod`
pub data Method : Type 0 where
  get post put patch delete : Method

abbrev pub method_eq : Method → Method → Bool
method_eq Method.get Method.get = true
method_eq Method.post Method.post = true
method_eq Method.put Method.put = true
method_eq Method.patch Method.patch = true
method_eq Method.delete Method.delete = true
method_eq _ _ = false

-- `body?: unknown`
pub data Body : Type 0 where
  undefined : Body
  create : AgentCreateRequest → Body
  update : AgentUpdateRequest → Body

pub data Payload : Type 0 where
  health : HealthStatus → Payload
  agent_list : List Agent → Payload
  agent_detail : AgentWithStats → Payload
  agent : Agent → Payload
  message_page : CursorPaginatedMessages → Payload
  message_detail : MessageDetail → Payload
  endorsement : EndorseResponse → Payload
  propagation : PropagateResponse → Payload
  statuses : List SchedulerStatus → Payload
  triggered : Bool → Str → Payload
  paused : ℕ → Payload
  resumed : ℕ → Payload
  configs : List CronConfig → Payload

-- What is thrown: `ApiError` and the objects that the mock throws carry a message and a status. A
-- `TypeError` is the engine's, at a property of `undefined`.
pub data Failure : Type 0 where
  api_error : Str → ℕ → Failure
  type_error : Failure

-- What a promise settles to. `untyped`: a value that is not of the type that the program gives it.
pub data Outcome {ℓ} (A : Type ℓ) : Type ℓ where
  ok : A → Outcome A
  throw : Failure → Outcome A
  untyped : Outcome A

infixl 5 ◌>>=◌
abbrev pub ◌>>=◌ {ℓ κ} : {A : Type ℓ} {B : Type κ} → Outcome A → (A → Outcome B) → Outcome B
ok a >>= f = f a
throw e >>= f = throw e
untyped >>= f = untyped

-- `ApiResponse<T>`
pub record ApiResponse : Type 0 where
  pub body : Payload
  pub status : ℕ
