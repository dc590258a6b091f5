-- ===== src/Service.antt =====
-- ferr/src/lib/api/service.ts: a function for each call of the API. It builds the path, makes the
-- request and reads the field of the answer that it promises.
pub mod Laws
pub mod Agents
pub mod Messages
pub mod Control
pub mod Directory
pub mod Refinement
use trokk.Prelude.{ℕ, Bool, true, false, List, [], ◌∷◌, ◌++◌, Option, none, some, if◌then◌else◌}
use trokk.Text.{Str, str, truthy}
use trokk.Types.{
  HealthStatus, Agent, AgentWithStats, AgentCreateRequest, AgentUpdateRequest, MessageDetail,
  CursorPaginatedMessages, EndorseResponse, PropagateResponse, SchedulerStatus, CronConfig,
}
use trokk.Http.{
  Payload, Body, undefined, create, update, Outcome, ok, throw, untyped, ◌>>=◌, agent_list,
  agent_detail, agent, message_page, message_detail, endorsement, propagation, statuses, triggered,
  paused, resumed, configs,
}
use trokk.Http
use trokk.Mock.{Store}
use trokk.Mock.Routes.Agents.{Reply}
use trokk.Client.{Env}
use trokk.Client

-- `const res = await …; return res.data…`, where `read` is the field that is returned.
abbrev pub reading {ℓ} : {A : Type ℓ} → (Payload → Outcome A) → Reply → Outcome A × Store
reading read (o, s) = (do r ← o; read r.body, s)

abbrev pub as_health : Payload → Outcome HealthStatus
as_health (Http.health h) = ok h
as_health _ = untyped

abbrev pub as_agent_list : Payload → Outcome (List Agent)
as_agent_list (agent_list as_) = ok as_
as_agent_list _ = untyped

abbrev pub as_agent_detail : Payload → Outcome AgentWithStats
as_agent_detail (agent_detail a) = ok a
as_agent_detail _ = untyped

abbrev pub as_agent : Payload → Outcome Agent
as_agent (agent a) = ok a
as_agent _ = untyped

abbrev pub as_message_page : Payload → Outcome CursorPaginatedMessages
as_message_page (message_page p) = ok p
as_message_page _ = untyped

abbrev pub as_message_detail : Payload → Outcome MessageDetail
as_message_detail (message_detail m) = ok m
as_message_detail _ = untyped

abbrev pub as_endorsement : Payload → Outcome EndorseResponse
as_endorsement (endorsement r) = ok r
as_endorsement _ = untyped

abbrev pub as_propagation : Payload → Outcome PropagateResponse
as_propagation (propagation r) = ok r
as_propagation _ = untyped

abbrev pub as_statuses : Payload → Outcome (List SchedulerStatus)
as_statuses (statuses l) = ok l
as_statuses _ = untyped

abbrev pub as_triggered : Payload → Outcome (Bool × Str)
as_triggered (triggered b id) = ok (b, id)
as_triggered _ = untyped

abbrev pub as_paused : Payload → Outcome ℕ
as_paused (paused n) = ok n
as_paused _ = untyped

abbrev pub as_resumed : Payload → Outcome ℕ
as_resumed (resumed n) = ok n
as_resumed _ = untyped

abbrev pub as_configs : Payload → Outcome (List CronConfig)
as_configs (configs l) = ok l
as_configs _ = untyped

unfoldable pub get_health : Env → Store → Outcome HealthStatus × Store
unfolding Client.get
get_health e s = reading as_health (Client.get e (str "/health") s)

unfoldable pub get_agents : Env → Store → Outcome (List Agent) × Store
unfolding Client.get
get_agents e s = reading as_agent_list (Client.get e (str "/agents") s)

unfoldable pub get_agent : Env → Str → Store → Outcome AgentWithStats × Store
unfolding Client.get
get_agent e id s = reading as_agent_detail (Client.get e (str "/agents/" ++ id) s)

unfoldable pub create_agent : Env → AgentCreateRequest → Store → Outcome Agent × Store
unfolding Client.post
create_agent e req s = reading as_agent (Client.post e (str "/agents") (create req) s)

unfoldable pub update_agent : Env → Str → AgentUpdateRequest → Store → Outcome Agent × Store
unfolding Client.patch
update_agent e id req s = reading as_agent (Client.patch e (str "/agents/" ++ id) (update req) s)

-- `if (v) params.push(`key=${v}`)`
abbrev push_param : Str → Option Str → List Str → List Str
push_param key none params = params
push_param key (some v) params = if truthy v then params ++ (key ++ str "=" ++ v) ∷ [] else params

-- `params.join("&")`
abbrev join_params : List Str → Str
join_params [] = []
join_params (p ∷ []) = p
join_params (p ∷ q ∷ rest) = p ++ str "&" ++ join_params (q ∷ rest)

abbrev with_params : Str → List Str → Str
with_params path [] = path
with_params path (p ∷ ps) = path ++ str "?" ++ join_params (p ∷ ps)

unfoldable pub messages_path : Option Str → Option Str → Str
messages_path cursor agent_id =
    with_params (str "/messages")
      (push_param (str "agent_id") agent_id (push_param (str "cursor") cursor []))

unfoldable pub get_messages :
    Env → Option Str → Option Str → Store → Outcome CursorPaginatedMessages × Store
unfolding Client.get messages_path
get_messages e cursor agent_id s =
    reading as_message_page (Client.get e (messages_path cursor agent_id) s)

unfoldable pub get_message : Env → Str → Store → Outcome MessageDetail × Store
unfolding Client.get
get_message e id s = reading as_message_detail (Client.get e (str "/messages/" ++ id) s)

unfoldable pub endorse_message : Env → Str → Store → Outcome EndorseResponse × Store
unfolding Client.post
endorse_message e id s =
    reading as_endorsement (Client.post e (str "/messages/" ++ (id ++ str "/endorse")) undefined s)

unfoldable pub propagate_message : Env → Str → Store → Outcome PropagateResponse × Store
unfolding Client.post
propagate_message e id s =
    reading as_propagation
      (Client.post e (str "/messages/" ++ (id ++ str "/propagate")) undefined s)

unfoldable pub get_scheduler_status : Env → Store → Outcome (List SchedulerStatus) × Store
unfolding Client.get
get_scheduler_status e s = reading as_statuses (Client.get e (str "/control/status") s)

unfoldable pub trigger_agent_tick : Env → Str → Store → Outcome (Bool × Str) × Store
unfolding Client.post
trigger_agent_tick e id s =
    reading as_triggered (Client.post e (str "/control/tick/" ++ id) undefined s)

unfoldable pub pause_all_agents : Env → Store → Outcome ℕ × Store
unfolding Client.post
pause_all_agents e s = reading as_paused (Client.post e (str "/control/pause-all") undefined s)

unfoldable pub resume_all_agents : Env → Store → Outcome ℕ × Store
unfolding Client.post
resume_all_agents e s = reading as_resumed (Client.post e (str "/control/resume-all") undefined s)

unfoldable pub get_cron_configs : Env → Store → Outcome (List CronConfig) × Store
unfolding Client.get
get_cron_configs e s = reading as_configs (Client.get e (str "/control/configs") s)
