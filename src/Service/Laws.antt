-- ===== src/Service/Laws.antt =====
-- The service functions over the mock backend.
use trokk.Prelude.{◌≡◌, ◌∙◌, ap, ◌++◌, find}
use trokk.Text.{Str, str}
use trokk.Types.{AgentCreateRequest, AgentUpdateRequest}
use trokk.Runtime.{after_draw}
use trokk.Http.{Method, Body, undefined, create, update}
use trokk.Mock.{Store, is_agent}
use trokk.Mock.Paths.{IsSegment}
use trokk.Mock.Routes.{handle_request}
use trokk.Mock.Routes.Agents.{create_with, patch_with, agent_found}
use trokk.Mock.Calls.{get_agent-call, post_agents-call, patch_agent-call}
use trokk.Client.{Env, api_mode, request}
use trokk.Service.{reading, as_agent, as_agent_detail, get_agent, create_agent, update_agent}

-- `API_MODE === "mock"`, which is the default.
abbrev pub IsMock : Env → Type 0
IsMock e = api_mode e ≡ str "mock"

pub request-mock :
    (e : Env) (m : Method) (path : Str) (body : Body) (s : Store)
    → IsMock e
    → request e m path body s ≡ handle_request e.dates e.world m path body s
unfolding request
request-mock e m path body s h = rw h

-- Service calls in terms of the mock.
pub get_agent-mock :
    (e : Env) (id : Str) (s : Store)
    → IsMock e
    → IsSegment id
    → get_agent e id s ≡ reading as_agent_detail (agent_found s (find (is_agent id) s.agents))
unfolding get_agent
get_agent-mock e id s h seg = ap (reading as_agent_detail) (
    request-mock e Method.get (str "/agents/" ++ id) undefined s h
    ∙ get_agent-call e.dates e.world undefined s id seg)

pub create_agent-mock :
    (e : Env) (req : AgentCreateRequest) (s : Store)
    → IsMock e
    → create_agent e req s
      ≡ reading as_agent (create_with e.dates (after_draw e.world) s (create req))
unfolding create_agent
create_agent-mock e req s h = ap (reading as_agent) (
    request-mock e Method.post (str "/agents") (create req) s h
    ∙ post_agents-call e.dates e.world (create req) s)

pub update_agent-mock :
    (e : Env) (id : Str) (req : AgentUpdateRequest) (s : Store)
    → IsMock e
    → IsSegment id
    → update_agent e id req s
      ≡ reading as_agent (patch_with id (update req) s (find (is_agent id) s.agents))
unfolding update_agent
update_agent-mock e id req s h seg = ap (reading as_agent) (
    request-mock e Method.patch (str "/agents/" ++ id) (update req) s h
    ∙ patch_agent-call e.dates e.world (update req) s id seg)
