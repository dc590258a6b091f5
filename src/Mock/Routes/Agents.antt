-- ===== src/Mock/Routes/Agents.antt =====
-- ferr/src/lib/api/mock.ts: the routes of `/health` and `/agents`. A route that does not match is
-- `none`, and the next one is tried.
use trokk.Prelude.{
  ℕ, ◌+◌, Bool, true, false, ◌&&◌, [], ◌∷◌, ◌++◌, Option, none, some, if◌then◌else◌, length, find,
  update_first,
}
use trokk.Text.{Str, str, str_eq, truthy}
use trokk.Text.Digits.{decimal, to_radix}
use trokk.Types.{ok_state, connected, Agent, AgentCreateRequest, AgentUpdateRequest}
use trokk.Runtime.{Dates, World, after_now}
use trokk.Http.{
  Method, method_eq, Body, undefined, create, update, Payload, health, agent_list, agent_detail,
  agent, api_error, type_error, Outcome, ok, throw, ApiResponse,
}
use trokk.Mock.{Store, is_agent, get_agent_stats}
use trokk.Mock.Paths.{match_rest}

-- What a route leaves: the outcome of the promise, and the store.
abbrev pub Reply : Type 0
Reply = Outcome ApiResponse × Store

abbrev pub respond : Payload → ℕ → Store → Reply
respond p code s = (ok (record { body = p; status = code }), s)

-- `throw { message, status: 404 }`
abbrev pub not_found : Str → Store → Reply
not_found text s = (throw (api_error text 404), s)

unfoldable pub when : Bool → Option Reply → Option Reply
when true r = r
when false r = none

-- `const match = path.match(…); if (method === … && match) { … }`
unfoldable pub on_match : Option Str → (Str → Reply) → Option Reply
on_match none k = none
on_match (some id) k = some (k id)

unfoldable pub get_health : Method → Str → Store → Option Reply
get_health m path s = when (method_eq m Method.get && str_eq path (str "/health")) (
    some (
      respond
        (health (record {
          status = ok_state;
          postgres = connected;
          redis = connected;
          ollama = some connected;
        }))
        200 s))

unfoldable pub get_agents : Method → Str → Store → Option Reply
get_agents m path s =
    when (method_eq m Method.get && str_eq path (str "/agents"))
      (some (respond (agent_list s.agents) 200 s))

abbrev pub agent_found : Store → Option Agent → Reply
agent_found s none = not_found (str "Agent not found") s
agent_found s (some a) =
    respond (agent_detail (record { agent = a; stats = get_agent_stats a.id s.messages })) 200 s

unfoldable pub get_agent : Method → Str → Store → Option Reply
get_agent m path s = when (method_eq m Method.get) (
    on_match (match_rest (str "/agents/") path) (λ id. agent_found s (find (is_agent id) s.agents)))

unfoldable pub new_agent : Dates → World → Store → AgentCreateRequest → Agent
new_agent d w s req = record {
  id = str "a" ++ decimal (length s.agents + 1);
  username = req.username;
  display_name = req.display_name;
  description = req.description;
  personality = req.personality;
  api_key = some (str "trk_" ++ to_radix 36 (w.clock 0));
  created_at = d.to_iso ((after_now w).clock 0);
  active = true;
}

abbrev pub created : Dates → World → Store → AgentCreateRequest → Reply
created d w s req =
    respond (agent (new_agent d w s req)) 201
      (record s { agents = s.agents ++ new_agent d w s req ∷ [] })

abbrev pub given {ℓ} : {A : Type ℓ} → Option A → A → A
given none absent = absent
given (some v) absent = v

-- What the route reads of the body of an update: it has no user name, and may lack the others.
abbrev pub as_creation : World → AgentUpdateRequest → AgentCreateRequest
as_creation w req = record {
  username = w.absent_text;
  display_name = given req.display_name w.absent_text;
  description = given req.description w.absent_text;
  personality = given req.personality w.absent_personality;
}

-- The agent is pushed whatever the body is, unless there is none to read a field of.
abbrev pub create_with : Dates → World → Store → Body → Reply
create_with d w s undefined = (throw type_error, s)
create_with d w s (update req) = created d w s (as_creation w req)
create_with d w s (create req) = created d w s req

unfoldable pub post_agents : Dates → World → Method → Str → Body → Store → Option Reply
post_agents d w m path body s =
    when (method_eq m Method.post && str_eq path (str "/agents")) (some (create_with d w s body))

-- `if (req.display_name) …`: an absent or an empty text changes nothing.
abbrev pub or_text : Option Str → Str → Str
or_text none old = old
or_text (some new) old = if truthy new then new else old

abbrev pub or_old {ℓ} : {A : Type ℓ} → Option A → A → A
or_old none old = old
or_old (some new) old = new

unfoldable pub apply_update : AgentUpdateRequest → Agent → Agent
apply_update req a = record a {
  active = or_old req.active a.active;
  display_name = or_text req.display_name a.display_name;
  description = or_text req.description a.description;
  personality = or_old req.personality a.personality;
}

-- The fields of a creation request that an update reads: the page's form is sent for both.
abbrev pub as_update : AgentCreateRequest → AgentUpdateRequest
as_update req = record {
  active = none;
  display_name = some req.display_name;
  description = some req.description;
  personality = some req.personality;
}

abbrev pub patch_found : Str → AgentUpdateRequest → Store → Agent → Reply
patch_found id req s a =
    respond (agent (apply_update req a)) 200
      (record s { agents = update_first (is_agent id) (apply_update req) s.agents })

abbrev pub patch_with : Str → Body → Store → Option Agent → Reply
patch_with id body s none = not_found (str "Agent not found") s
patch_with id undefined s (some a) = (throw type_error, s)
patch_with id (create req) s (some a) = patch_found id (as_update req) s a
patch_with id (update req) s (some a) = patch_found id req s a

unfoldable pub patch_agent : Method → Str → Body → Store → Option Reply
patch_agent m path body s = when (method_eq m Method.patch) (
    on_match (match_rest (str "/agents/") path)
      (λ id. patch_with id body s (find (is_agent id) s.agents)))
