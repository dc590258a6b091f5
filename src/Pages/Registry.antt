-- ===== src/Pages/Registry.antt =====
-- ferr/src/app/agents/page.tsx: the form of the agent registry. A handler returns the new state
-- and the request that it makes; the state after the request depends on what it settles to.
pub mod Laws
pub mod View
pub mod Sections
pub mod Form
pub mod Create
use trokk.Prelude.{Bool, true, false, ◌||◌, not, List, [], Option, none, some, if◌then◌else◌}
use trokk.Text.{Str, str, trim, truthy}
use trokk.Types.{Agent, AgentPersonality, AgentCreateRequest, AgentUpdateRequest}
use trokk.Http.{Outcome, ok, throw, untyped}
use trokk.Mock.{Store}
use trokk.Mock.Routes.Agents.{as_update}
use trokk.Client.{Env}
use trokk.Service.{create_agent, update_agent}
use trokk.Polling
use trokk.Hooks.{View as HookView}
use trokk.Hooks.Poller.{Hook, Event, step}
use trokk.Hooks.Views.{use_agents}

pub record Page : Type 0 where
  pub show_form : Bool
  pub editing_id : Option Str
  pub form : AgentCreateRequest

-- The calls of `create` and `update` of the hooks.
pub data Request : Type 0 where
  creates : AgentCreateRequest → Request
  updates : Str → AgentUpdateRequest → Request

-- A request through the hooks, which call the service.
abbrev pub perform : Env → Request → Store → Outcome Agent × Store
perform e (creates f) s = create_agent e f s
perform e (updates id req) s = update_agent e id req s

unfoldable pub empty_form : AgentCreateRequest
empty_form = record {
  username = str "";
  display_name = str "";
  description = str "";
  personality = record {
    domain = str "meme_culture";
    temperament = str "humorous";
    communication_style = str "chaotic";
    knowledge_datasets = [];
  };
}

unfoldable pub init : Page
unfolding empty_form
init = record { show_form = false; editing_id = none; form = empty_form }

unfoldable pub reset_form : Page → Page
unfolding empty_form
reset_form p = record { show_form = false; editing_id = none; form = empty_form }

-- The button "New Agent".
unfoldable pub new_agent : Page → Page
unfolding reset_form
new_agent p = record (reset_form p) { show_form = true }

abbrev pub form_of : Agent → AgentCreateRequest
form_of a = record {
  username = a.username;
  display_name = a.display_name;
  description = a.description;
  personality = a.personality;
}

unfoldable pub start_edit : Agent → Page → Page
start_edit a p = record { show_form = true; editing_id = some a.id; form = form_of a }

-- `!form.username.trim() || !form.display_name.trim() || !form.description.trim()`
abbrev pub is_blank : AgentCreateRequest → Bool
is_blank f =
    not (truthy (trim f.username))
    || not (truthy (trim f.display_name))
    || not (truthy (trim f.description))

-- `if (editingId)`: the empty identifier is falsy. The form is sent whole, for an update too.
abbrev pub request_of : Option Str → AgentCreateRequest → Request
request_of none f = creates f
request_of (some id) f = if truthy id then updates id (as_update f) else creates f

-- The request of `handleSubmit`, if it makes one.
unfoldable pub submit : Page → Option Request
submit p = if is_blank p.form then none else some (request_of p.editing_id p.form)

-- The form after the request: `result` is what `create` or `update` returned.
abbrev pub after_request : Request → Option Agent → Page → Page
after_request (creates f) none p = p
after_request (creates f) (some a) p = reset_form p
after_request (updates id req) result p = p

unfoldable pub after_submit : Option Agent → Page → Page
unfolding submit reset_form
after_submit result p = elim (submit p) [ none ↦ p | some r ↦ after_request r result p ]

-- What `create` and `update` of the hooks return: nothing for a failure.
abbrev pub result_of : Outcome Agent → Option Agent
result_of (ok a) = some a
result_of (throw f) = none
result_of untyped = none

abbrev pub sent :
    Env
    → Polling.Store
    → Page
    → Hook (HookView (List Agent))
    → Store
    → Option Request
    → Page × Hook (HookView (List Agent)) × Store
sent e q p h s none = (p, h, s)
sent e q p h s (some r) =
    let answer = perform e r s in
    (after_request r (result_of answer.0) p, step use_agents q h Event.refresh, answer.1)

-- `handleSubmit`, with the backend's store, where nothing else happens until its request has settled:
-- the page, the hook `useAgents` after the `refresh` that follows whatever was returned, and the store.
unfoldable pub handle_submit :
    Env
    → Polling.Store
    → Page
    → Hook (HookView (List Agent))
    → Store
    → Page × Hook (HookView (List Agent)) × Store
unfolding submit reset_form step use_agents
handle_submit e q p h s = sent e q p h s (submit p)

-- The request of `handleToggleActive`.
unfoldable pub toggle_active : Agent → Request
toggle_active a = updates a.id (record {
  active = some (not a.active);
  display_name = none;
  description = none;
  personality = none;
})
