-- ===== src/Mock/Effects/Moves.antt =====
-- What the mock backend promises of a request, in terms of the fields of its agents and messages.
use trokk.Prelude.{
  ◌+◌, ◌≡◌, [], ◌∷◌, ◌++◌, Option, none, some, length, find, update_first, map, true, false,
}
use trokk.Text.{Str, str}
use trokk.Text.Digits.{decimal}
use trokk.Types.{Agent, AgentUpdateRequest, MessageResponse}
use trokk.Http.{
  Method, Body, undefined, create, update, agent, endorsement, propagation, triggered, paused,
  resumed, api_error, type_error, ok, throw, ApiResponse,
}
use trokk.Mock.{Store, is_agent, is_message}
use trokk.Mock.Routes.Agents.{Reply, respond}

-- The field has the value that is given, if one is.
abbrev pub Has {ℓ} : {A : Type ℓ} → Option A → A → Type ℓ
Has none new = Unit
Has (some v) new = new ≡ v

-- The new agent has the fields of the body.
abbrev pub IsOf : Body → Agent → Type 0
IsOf undefined a = ⊥
IsOf (create req) a =
    (a.username ≡ req.username)
    × (a.display_name ≡ req.display_name)
    × (a.description ≡ req.description)
    × (a.personality ≡ req.personality)
IsOf (update req) a =
    Has req.display_name a.display_name
    × Has req.description a.description
    × Has req.personality a.personality

-- A text replaces the old one unless it is absent or empty, and any other value unless it is absent.
abbrev pub Replaces : Option Str → Str → Str → Type 0
Replaces none old new = new ≡ old
Replaces (some []) old new = new ≡ old
Replaces (some (c ∷ t)) old new = new ≡ c ∷ t

abbrev pub Sets {ℓ} : {A : Type ℓ} → Option A → A → A → Type ℓ
Sets none old new = new ≡ old
Sets (some v) old new = new ≡ v

-- The agent `b` is `a` after the update, with the fields that no update reaches.
pub record IsUpdated (req : AgentUpdateRequest) (a b : Agent) : Type 0 where
  pub same_id : b.id ≡ a.id
  pub same_username : b.username ≡ a.username
  pub same_api_key : b.api_key ≡ a.api_key
  pub same_created_at : b.created_at ≡ a.created_at
  pub active : Sets req.active a.active b.active
  pub display_name : Replaces req.display_name a.display_name b.display_name
  pub description : Replaces req.description a.description b.description
  pub personality : Sets req.personality a.personality b.personality

-- The update that a body asks for: a creation's texts and personality count as given.
abbrev pub IsUpdatedBy : Body → Agent → Agent → Type 0
IsUpdatedBy undefined a b = ⊥
IsUpdatedBy (update req) a b = IsUpdated req a b
IsUpdatedBy (create req) a b =
    IsUpdated
      (record {
        active = none;
        display_name = some req.display_name;
        description = some req.description;
        personality = some req.personality;
      })
      a b

-- The moves, each with the requests that can make it.
pub data Effect (m : Method) (path : Str) (body : Body) (s : Store) : Reply → Type 0 where
  missing : (text : Str) → Effect m path body s (throw (api_error text 404), s)
  unreadable : body ≡ undefined → Effect m path body s (throw type_error, s)
  reads : (r : ApiResponse) → m ≡ Method.get → Effect m path body s (ok r, s)
  ticks :
      (id : Str) (a : Agent)
      → m ≡ Method.post
      → path ≡ str "/control/tick/" ++ id
      → find (is_agent id) s.agents ≡ some a
      → Effect m path body s (respond (triggered true a.id) 200 s)
  creates :
      (a : Agent)
      → m ≡ Method.post
      → path ≡ str "/agents"
      → IsOf body a
      → a.id ≡ str "a" ++ decimal (length s.agents + 1)
      → a.active ≡ true
      → Effect m path body s (respond (agent a) 201 (record s { agents = s.agents ++ a ∷ [] }))
  patches :
      (id : Str) (a b : Agent)
      → m ≡ Method.patch
      → path ≡ str "/agents/" ++ id
      → find (is_agent id) s.agents ≡ some a
      → IsUpdatedBy body a b
      → Effect m path body s (
          respond
            (agent b)
            200
            (record s { agents = update_first (is_agent id) (λ _. b) s.agents }))
  endorses :
      (id : Str) (x : MessageResponse)
      → m ≡ Method.post
      → path ≡ str "/messages/" ++ (id ++ str "/endorse")
      → find (is_message id) s.messages ≡ some x
      → Effect m path body s (
          respond
            (endorsement (record { endorsed = true; endorsement_count = x.endorsement_count + 1 }))
            200
            (record s {
              messages =
                  update_first
                    (is_message id)
                    (λ _. record x { endorsement_count = x.endorsement_count + 1 })
                    s.messages;
            }))
  propagates :
      (id : Str) (x : MessageResponse)
      → m ≡ Method.post
      → path ≡ str "/messages/" ++ (id ++ str "/propagate")
      → find (is_message id) s.messages ≡ some x
      → Effect m path body s (
          respond
            (propagation
              (record { propagated = true; propagation_count = x.propagation_count + 1 }))
            200
            (record s {
              messages =
                  update_first
                    (is_message id)
                    (λ _. record x { propagation_count = x.propagation_count + 1 })
                    s.messages;
            }))
  pauses :
      m ≡ Method.post
      → path ≡ str "/control/pause-all"
      → Effect m path body s (
          respond
            (paused (length s.agents))
            200
            (record s { agents = map (λ (a : Agent). record a { active = false }) s.agents }))
  resumes :
      m ≡ Method.post
      → path ≡ str "/control/resume-all"
      → Effect m path body s (
          respond
            (resumed (length s.agents))
            200
            (record s { agents = map (λ (a : Agent). record a { active = true }) s.agents }))
