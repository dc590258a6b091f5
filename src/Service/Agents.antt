-- ===== src/Service/Agents.antt =====
-- Agents through the service functions, over the mock backend.
use trokk.Prelude.{
  ℕ, ◌+◌, ◌≡◌, ◌≢◌, refl, ◌∙◌, ap, true, false, List, [], ◌∷◌, ◌++◌, Option, none, some, length,
  find, filter, update_first, All, arith, find-append, find_sound, Bool-cases, inl, inr, ◌&&◌,
}
use trokk.Text.{Str, str, str_eq, str_eq_iff, str_eq_refl}
use trokk.Text.Digits.{decimal, decimal-AreDigits, AreDigits}
use trokk.Types.{Agent, AgentCreateRequest, AgentUpdateRequest, AgentStats, MessageResponse}
use trokk.Runtime.{after_draw}
use trokk.Http.{ok, api_error, throw}
use trokk.Mock.{Store, is_agent, by_agent, has_parent, get_agent_stats}
use trokk.Mock.Paths.{IsSegment, one_line}
use trokk.Mock.Routes.Agents.{new_agent, apply_update, agent_found}
use trokk.Mock.Invariant.{IsValid, ids, has, find-next_id, has-next_id}
use trokk.Client.{Env}
use trokk.Service.{reading, as_agent_detail, get_agent, create_agent, update_agent}
use trokk.Service.Laws.{IsMock, get_agent-mock, create_agent-mock, update_agent-mock}

digits-one_line : (s : Str) → AreDigits s → one_line s ≡ true
digits-one_line [] h = refl
digits-one_line (c ∷ s) h = ground (arith, digits-one_line s)

agent_id-IsSegment : (n : ℕ) → IsSegment (str "a" ++ decimal n)
agent_id-IsSegment n = (refl, digits-one_line (decimal n) (decimal-AreDigits n))

abbrev pub no_stats : AgentStats
no_stats = record {
  message_count = 0;
  endorsements_received = 0;
  propagations_received = 0;
  response_count = 0;
}

no_messages :
    (id : Str) (known : List Str) (ms : List MessageResponse)
    → has id known ≡ false
    → All (λ m. has m.agent_id known ≡ true) ms
    → (filter (by_agent id) ms ≡ []) × (filter (λ m. has_parent m && by_agent id m) ms ≡ [])
no_messages id known [] h k = (refl, refl)
no_messages id known (m ∷ ms) h k = elim (Bool-cases (str_eq m.agent_id id)) [
  | inl same ↦ absurd (clash ((str_eq_iff m.agent_id id).0 same))
  | inr other ↦ ground (arith, no_messages id known ms)
]
  where
    clash : m.agent_id ≡ id → ⊥
    clash e = cc (h, k.0, ap (λ t. has t known) e)

stats-none :
    (id : Str) (known : List Str) (ms : List MessageResponse)
    → has id known ≡ false
    → All (λ m. has m.agent_id known ≡ true) ms
    → get_agent_stats id ms ≡ no_stats
unfolding get_agent_stats
stats-none id known ms h k = rw ((no_messages id known ms h k).0, (no_messages id known ms h k).1)

-- In mock mode, from a valid store, creating an agent answers with an agent that has the request's
-- fields, is active, and is added to the store; reading its identifier back then gives that agent,
-- with statistics of zero, and changes nothing.
pub get_agent-create_agent :
    (e : Env) (req : AgentCreateRequest) (s : Store)
    → IsMock e
    → IsValid s
    → let a = new_agent e.dates (after_draw e.world) s req in
      let t = record s { agents = s.agents ++ a ∷ [] } in
      (create_agent e req s ≡ (ok a, t))
      × (get_agent e a.id t ≡ (ok (record { agent = a; stats = no_stats }), t))
      × (a.username ≡ req.username)
      × (a.display_name ≡ req.display_name)
      × (a.description ≡ req.description)
      × (a.personality ≡ req.personality)
      × (a.active ≡ true)
unfolding new_agent
get_agent-create_agent e req s h v = (
  create_agent-mock e req s h,
  get_agent-mock e _ _ h (agent_id-IsSegment (length s.agents + 1))
      ∙ rw (
        find-append (is_agent (str "a" ++ decimal (length s.agents + 1))) s.agents _
            (find-next_id s v),
        str_eq_refl (decimal (length s.agents + 1)),
        stats-none (str "a" ++ decimal (length s.agents + 1)) (ids s.agents) s.messages
            (has-next_id s v) v.authored,
      ),
  refl,
  refl,
  refl,
  refl,
  refl,
)

pub apply_update-id : (req : AgentUpdateRequest) (a : Agent) → (apply_update req a).id ≡ a.id
unfolding apply_update
apply_update-id req a = refl

pub find-update_first_self :
    (id : Str) (req : AgentUpdateRequest) (as_ : List Agent) (a : Agent)
    → find (is_agent id) as_ ≡ some a
    → find (is_agent id) (update_first (is_agent id) (apply_update req) as_)
      ≡ some (apply_update req a)
unfolding apply_update
find-update_first_self id req [] a h = ground arith
find-update_first_self id req (b ∷ as_) a h = elim (Bool-cases (str_eq b.id id)) [
  | inl e ↦ ground arith
  | inr e ↦ rw (e, e) (find-update_first_self id req as_ a (rw e at h))
]

find-update_first_ne :
    (id j : Str) (req : AgentUpdateRequest) (as_ : List Agent)
    → j ≢ id
    → find (is_agent j) (update_first (is_agent id) (apply_update req) as_) ≡ find (is_agent j) as_
unfolding apply_update
find-update_first_ne id j req [] h = refl
find-update_first_ne id j req (b ∷ as_) h =
    ground (arith, find-update_first_ne id j req as_ h, str_eq_iff b.id id, str_eq_iff b.id j)

pub update_agent-found :
    (e : Env) (id : Str) (req : AgentUpdateRequest) (s : Store) (a : Agent)
    → IsMock e
    → IsSegment id
    → find (is_agent id) s.agents ≡ some a
    → update_agent e id req s ≡ (
      ok (apply_update req a),
      record s { agents = update_first (is_agent id) (apply_update req) s.agents },
    )
update_agent-found e id req s a h seg found = update_agent-mock e id req s h seg ∙ rw found

agent_found-eq :
    (s : Store) (t : Store) (o : Option Agent)
    → s.messages ≡ t.messages
    → (reading as_agent_detail (agent_found s o)).0 ≡ (reading as_agent_detail (agent_found t o)).0
agent_found-eq s t none e = refl
agent_found-eq s t (some a) e = rw e

-- In mock mode, for identifiers that a path can carry, updating an agent that the store has answers
-- with the updated agent, which reading it back then gives, with its statistics, and any other
-- identifier reads as before. The update keeps the identifier, the user name, the key and the time.
pub get_agent-update_agent :
    (e : Env) (id other : Str) (req : AgentUpdateRequest) (s : Store) (a : Agent)
    → IsMock e
    → IsSegment id
    → IsSegment other
    → other ≢ id
    → find (is_agent id) s.agents ≡ some a
    → let t = record s { agents = update_first (is_agent id) (apply_update req) s.agents } in
      (update_agent e id req s ≡ (ok (apply_update req a), t))
      × (get_agent e id t
          ≡ (ok (record { agent = apply_update req a; stats = get_agent_stats id s.messages }), t))
      × ((get_agent e other t).0 ≡ (get_agent e other s).0)
      × ((apply_update req a).id ≡ a.id)
      × ((apply_update req a).username ≡ a.username)
      × ((apply_update req a).api_key ≡ a.api_key)
      × ((apply_update req a).created_at ≡ a.created_at)
unfolding apply_update
get_agent-update_agent e id other req s a h seg seg_other ne found = (
  update_agent-found e id req s a h seg found,
  get_agent-mock e id _ h seg
      ∙ rw (find-update_first_self id req s.agents a found, apply_update-id req a, same_id),
  rw
      (
        get_agent-mock e other _ h seg_other,
        get_agent-mock e other s h seg_other,
        find-update_first_ne id other req s.agents ne,
      )
      (agent_found-eq _ s (find (is_agent other) s.agents) refl),
  refl,
  refl,
  refl,
  refl,
)
  where
    same_id : a.id ≡ id
    same_id = (str_eq_iff a.id id).0 (find_sound (is_agent id) s.agents found)

-- In mock mode, reading or updating an identifier that a path can carry and that no agent has fails
-- with 404 and leaves the store as it was.
get_agent-missing :
    (e : Env) (id : Str) (req : AgentUpdateRequest) (s : Store)
    → IsMock e
    → IsSegment id
    → find (is_agent id) s.agents ≡ none
    → (get_agent e id s ≡ (throw (api_error (str "Agent not found") 404), s))
      × (update_agent e id req s ≡ (throw (api_error (str "Agent not found") 404), s))
get_agent-missing e id req s h seg missing =
    (get_agent-mock e id s h seg ∙ rw missing, update_agent-mock e id req s h seg ∙ rw missing)
