-- ===== src/Mock.antt =====
-- ferr/src/lib/api/mock.ts: the in-memory backend. An operation takes the store and returns it
-- with the outcome; the objects that the source mutates in place are elements of the store.
pub mod Paths
pub mod Effects
pub mod Invariant
pub mod Calls
pub mod Pages
pub mod Routes
pub mod Seed
use trokk.Prelude.{
  ℕ, ◌+◌, ◌-◌, ◌*◌, ◌/◌, ◌^◌, Bool, true, false, ◌&&◌, List, [], ◌∷◌, ◌++◌, Option, none, some,
  if◌then◌else◌, length, filter, sum_by, find,
}
use trokk.Text.{Str, str, str_eq}
use trokk.Types.{Agent, AgentStats, MessageResponse}

pub record Store : Type 0 where
  pub agents : List Agent
  pub messages : List MessageResponse

-- `rand(min, max)`: `Math.floor(Math.random() * (max - min + 1)) + min`
unfoldable pub rand : ℕ → ℕ → ℕ → ℕ
rand lo hi draw = draw * (hi - lo + 1) / 2 ^ 53 + lo

-- `a.id === id`
abbrev pub is_agent : Str → Agent → Bool
is_agent id a = str_eq a.id id

abbrev pub is_message : Str → MessageResponse → Bool
is_message id m = str_eq m.id id

abbrev pub by_agent : Str → MessageResponse → Bool
by_agent id m = str_eq m.agent_id id

-- `m.parent_msg_id && …`: `null` and the empty string are falsy.
abbrev pub has_parent : MessageResponse → Bool
has_parent m = elim m.parent_msg_id [ none ↦ false | some [] ↦ false | some (_ ∷ _) ↦ true ]

unfoldable pub get_agent_stats : Str → List MessageResponse → AgentStats
get_agent_stats id messages = record {
  message_count = length (filter (by_agent id) messages);
  endorsements_received = sum_by (λ m. m.endorsement_count) (filter (by_agent id) messages);
  propagations_received = sum_by (λ m. m.propagation_count) (filter (by_agent id) messages);
  response_count = length (filter (λ m. has_parent m && by_agent id m) messages);
}
