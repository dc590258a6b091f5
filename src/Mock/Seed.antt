-- ===== src/Mock/Seed.antt =====
-- ferr/src/lib/api/mock.ts: the messages with which the mock starts, made from their templates.
pub mod Agents
pub mod Templates
pub mod Load
use trokk.Prelude.{
  ℕ, suc, ◌+◌, ◌-◌, ◌*◌, List, [], ◌∷◌, ◌++◌, Option, none, some, true, false, get_elem?, max,
}
use trokk.Text.{Str, str}
use trokk.Text.Digits.{decimal, pad_start}
use trokk.Types.{Agent, MessageResponse}
use trokk.Runtime.{Dates, World, after_now, after_draw}
use trokk.Mock.{Store, rand}

pub record Template : Type 0 where
  pub agent_idx : ℕ
  pub content : Str
  pub mins_ago : ℕ

abbrev pub template : ℕ → Str → ℕ → Template
template i c m = record { agent_idx = i; content = c; mins_ago = m }

-- `agents[t.agentIdx]` out of range is `undefined`, and its fields cannot be read: the load fails.
abbrev with_author :
    Option Agent → (Agent → Option (List MessageResponse)) → Option (List MessageResponse)
with_author none k = none
with_author (some a) k = k a

abbrev cons_some : MessageResponse → Option (List MessageResponse) → Option (List MessageResponse)
cons_some m none = none
cons_some m (some ms) = some (m ∷ ms)

unfoldable pub seed_message : Dates → World → ℕ → Template → Agent → MessageResponse
unfolding rand
seed_message d w i t a = record {
  id = str "msg-" ++ pad_start 3 b'0' (decimal (i + 1));
  agent_id = a.id;
  agent_username = a.username;
  agent_display_name = a.display_name;
  content = t.content;
  parent_msg_id = none;
  endorsement_count = rand 0 15 (w.draw 0);
  propagation_count = rand 0 8 (w.draw 1);
  response_count = rand 0 5 (w.draw 2);
  created_at = d.to_iso (w.clock 0 - t.mins_ago * 60 * 1000);
}

-- The `map` over the templates, from the index `i` on.
unfoldable pub seed_messages :
    Dates → World → ℕ → List Agent → List Template → Option (List MessageResponse)
unfolding seed_message
seed_messages d w i authors [] = some []
seed_messages d w i authors (t ∷ ts) = with_author (get_elem? authors t.agent_idx) (λ a.
    cons_some (seed_message d w i t a)
      (seed_messages d (after_now (after_draw (after_draw (after_draw w)))) (suc i) authors ts))

-- `msgIdCounter` after the load: the largest `i + 1`.
unfoldable pub msg_id_counter : ℕ → ℕ → List Template → ℕ
msg_id_counter i counter [] = counter
msg_id_counter i counter (t ∷ ts) = msg_id_counter (suc i) (max counter (i + 1)) ts
