-- ===== src/Mock/Seed/Load.antt =====
-- ferr/src/lib/api/mock.ts: the store that the module's load makes, and the requests after it.
use trokk.Prelude.{
  ℕ, zero, suc, ◌<◌, ◌≡◌, refl, ap, true, List, [], ◌∷◌, some, length, get_elem?, All, arith,
}
use trokk.Text.{Str, str_eq_refl}
use trokk.Text.Digits.{decimal}
use trokk.Types.{Agent, MessageResponse}
use trokk.Runtime.{Dates, World, after_now, after_draw}
use trokk.Http.{Method, Body}
use trokk.Mock.{Store}
use trokk.Mock.Invariant.{IsValid, IsDistinct, ids, has, handle_request-IsValid, ids-IsDistinct}
use trokk.Mock.Routes.{handle_request}
use trokk.Mock.Seed.{Template, seed_message, seed_messages}
use trokk.Mock.Seed.Agents.{agents}
use trokk.Mock.Seed.Templates.{message_templates}

-- A request, with the engine's clock and draws when it is handled.
pub record Request : Type 0 where
  pub world : World
  pub method : Method
  pub path : Str
  pub body : Body

unfoldable pub handle_all : Dates → List Request → Store → Store
handle_all d [] s = s
handle_all d (r ∷ rs) s = handle_all d rs (handle_request d r.world r.method r.path r.body s).1

has-head : (id : Str) (rest : List Str) → has id (id ∷ rest) ≡ true
has-head id rest = ground (arith, str_eq_refl id)

author :
    (as_ : List Agent) (i : ℕ)
    → i < length as_
    → (a : Agent) × (get_elem? as_ i ≡ some a) × (has a.id (ids as_) ≡ true)
author [] i h = absurd (omega arith)
author (a ∷ as_) zero h = (a, refl, has-head a.id (ids as_))
author (a ∷ as_) (suc i) h = let (b, e, k) = author as_ i (omega arith) in (b, e, ground arith)

seeded :
    (d : Dates) (w : World) (i : ℕ) (as_ : List Agent) (ts : List Template)
    → All (λ t. t.agent_idx < length as_) ts
    → (ms : List MessageResponse) × (seed_messages d w i as_ ts ≡ some ms)
      × (length ms ≡ length ts)
      × All (λ m. has m.agent_id (ids as_) ≡ true) ms
unfolding seed_messages
seeded d w i as_ [] h = ([], refl, refl, tt)
seeded d w i as_ (t ∷ ts) h =
    let (a, e, k) = author as_ t.agent_idx h.0 in
    let (ms, made, count, known) =
      seeded d (after_now (after_draw (after_draw (after_draw w)))) (suc i) as_ ts h.1 in
    (
      seed_message d w i t a ∷ ms,
      rw (e, made) refl,
      ap suc count,
      (unfold seed_message in k, known),
    )

templates_in_range : All (λ t. t.agent_idx < length agents) message_templates
unfolding agents message_templates
templates_in_range = ground arith

agents_in_order :
    (ms : List MessageResponse)
    → All (λ m. has m.agent_id (ids agents) ≡ true) ms
    → IsValid (record { agents = agents; messages = ms })
unfolding agents decimal
agents_in_order ms h = record { in_order = refl; authored = h }

handle_all-IsValid :
    (d : Dates) (rs : List Request) (s : Store) → IsValid s → IsValid (handle_all d rs s)
unfolding handle_all
handle_all-IsValid d [] s v = v
handle_all-IsValid d (r ∷ rs) s v =
    handle_all-IsValid d rs _ (handle_request-IsValid d r.world r.method r.path r.body s v)

-- Whatever the clock and the draws are, the load makes a message from each template; and
-- after any sequence of requests from there the store is valid, and no two of its agents have the
-- same identifier.
pub seed_messages-IsValid :
    (d : Dates) (w : World) (rs : List Request)
    → (ms : List MessageResponse) × (seed_messages d w 0 agents message_templates ≡ some ms)
      × (length ms ≡ length message_templates)
      × IsValid (handle_all d rs (record { agents = agents; messages = ms }))
      × IsDistinct (ids (handle_all d rs (record { agents = agents; messages = ms })).agents)
seed_messages-IsValid d w rs =
    let (ms, made, count, known) = seeded d w 0 agents message_templates templates_in_range in
    let v = handle_all-IsValid d rs _ (agents_in_order ms known) in
    (ms, made, count, v, ids-IsDistinct _ v)
