-- ===== src/Mock/Effects/Found.antt =====
-- The moves of a route once its path has matched.
use trokk.Prelude.{◌+◌, ◌≡◌, refl, sym, subst, true, ◌++◌, Option, none, some, find}
use trokk.Text.{Str, str}
use trokk.Types.{Agent, AgentUpdateRequest, MessageResponse}
use trokk.Runtime.{Dates, World}
use trokk.Http.{Method, Body, undefined, create, update, agent, endorsement, propagation}
use trokk.Mock.{Store, is_agent, is_message}
use trokk.Mock.Routes.Agents.{
  respond, patch_found, new_agent, apply_update, as_update, as_creation, agent_found, create_with,
  patch_with,
}
use trokk.Mock.Routes.Messages.{endorse, propagate, message_found, endorse_found, propagate_found}
use trokk.Mock.Routes.Control.{tick_found}
use trokk.Mock.Effects.Moves.{
  IsOf, IsUpdatedBy, Effect, missing, unreadable, reads, ticks, creates, patches, endorses,
  propagates,
}
use trokk.Mock.Effects.Fields.{update_first-find, given-Has, apply_update-IsUpdated}

module _ (d : Dates) (w : World) (m : Method) (path : Str) (body : Body) (s : Store) where
  pub agent_found-Effect :
      m ≡ Method.get → (o : Option Agent) → Effect m path body s (agent_found s o)
  agent_found-Effect g none = missing _
  agent_found-Effect g (some a) = reads _ g

  pub message_found-Effect :
      m ≡ Method.get → (o : Option MessageResponse) → Effect m path body s (message_found s o)
  message_found-Effect g none = missing _
  message_found-Effect g (some x) = reads _ g

  pub tick_found-Effect :
      (id : Str) (o : Option Agent)
      → m ≡ Method.post
      → path ≡ str "/control/tick/" ++ id
      → find (is_agent id) s.agents ≡ o
      → Effect m path body s (tick_found s o)
  tick_found-Effect id none g at e = missing _
  tick_found-Effect id (some a) g at e = ticks id a g at e

  pub create_with-Effect :
      (b : Body)
      → body ≡ b
      → m ≡ Method.post
      → path ≡ str "/agents"
      → Effect m path body s (create_with d w s b)
  unfolding new_agent
  create_with-Effect undefined e g at = unreadable e
  create_with-Effect (update req) e g at =
      creates (new_agent d w s (as_creation w req)) g at
        (subst (λ b. IsOf b (new_agent d w s (as_creation w req))) (sym e)
          (
            given-Has req.display_name w.absent_text,
            given-Has req.description w.absent_text,
            given-Has req.personality w.absent_personality,
          ))
        refl refl
  create_with-Effect (create req) e g at =
      creates (new_agent d w s req) g at
        (subst (λ b. IsOf b (new_agent d w s req)) (sym e) (refl, refl, refl, refl)) refl refl

  pub patch_found-Effect :
      (id : Str) (req : AgentUpdateRequest) (a : Agent)
      → m ≡ Method.patch
      → path ≡ str "/agents/" ++ id
      → find (is_agent id) s.agents ≡ some a
      → IsUpdatedBy body a (apply_update req a)
      → Effect m path body s (patch_found id req s a)
  patch_found-Effect id req a g at e u =
      subst
        (λ as_.
          Effect m path body s
            (respond (agent (apply_update req a)) 200 (record s { agents = as_ })))
        (update_first-find (is_agent id) (apply_update req) s.agents e)
        (patches id a (apply_update req a) g at e u)

  pub patch_with-Effect :
      (id : Str) (b : Body) (o : Option Agent)
      → body ≡ b
      → m ≡ Method.patch
      → path ≡ str "/agents/" ++ id
      → find (is_agent id) s.agents ≡ o
      → Effect m path body s (patch_with id b s o)
  patch_with-Effect id b none p g at e = missing _
  patch_with-Effect id undefined (some a) p g at e = unreadable p
  patch_with-Effect id (create req) (some a) p g at e =
      patch_found-Effect id (as_update req) a g at e (
        subst (λ b. IsUpdatedBy b a (apply_update (as_update req) a)) (sym p)
          (apply_update-IsUpdated (as_update req) a))
  patch_with-Effect id (update req) (some a) p g at e =
      patch_found-Effect id req a g at e
        (subst (λ b. IsUpdatedBy b a (apply_update req a)) (sym p) (apply_update-IsUpdated req a))

  pub endorse_found-Effect :
      (id : Str) (o : Option MessageResponse)
      → m ≡ Method.post
      → path ≡ str "/messages/" ++ (id ++ str "/endorse")
      → find (is_message id) s.messages ≡ o
      → Effect m path body s (endorse_found id s o)
  endorse_found-Effect id none g at e = missing _
  endorse_found-Effect id (some x) g at e =
      subst
        (λ ms. Effect m path body s (
          respond
            (endorsement (record { endorsed = true; endorsement_count = x.endorsement_count + 1 }))
            200 (record s { messages = ms })))
        (update_first-find (is_message id) endorse s.messages e) (endorses id x g at e)

  pub propagate_found-Effect :
      (id : Str) (o : Option MessageResponse)
      → m ≡ Method.post
      → path ≡ str "/messages/" ++ (id ++ str "/propagate")
      → find (is_message id) s.messages ≡ o
      → Effect m path body s (propagate_found id s o)
  propagate_found-Effect id none g at e = missing _
  propagate_found-Effect id (some x) g at e =
      subst
        (λ ms. Effect m path body s (
          respond
            (propagation
              (record { propagated = true; propagation_count = x.propagation_count + 1 }))
            200 (record s { messages = ms })))
        (update_first-find (is_message id) propagate s.messages e) (propagates id x g at e)
