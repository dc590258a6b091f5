-- ===== src/Mock/Effects.antt =====
-- The mock's contract: whatever the request, `handleRequest` makes one of a few moves.
pub mod Moves
mod Fields
mod Found
use trokk.Prelude.{
  ◌+◌, ◌≡◌, refl, sym, ap, ◌∙◌, subst, Bool, true, false, ◌&&◌, List, [], ◌∷◌, ◌++◌, Option, none,
  some, length, find, update_first, map, arith, Bool-cases, inl, inr, if◌then◌else◌,
}
use trokk.Text.{Str, str, str_eq, str_eq_iff, truthy}
use trokk.Types.{Agent, AgentCreateRequest, AgentUpdateRequest, MessageResponse}
use trokk.Runtime.{Dates, World, after_draw}
use trokk.Http.{Method, method_eq, Body, undefined, create, update, agent, endorsement, propagation}
use trokk.Mock.{Store, is_agent, is_message}
use trokk.Mock.Paths.{match_rest_sound, match_between_sound}
use trokk.Mock.Routes.{handle_request, unknown_route, ◌or_else◌}
use trokk.Mock.Routes.Agents.{
  Reply, respond, patch_found, when, on_match, get_health, get_agents, get_agent, post_agents,
  patch_agent, new_agent, apply_update, as_update, as_creation, agent_found, create_with,
  patch_with, given, or_text, or_old,
}
use trokk.Mock.Routes.Messages.{
  get_messages, get_message, post_endorse, post_propagate, endorse, propagate, message_found,
  endorse_found, propagate_found,
}
use trokk.Mock.Routes.Control.{
  get_status, post_tick, post_pause_all, post_resume_all, get_configs, set_active, tick_found,
}
use Moves.{
  Has, IsOf, Replaces, Sets, IsUpdated, IsUpdatedBy, Effect, missing, unreadable, reads, ticks,
  creates, patches, endorses, propagates, pauses, resumes,
}
use Fields.{
  is_get, is_post, is_patch, both, update_first-find, given-Has, or_text-Replaces, or_old-Sets,
  apply_update-IsUpdated,
}
use Found.{
  agent_found-Effect, message_found-Effect, tick_found-Effect, create_with-Effect,
  patch_found-Effect, patch_with-Effect, endorse_found-Effect, propagate_found-Effect,
}

module _ (d : Dates) (w : World) (m : Method) (path : Str) (body : Body) (s : Store) where
  -- A route that matches makes a move.
  abbrev Makes : Option Reply → Type 0
  Makes none = Unit
  Makes (some r) = Effect m path body s r

  or_else-Effect :
      (o : Option Reply) (k : Reply)
      → Makes o
      → Effect m path body s k
      → Effect m path body s (o or_else k)
  unfolding ◌or_else◌
  or_else-Effect none k _ h = h
  or_else-Effect (some r) k h _ = h

  when-Makes : (b : Bool) (o : Option Reply) → (b ≡ true → Makes o) → Makes (when b o)
  unfolding when
  when-Makes true o h = h refl
  when-Makes false o h = tt

  on_match-Makes :
      (o : Option Str) (k : Str → Reply)
      → ((id : Str) → o ≡ some id → Effect m path body s (k id))
      → Makes (on_match o k)
  unfolding on_match
  on_match-Makes none k h = tt
  on_match-Makes (some id) k h = h id refl

  -- The conditions of a route with a fixed path.
  get_at : (p : Str) → (method_eq m Method.get && str_eq path p) ≡ true → m ≡ Method.get
  get_at p h = is_get m (both _ _ h).0

  post_at :
      (p : Str) → (method_eq m Method.post && str_eq path p) ≡ true → (m ≡ Method.post) × (path ≡ p)
  post_at p h = let (a, b) = both _ _ h in (is_post m a, (str_eq_iff path p).0 b)

  get_health-Makes : Makes (get_health m path s)
  unfolding get_health
  get_health-Makes = when-Makes _ _ λ h. reads _ (get_at _ h)

  get_agents-Makes : Makes (get_agents m path s)
  unfolding get_agents
  get_agents-Makes = when-Makes _ _ λ h. reads _ (get_at _ h)

  get_agent-Makes : Makes (get_agent m path s)
  unfolding get_agent
  get_agent-Makes =
      when-Makes _ _
        λ h. on_match-Makes _ _ λ id e. agent_found-Effect d w m path body s (is_get m h) _

  post_agents-Makes : Makes (post_agents d w m path body s)
  unfolding post_agents
  post_agents-Makes =
      when-Makes _ _
        λ h. let (g, at) = post_at _ h in create_with-Effect d w m path body s body refl g at

  patch_agent-Makes : Makes (patch_agent m path body s)
  unfolding patch_agent
  patch_agent-Makes = when-Makes _ _ λ h. on_match-Makes _ _ λ id e.
      patch_with-Effect d w m path body s id body _ refl (is_patch m h) (match_rest_sound _ path e)
        refl

  get_messages-Makes : Makes (get_messages d m path s)
  unfolding get_messages
  get_messages-Makes = when-Makes _ _ λ h. reads _ (get_at _ h)

  get_message-Makes : Makes (get_message m path s)
  unfolding get_message
  get_message-Makes =
      when-Makes _ _
        λ h. on_match-Makes _ _ λ id e. message_found-Effect d w m path body s (is_get m h) _

  post_endorse-Makes : Makes (post_endorse m path s)
  unfolding post_endorse
  post_endorse-Makes = when-Makes _ _ λ h. on_match-Makes _ _ λ id e.
      endorse_found-Effect d w m path body s id _ (is_post m h) (match_between_sound _ _ path e)
        refl

  post_propagate-Makes : Makes (post_propagate m path s)
  unfolding post_propagate
  post_propagate-Makes = when-Makes _ _ λ h. on_match-Makes _ _ λ id e.
      propagate_found-Effect d w m path body s id _ (is_post m h) (match_between_sound _ _ path e)
        refl

  get_status-Makes : Makes (get_status d w m path s)
  unfolding get_status
  get_status-Makes = when-Makes _ _ λ h. reads _ (get_at _ h)

  post_tick-Makes : Makes (post_tick m path s)
  unfolding post_tick
  post_tick-Makes = when-Makes _ _ λ h. on_match-Makes _ _ λ id e.
      tick_found-Effect d w m path body s id _ (is_post m h) (match_rest_sound _ path e) refl

  post_pause_all-Makes : Makes (post_pause_all m path s)
  unfolding post_pause_all
  post_pause_all-Makes = when-Makes _ _ λ h. let (g, at) = post_at _ h in pauses g at

  post_resume_all-Makes : Makes (post_resume_all m path s)
  unfolding post_resume_all
  post_resume_all-Makes = when-Makes _ _ λ h. let (g, at) = post_at _ h in resumes g at

  get_configs-Makes : Makes (get_configs w m path s)
  unfolding get_configs
  get_configs-Makes = when-Makes _ _ λ h. reads _ (get_at _ h)

-- Every request, with any method, path and body, makes one of these moves. It fails with 404, or for
-- want of a body, and leaves the store as it was. A GET reads and a tick of an agent that is found
-- answers, and both leave the store. A POST to /agents adds an active agent with the fields of the body
-- at the end of the list, under the next identifier. A PATCH puts the first agent with the identifier of
-- its path in accord with the body, keeping its identifier, user name, key and time. An endorsement and
-- a propagation count one up on the first message with the identifier of the path, and change no other
-- field. The two bulk actions pause or resume every agent and answer with their number.
pub handle_request-Effect :
    (d : Dates) (w : World) (m : Method) (path : Str) (body : Body) (s : Store)
    → Effect m path body s (handle_request d w m path body s)
unfolding handle_request unknown_route
handle_request-Effect d w m path body s =
    (or_else-Effect d (after_draw w) m path body s _ _
      (get_health-Makes d (after_draw w) m path body s)
      (or_else-Effect d (after_draw w) m path body s _ _
        (get_agents-Makes d (after_draw w) m path body s)
        (or_else-Effect d (after_draw w) m path body s _ _
          (get_agent-Makes d (after_draw w) m path body s)
          (or_else-Effect d (after_draw w) m path body s _ _
            (post_agents-Makes d (after_draw w) m path body s)
            (or_else-Effect d (after_draw w) m path body s _ _
              (patch_agent-Makes d (after_draw w) m path body s)
              (or_else-Effect d (after_draw w) m path body s _ _
                (get_messages-Makes d (after_draw w) m path body s)
                (or_else-Effect d (after_draw w) m path body s _ _
                  (get_message-Makes d (after_draw w) m path body s)
                  (or_else-Effect d (after_draw w) m path body s _ _
                    (post_endorse-Makes d (after_draw w) m path body s)
                    (or_else-Effect d (after_draw w) m path body s _ _
                      (post_propagate-Makes d (after_draw w) m path body s)
                      (or_else-Effect d (after_draw w) m path body s _ _
                        (get_status-Makes d (after_draw w) m path body s)
                        (or_else-Effect d (after_draw w) m path body s _ _
                          (post_tick-Makes d (after_draw w) m path body s)
                          (or_else-Effect d (after_draw w) m path body s _ _
                            (post_pause_all-Makes d (after_draw w) m path body s)
                            (or_else-Effect d (after_draw w) m path body s _ _
                              (post_resume_all-Makes d (after_draw w) m path body s)
                              (or_else-Effect d (after_draw w) m path body s _ _
                                (get_configs-Makes d (after_draw w) m path body s)
                                (missing _)))))))))))))))
