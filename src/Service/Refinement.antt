-- ===== src/Service/Refinement.antt =====
-- The service functions over the mock backend implement the directory.
use mathlib.Core.Path.{fun_ext}
use trokk.Prelude.{
  ℕ, ◌≡◌, refl, ap, ◌∙◌, true, false, List, [], ◌∷◌, ◌++◌, Option, none, some, find, update_first,
  length, length-append, length-map, length-update_first, All,
}
use trokk.Text.{Str, str}
use trokk.Types.{Agent, AgentUpdateRequest, MessageResponse}
use trokk.Runtime.{after_draw}
use trokk.Http.{Method, Body, undefined, update}
use trokk.Mock.{Store, is_agent, is_message}
use trokk.Mock.Paths.{IsSegment}
use trokk.Mock.Routes.Agents.{new_agent, apply_update, or_text, or_old, patch_with}
use trokk.Mock.Routes.Messages.{endorse, propagate, endorse_found, propagate_found}
use trokk.Mock.Routes.Control.{set_active}
use trokk.Mock.Invariant.{IsValid, find-next_id, handle_request-IsValid}
use trokk.Mock.Calls.{
  post_endorse-call, post_propagate-call, post_pause_all-call, post_resume_all-call,
}
use trokk.Client.{Env, request}
use trokk.Service.{
  create_agent, update_agent, endorse_message, propagate_message, pause_all_agents,
  resume_all_agents,
}
use trokk.Service.Laws.{IsMock, request-mock, create_agent-mock, update_agent-mock}
use trokk.Service.Directory.{
  updated, new_text, new_or, change_at, Directory, Command, Map, creates, updates, endorses,
  propagates, pauses, resumes, does, directory, find-update_first, find-map, update_first-none,
  find-append_new,
}

-- The store after a call.
abbrev pub call : Env → Command → Store → Store
call e (creates req) s = (create_agent e req s).1
call e (updates id req) s = (update_agent e id req s).1
call e (endorses id) s = (endorse_message e id s).1
call e (propagates id) s = (propagate_message e id s).1
call e pauses s = (pause_all_agents e s).1
call e resumes s = (resume_all_agents e s).1

-- A path can carry the identifier that a call names.
abbrev pub IsCarried : Command → Type 0
IsCarried (creates req) = Unit
IsCarried (updates id req) = IsSegment id
IsCarried (endorses id) = IsSegment id
IsCarried (propagates id) = IsSegment id
IsCarried pauses = Unit
IsCarried resumes = Unit

request-IsValid :
    (e : Env) (m : Method) (path : Str) (body : Body) (s : Store)
    → IsMock e
    → IsValid s
    → IsValid (request e m path body s).1
request-IsValid e m path body s h v =
    rw (request-mock e m path body s h) (handle_request-IsValid e.dates e.world m path body s v)

call-IsValid : (e : Env) (c : Command) (s : Store) → IsMock e → IsValid s → IsValid (call e c s)
unfolding create_agent update_agent endorse_message propagate_message pause_all_agents
    resume_all_agents
call-IsValid e (creates req) s h v = request-IsValid e _ _ _ s h v
call-IsValid e (updates id req) s h v = request-IsValid e _ _ _ s h v
call-IsValid e (endorses id) s h v = request-IsValid e _ _ _ s h v
call-IsValid e (propagates id) s h v = request-IsValid e _ _ _ s h v
call-IsValid e pauses s h v = request-IsValid e _ _ _ s h v
call-IsValid e resumes s h v = request-IsValid e _ _ _ s h v

-- Stores after a write, in the directory.
abbrev with_agents : Directory → Map Agent → ℕ → Directory
with_agents t m n = record t { agents = m; size = n }

directory-agents :
    (s : Store) (as_ : List Agent) (m : Map Agent) (n : ℕ)
    → ((id : Str) → find (is_agent id) as_ ≡ m id)
    → length as_ ≡ n
    → directory (record s { agents = as_ }) ≡ record (directory s) { agents = m; size = n }
directory-agents s as_ m n h k =
    ap (λ (a : Map Agent). record (directory s) { agents = a; size = length as_ }) (fun_ext h)
    ∙ ap (λ l. record (directory s) { agents = m; size = l }) k

directory-messages :
    (s : Store) (ms : List MessageResponse) (m : Map MessageResponse)
    → ((id : Str) → find (is_message id) ms ≡ m id)
    → directory (record s { messages = ms }) ≡ record (directory s) { messages = m }
directory-messages s ms m h =
    ap (λ (a : Map MessageResponse). record (directory s) { messages = a }) (fun_ext h)

patch_with-store :
    (id : Str) (req : AgentUpdateRequest) (s : Store) (o : Option Agent)
    → find (is_agent id) s.agents ≡ o
    → (patch_with id (update req) s o).1
      ≡ record s { agents = update_first (is_agent id) (apply_update req) s.agents }
patch_with-store id req s none h =
    rw (update_first-none (is_agent id) (apply_update req) s.agents h)
patch_with-store id req s (some a) h = refl

endorse_found-store :
    (id : Str) (s : Store) (o : Option MessageResponse)
    → find (is_message id) s.messages ≡ o
    → (endorse_found id s o).1
      ≡ record s { messages = update_first (is_message id) endorse s.messages }
endorse_found-store id s none h = rw (update_first-none (is_message id) endorse s.messages h)
endorse_found-store id s (some m) h = refl

propagate_found-store :
    (id : Str) (s : Store) (o : Option MessageResponse)
    → find (is_message id) s.messages ≡ o
    → (propagate_found id s o).1
      ≡ record s { messages = update_first (is_message id) propagate s.messages }
propagate_found-store id s none h = rw (update_first-none (is_message id) propagate s.messages h)
propagate_found-store id s (some m) h = refl

or_text-new_text : (new : Option Str) (old : Str) → or_text new old ≡ new_text new old
or_text-new_text none old = refl
or_text-new_text (some []) old = refl
or_text-new_text (some (c ∷ s)) old = refl

or_old-new_or : {A : Type 0} (new : Option A) (old : A) → or_old new old ≡ new_or new old
or_old-new_or none old = refl
or_old-new_or (some new) old = refl

apply_update-updated : (req : AgentUpdateRequest) → apply_update req ≡ updated req
unfolding apply_update
apply_update-updated req = fun_ext (λ a. rw (
  or_text-new_text req.display_name a.display_name,
  or_text-new_text req.description a.description,
  or_old-new_or req.active a.active,
  or_old-new_or req.personality a.personality,
))

-- One call does to the directory what it promises.
call-does :
    (e : Env) (c : Command) (s : Store)
    → IsMock e
    → IsCarried c
    → IsValid s
    → directory (call e c s) ≡ does e.dates (after_draw e.world) c (directory s)
unfolding new_agent apply_update endorse_message propagate_message pause_all_agents
    resume_all_agents
call-does e (creates req) s h k v =
    ap (λ r. directory r.1) (create_agent-mock e req s h)
    ∙ directory-agents s _ _ _
        (λ id.
          find-append_new id (new_agent e.dates (after_draw e.world) s req) s.agents
            (find-next_id s v))
        (length-append s.agents (new_agent e.dates (after_draw e.world) s req ∷ []))
call-does e (updates id req) s h k v =
    ap (λ r. directory r.1) (update_agent-mock e id req s h k)
    ∙ ap directory (patch_with-store id req s (find (is_agent id) s.agents) refl)
    ∙ directory-agents s _ _ _
        (λ j.
          find-update_first (λ a. a.id) (apply_update req) (λ a. refl) id j s.agents
          ∙ ap (λ f. change_at id f (λ k. find (is_agent k) s.agents) j) (apply_update-updated req))
        (length-update_first (is_agent id) (apply_update req) s.agents)
call-does e (endorses id) s h k v =
    ap (λ r. directory r.1)
      (request-mock e Method.post (str "/messages/" ++ (id ++ str "/endorse")) undefined s h
        ∙ post_endorse-call e.dates e.world undefined s id k)
    ∙ ap directory (endorse_found-store id s (find (is_message id) s.messages) refl)
    ∙ directory-messages s _ _
        (λ j. find-update_first (λ m. m.id) endorse (λ m. refl) id j s.messages)
call-does e (propagates id) s h k v =
    ap (λ r. directory r.1)
      (request-mock e Method.post (str "/messages/" ++ (id ++ str "/propagate")) undefined s h
        ∙ post_propagate-call e.dates e.world undefined s id k)
    ∙ ap directory (propagate_found-store id s (find (is_message id) s.messages) refl)
    ∙ directory-messages s _ _
        (λ j. find-update_first (λ m. m.id) propagate (λ m. refl) id j s.messages)
call-does e pauses s h k v =
    ap (λ r. directory r.1)
      (request-mock e Method.post (str "/control/pause-all") undefined s h
        ∙ post_pause_all-call e.dates e.world undefined s)
    ∙ directory-agents s _ _ _ (λ j. find-map (λ a. a.id) (set_active false) (λ a. refl) j s.agents)
        (length-map (set_active false) s.agents)
call-does e resumes s h k v =
    ap (λ r. directory r.1)
      (request-mock e Method.post (str "/control/resume-all") undefined s h
        ∙ post_resume_all-call e.dates e.world undefined s)
    ∙ directory-agents s _ _ _ (λ j. find-map (λ a. a.id) (set_active true) (λ a. refl) j s.agents)
        (length-map (set_active true) s.agents)

abbrev pub calls : List (Env × Command) → Store → Store
calls [] s = s
calls ((e, c) ∷ rest) s = calls rest (call e c s)

abbrev pub doings : List (Env × Command) → Directory → Directory
doings [] t = t
doings ((e, c) ∷ rest) t = doings rest (does e.dates (after_draw e.world) c t)

-- From a valid store, any sequence of calls that write, each in mock mode and by an identifier that a
-- path can carry, leaves a valid store whose directory is that of the start with the calls done to it
-- in turn: looking an agent or a message up forgets the order of the store, and no call touches what
-- it does not name.
pub directory-calls :
    (cs : List (Env × Command)) (s : Store)
    → All (λ p. IsMock p.0 × IsCarried p.1) cs
    → IsValid s
    → IsValid (calls cs s) × (directory (calls cs s) ≡ doings cs (directory s))
directory-calls [] s h v = (v, refl)
directory-calls ((e, c) ∷ rest) s h v =
    let (valid, same) = directory-calls rest (call e c s) h.1 (call-IsValid e c s h.0.0 v) in
    (valid, same ∙ ap (doings rest) (call-does e c s h.0.0 h.0.1 v))
