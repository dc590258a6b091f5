-- ===== src/Service/Messages.antt =====
-- Messages through the service functions, over the mock backend.
pub mod Reactions
use trokk.Prelude.{
  ℕ, suc, ◌+◌, ◌≡◌, ◌≢◌, refl, sym, ◌∙◌, ap, Bool, true, false, ◌||◌, List, [], ◌∷◌, ◌++◌, Option,
  none, some, length, find, find_sound, filter, update_first, sum_by, arith, if◌then◌else◌,
  Bool-cases, inl, inr, ◌&&◌,
}
use trokk.Sort.{sort_down, drop}
use trokk.Text.{Str, str, str_eq, str_eq_iff, truthy}
use trokk.Types.{MessageResponse, CursorPaginatedMessages, EndorseResponse}
use trokk.Http.{Method, undefined, api_error, ok, throw}
use trokk.Mock.{Store, is_message, by_agent, has_parent, get_agent_stats}
use trokk.Mock.Paths.{IsSegment}
use trokk.Mock.Calls.{
  get_messages-call, post_endorse-call, post_propagate-call, get_message-call, query-call,
}
use trokk.Mock.Pages.{IsFirstPage, first_page-IsFirstPage}
use trokk.Mock.Routes.{unknown_route}
use trokk.Mock.Routes.Messages.{endorse, propagate, first_page, time_of, answers}
use trokk.Client.{Env}
use trokk.Service.{
  reading, as_message_page, as_endorsement, as_propagation, as_message_detail, get_messages,
  get_message, endorse_message, propagate_message, messages_path,
}
use trokk.Service.Laws.{IsMock, request-mock}

-- In mock mode, asking for messages with no cursor and no agent answers with a first page of the
-- store's messages, newest first, and changes nothing.
pub get_messages-IsFirstPage :
    (e : Env) (s : Store)
    → IsMock e
    → (p : CursorPaginatedMessages) × (rest : List MessageResponse) × (get_messages e none none s
        ≡ (ok p, s))
      × IsFirstPage (time_of e.dates) s.messages p rest
unfolding get_messages
get_messages-IsFirstPage e s h = (
  first_page (sort_down (time_of e.dates) s.messages),
  drop 20 (sort_down (time_of e.dates) s.messages),
  ap (reading as_message_page) (
      request-mock e Method.get (str "/messages") undefined s h
      ∙ get_messages-call e.dates e.world undefined s),
  first_page-IsFirstPage (time_of e.dates) s.messages,
)

-- `if (cursor)`, `if (agentId)`
abbrev pub given : Option Str → Bool
given none = false
given (some t) = truthy t

abbrev HasQuery : Option Str → Option Str → Type 0
HasQuery cursor agent_id = (q : Str) × (messages_path cursor agent_id ≡ str "/messages?" ++ q)

messages_path-HasQuery :
    (cursor agent_id : Option Str)
    → (given cursor || given agent_id) ≡ true
    → HasQuery cursor agent_id
unfolding messages_path
messages_path-HasQuery none none h = cc
messages_path-HasQuery none (some []) h = cc
messages_path-HasQuery none (some (c ∷ t)) h = (_, refl)
messages_path-HasQuery (some []) none h = cc
messages_path-HasQuery (some []) (some []) h = cc
messages_path-HasQuery (some []) (some (c ∷ t)) h = (_, refl)
messages_path-HasQuery (some (c ∷ t)) none h = (_, refl)
messages_path-HasQuery (some (c ∷ t)) (some []) h = (_, refl)
messages_path-HasQuery (some (c ∷ t)) (some (b ∷ u)) h = (_, refl)

pub messages_path-plain :
    (cursor agent_id : Option Str)
    → (given cursor || given agent_id) ≡ false
    → messages_path cursor agent_id ≡ str "/messages"
unfolding messages_path
messages_path-plain none none h = refl
messages_path-plain none (some []) h = refl
messages_path-plain none (some (c ∷ t)) h = cc
messages_path-plain (some []) none h = refl
messages_path-plain (some []) (some []) h = refl
messages_path-plain (some []) (some (c ∷ t)) h = cc
messages_path-plain (some (c ∷ t)) agent_id h = cc

-- In mock mode, asking for messages with a cursor or an agent that is not empty always fails with
-- 404, since the mock compares the whole path, query included: no further page can be loaded and no
-- agent's messages can be read.
pub get_messages-query_fails :
    (e : Env) (cursor agent_id : Option Str) (s : Store)
    → IsMock e
    → (given cursor || given agent_id) ≡ true
    → get_messages e cursor agent_id s
      ≡ (throw (api_error (str "Unknown mock route: GET " ++ messages_path cursor agent_id) 404), s)
unfolding get_messages unknown_route
get_messages-query_fails e cursor agent_id s h asked =
    let (q, path) = messages_path-HasQuery cursor agent_id asked in
    rw path (
      ap (reading as_message_page) (
        request-mock e Method.get (str "/messages?" ++ q) undefined s h
        ∙ query-call e.dates e.world undefined s q))
