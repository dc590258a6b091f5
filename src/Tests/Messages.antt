-- ===== src/Tests/Messages.antt =====
-- Messages through the service functions, over the mock backend on a small store.
use trokk.Prelude.{◌≡◌, refl, true, List, [], ◌∷◌, none}
use trokk.Text.{str}
use trokk.Types.{MessageResponse, CursorPaginatedMessages}
use trokk.Http.{ok}
use trokk.Mock.{Store, get_agent_stats}
use trokk.Mock.Routes.Messages.{endorse, time_of}
use trokk.Mock.Pages.{IsFirstPage}
use trokk.Service.{get_messages, get_message, endorse_message}
use trokk.Service.Messages.{get_messages-IsFirstPage}
use trokk.Service.Messages.Reactions.{get_message-endorse_message}
use trokk.Tests.Data.{hello, answer, store, env, env-IsMock}

get_messages-IsFirstPage_example :
    (p : CursorPaginatedMessages) × (rest : List MessageResponse) × (get_messages env none none
        store
      ≡ (ok p, store))
    × IsFirstPage (time_of env.dates) store.messages p rest
get_messages-IsFirstPage_example = get_messages-IsFirstPage env store env-IsMock

abbrev endorsed : Store
endorsed = record store { messages = endorse hello ∷ answer ∷ [] }

get_message-endorse_message_example :
    (endorse_message env (str "msg-001") store
      ≡ (ok (record { endorsed = true; endorsement_count = 4 }), endorsed))
    × (get_message env (str "msg-001") endorsed
        ≡ (ok (record { message = endorse hello; responses = answer ∷ [] }), endorsed))
    × (get_agent_stats (str "a1") endorsed.messages
        ≡ record (get_agent_stats (str "a1") store.messages) { endorsements_received = 4 })
unfolding get_agent_stats
get_message-endorse_message_example =
    get_message-endorse_message env (str "msg-001") (str "a1") store hello env-IsMock (refl, refl)
      refl
