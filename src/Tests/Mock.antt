-- ===== src/Tests/Mock.antt =====
-- The mock backend on a small store.
use trokk.Prelude.{◌≡◌, List, [], ◌∷◌, length, some}
use trokk.Text.{str}
use trokk.Types.{MessageResponse}
use trokk.Runtime.{plain_dates, still}
use trokk.Http.{Method, undefined, update, create}
use trokk.Mock.Routes.{handle_request}
use trokk.Mock.Effects.{handle_request-Effect}
use trokk.Mock.Effects.Moves.{Effect}
use trokk.Mock.Invariant.{IsValid, IsDistinct, ids, handle_request-IsValid}
use trokk.Mock.Seed.{seed_messages}
use trokk.Mock.Seed.Agents.{agents}
use trokk.Mock.Seed.Templates.{message_templates}
use trokk.Mock.Seed.Load.{Request, handle_all, seed_messages-IsValid}
use trokk.Tests.Data.{store, store-IsValid, new_form, rename}

handle_request-Effect_example : Effect Method.patch (str "/agents/a1") (update rename) store (
    handle_request plain_dates
      (still 8000000)
      Method.patch
      (str "/agents/a1")
      (update rename)
      store)
handle_request-Effect_example =
    handle_request-Effect plain_dates (still 8000000) Method.patch (str "/agents/a1")
      (update rename) store

handle_request-IsValid_example :
    IsValid
      (handle_request plain_dates
        (still 8000000)
        Method.post
        (str "/agents")
        (create new_form)
        store).1
handle_request-IsValid_example =
    handle_request-IsValid plain_dates (still 8000000) Method.post (str "/agents") (create new_form)
      store store-IsValid

abbrev requests : List Request
requests =
    record {
      world = still 8000000;
      method = Method.post;
      path = str "/agents";
      body = create new_form;
    }
    ∷ record {
      world = still 9000000;
      method = Method.post;
      path = str "/control/pause-all";
      body = undefined;
    }
    ∷ []

seed_messages-IsValid_example :
    (ms : List MessageResponse) × (seed_messages plain_dates
        (still 8000000)
        0
        agents
        message_templates
      ≡ some ms)
    × (length ms ≡ length message_templates)
    × IsValid (handle_all plain_dates requests (record { agents = agents; messages = ms }))
    × IsDistinct
        (ids (handle_all plain_dates requests (record { agents = agents; messages = ms })).agents)
seed_messages-IsValid_example = seed_messages-IsValid plain_dates (still 8000000) requests
