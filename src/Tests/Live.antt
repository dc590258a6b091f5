-- ===== src/Tests/Live.antt =====
-- The stream page over its hook, on concrete events.
use trokk.Prelude.{List, [], ◌∷◌}
use trokk.Text.{str}
use trokk.Mock.{Store}
use trokk.Polling
use trokk.Hooks.Keyed.Races.{repeat}
use trokk.Pages.Stream.Live.{Event, fires, answered, reaches_end, toggles_auto_scroll, picks_filter}
use trokk.Tests.Data.{store, hello, answer}

abbrev full_store : Store
full_store = record store { messages = repeat 20 hello }

-- A post more.
abbrev later_store : Store
later_store = record full_store { messages = answer ∷ full_store.messages }

abbrev events : List Event
events =
    toggles_auto_scroll
    ∷ picks_filter (str "a1")
    ∷ fires 0
    ∷ reaches_end
    ∷ answered 0 later_store
    ∷ answered 0 later_store
    ∷ []
