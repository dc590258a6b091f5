-- ===== src/Pages/Stream/Counter.antt =====
-- The counter of the stream page over the pages of the mock backend.
use trokk.Prelude.{◌≤◌, ◌≡◌, true, Option, length, All}
use trokk.Text.{Str, truthy}
use trokk.Polling
use trokk.Hooks.Views.{Messages}
use trokk.Hooks.Keyed.{Hook, Request, latest, more}
use trokk.Hooks.Keyed
use trokk.Pages.Stream.{Stream}
use trokk.Pages.Stream.Live.{Live, Event, answered}

abbrev MessagesHook : Type 0
MessagesHook = Hook Messages (Option Str)

-- The store has a full page.
abbrev pub HasPage : Event → Type 0
HasPage (answered j s) = 20 ≤ length s.messages
HasPage _ = Unit {0}

abbrev IsAsked : Request (Option Str) → Type 0
IsAsked (latest k) = Unit {0}
IsAsked (more k c) = truthy c ≡ true

-- A full page is shown, and every cursor that was asked for is not empty.
abbrev IsFull : MessagesHook → Type 0
IsFull h = (length h.view.messages ≡ 20) × All IsAsked h.requests
