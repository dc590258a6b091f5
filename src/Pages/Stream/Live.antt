-- ===== src/Pages/Stream/Live.antt =====
-- ferr/src/app/stream/page.tsx: the page over `useMessages()`, in mock mode. A change of what the hook
-- returns renders the page, and the effect on the number of messages runs after the render.
use trokk.Prelude.{ℕ, List, [], ◌∷◌, Option, none, some, length, get_elem?}
use trokk.Text.{Str}
use trokk.Types.{CursorPaginatedMessages}
use trokk.Mock.{Store}
use trokk.Client.{Env}
use trokk.Polling
use trokk.Hooks.{Settled, rejected}
use trokk.Hooks.Views.{Messages, no_messages}
use trokk.Hooks.Paging.{page_of}
use trokk.Hooks.Keyed.{Hook, Request, latest, more, keyed_messages}
use trokk.Hooks.Keyed
use trokk.Pages.Stream.{
  Stream, init, length_effect, toggle_auto_scroll, reset_new_count, set_filter, toggle_expand,
}

pub record Live : Type 0 where
  pub page : Stream
  pub hook : Hook Messages (Option Str)

-- `answered j s` is the backend's answer to the request in the place `j`, with this store.
pub data Event : Type 0 where
  fires : ℕ → Event
  answered : ℕ → Store → Event
  interval_changed : Event
  reaches_end : Event
  picks_filter : Str → Event
  toggles_auto_scroll : Event
  resets_new_count : Event
  expands : Str → Event

module _ (e : Env) where
  abbrev pub answer_of : Store → Request (Option Str) → Settled CursorPaginatedMessages
  answer_of s (latest k) = page_of e s none
  answer_of s (more k c) = page_of e s (some c)

  abbrev pub answer_at : Store → Option (Request (Option Str)) → Settled CursorPaginatedMessages
  answer_at s none = rejected []
  answer_at s (some q) = answer_of s q

-- The render and the effect.
abbrev pub render : Stream → Hook Messages (Option Str) → Live
render page h = record { page = length_effect (length h.view.messages) page; hook = h }

module _ (e : Env) (p : Polling.Store) where
  abbrev pub hook_event : Live → Keyed.Event CursorPaginatedMessages (Option Str) → Live
  hook_event l ev = render l.page (Keyed.step keyed_messages p l.hook ev)

  unfoldable pub step : Live → Event → Live
  step l (fires i) = hook_event l (Keyed.Event.fires i)
  step l (answered j s) =
      hook_event l (Keyed.Event.settles j (answer_at e s (get_elem? l.hook.requests j)))
  step l interval_changed = hook_event l Keyed.Event.interval_changed
  step l reaches_end = hook_event l Keyed.Event.load_more
  step l (picks_filter id) = record l { page = set_filter id l.page }
  step l toggles_auto_scroll = render (toggle_auto_scroll l.page) l.hook
  step l resets_new_count = record l { page = reset_new_count l.page }
  step l (expands id) = record l { page = toggle_expand id l.page }

  unfoldable pub run : Live → List Event → Live
  unfolding step
  run l [] = l
  run l (ev ∷ es) = run (step l ev) es

-- The first render.
unfoldable pub start : Polling.Store → Live
start p = render (init 0) (Keyed.mount keyed_messages p none no_messages)
