-- ===== src/Tests/Keyed.antt =====
-- The hooks with an identifier on concrete events.
use trokk.Prelude.{true, false, ◌+◌, ◌≤◌, ◌≡◌, refl, List, [], ◌∷◌, ◌++◌, Option, none, some, map}
use trokk.Text.{Str, str, str_eq_refl}
use trokk.Types.{AgentWithStats, CursorPaginatedMessages}
use trokk.Polling
use trokk.Hooks.{View, resolved, rejected}
use trokk.Hooks.Poller
use trokk.Hooks.Views.{loading_view, no_messages, Messages}
use trokk.Hooks.Keyed.{
  Hook, Event, settles, load_more, renders, unmount, fires, mount, step, run, keyed_agent,
  keyed_messages,
}
use trokk.Hooks.Keyed.Constant.{keyed, poller_of, run-mount-poller_of}
use trokk.Hooks.Keyed.Strays.{strays, stray_answers}
use trokk.Hooks.Keyed.Change.{stray_answers-renders}
use trokk.Hooks.Keyed.Races.{repeat, run-load_more_repeats, run-renders_late}
use trokk.Service.Agents.{no_stats}
use trokk.Tests.Data.{ann, bob, hello, answer}

abbrev ann_detail : AgentWithStats
ann_detail = record { agent = ann; stats = no_stats }

abbrev bob_detail : AgentWithStats
bob_detail = record { agent = bob; stats = no_stats }

abbrev with_ann : List (Poller.Event AgentWithStats)
with_ann =
    Poller.Event.settles (resolved ann_detail)
    ∷ Poller.Event.interval_changed
    ∷ Poller.Event.fires 0
    ∷ []

abbrev left : List (Poller.Event AgentWithStats)
left = Poller.Event.fires 1 ∷ Poller.Event.settles (rejected (str "x")) ∷ []

run-mount-poller_of_example :
    let h =
      run keyed_agent Polling.init
        (mount keyed_agent Polling.init (str "a1") (loading_view none))
        (map keyed with_ann) in
    let g =
      Poller.run keyed_agent.base Polling.init
        (Poller.mount keyed_agent.base Polling.init (keyed_agent.set_up (loading_view none)))
        with_ann in
    (poller_of h ≡ g)
    × (poller_of
          (run keyed_agent Polling.init (step keyed_agent Polling.init h unmount) (map keyed left))
        ≡ Poller.run keyed_agent.base Polling.init
            (Poller.step keyed_agent.base Polling.init g Poller.Event.unmount)
            left)
unfolding keyed_agent
run-mount-poller_of_example =
    run-mount-poller_of keyed_agent Polling.init (str "a1") (loading_view none) with_ann left refl
      (refl, (refl, (refl, tt))) (refl, (refl, tt))

-- With one request under way and one change of an interval, the identifier changes.
abbrev changed : Hook (View (Option AgentWithStats)) Str
changed =
    step keyed_agent Polling.init
      (run keyed_agent Polling.init (mount keyed_agent Polling.init (str "a1") (loading_view none))
        (map keyed with_ann))
      (renders (str "a2"))

abbrev with_bob : List (Event AgentWithStats Str)
with_bob =
    fires 1
    ∷ settles 0 (resolved ann_detail)
    ∷ settles 0 (resolved bob_detail)
    ∷ settles 0 (resolved ann_detail)
    ∷ []

stray_answers-renders_example :
    stray_answers keyed_agent Polling.init changed with_bob
      + strays keyed_agent (run keyed_agent Polling.init changed with_bob)
    ≤ 1 + 1
unfolding keyed_agent mount run
stray_answers-renders_example =
    stray_answers-renders keyed_agent str_eq_refl Polling.init (str "a1") (str "a2")
      (loading_view none) with_ann with_bob refl (refl, (refl, (refl, tt)))
      (refl, (refl, (refl, (refl, tt))))

-- The bound is met.
stray_answers-changed : stray_answers keyed_agent Polling.init changed with_bob ≡ 2
unfolding keyed_agent mount run
stray_answers-changed = refl

abbrev first_page : CursorPaginatedMessages
first_page = record { messages = hello ∷ []; next_cursor = some (str "c"); has_more = true }

abbrev more_page : CursorPaginatedMessages
more_page = record { messages = answer ∷ []; next_cursor = none; has_more = false }

abbrev with_cursor : Hook Messages (Option Str)
with_cursor =
    run keyed_messages Polling.init (mount keyed_messages Polling.init none no_messages)
      (settles 0 (resolved first_page) ∷ [])

run-load_more_repeats_example :
    ((run keyed_messages Polling.init with_cursor
        (repeat 2 load_more ++ repeat 2 (settles 0 (resolved more_page)))).view.messages
      ≡ hello ∷ answer ∷ answer ∷ [])
    × ((run keyed_messages Polling.init with_cursor
          (repeat 2 load_more ++ repeat 2 (settles 0 (resolved more_page)))).requests
        ≡ [])
unfolding keyed_messages mount run no_messages
run-load_more_repeats_example =
    run-load_more_repeats Polling.init with_cursor (str "c") 2 more_page refl

abbrev asking : Hook (View (Option AgentWithStats)) Str
asking = mount keyed_agent Polling.init (str "a1") (loading_view none)

run-renders_late_example :
    let g = run keyed_agent Polling.init asking (
      renders (str "a2")
      ∷ settles 1 (resolved bob_detail)
      ∷ settles 0 (resolved ann_detail)
      ∷ []) in
    (g.id ≡ str "a2") × (g.view ≡ record { value = some ann_detail; loading = false; error = none })
unfolding keyed_agent mount
run-renders_late_example =
    run-renders_late Polling.init asking 0 (str "a1") (str "a2") ann_detail bob_detail refl refl
      refl refl
