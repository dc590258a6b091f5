-- ===== src/Hooks/Keyed.antt =====
-- ferr/src/lib/api/hooks.ts: `useAgent(id)` and `useMessages(agentId)` whole, with the change of the
-- identifier while they are mounted, the requests of `loadMore`, and answers in any order. Each run of
-- the effect has variables of its own; a timer that it leaves behind still asks for its identifier.
pub mod Waits
pub mod Constant
pub mod Strays
pub mod Change
pub mod Races
use trokk.Prelude.{
  ℕ, zero, suc, Bool, true, false, not, ◌&&◌, List, [], ◌∷◌, ◌++◌, Option, none, some, ◌==◌,
  if◌then◌else◌, get_elem?,
}
use trokk.Text.{Str, str_eq, truthy}
use trokk.Types.{AgentWithStats, CursorPaginatedMessages}
use trokk.Polling.{get_polling_interval}
use trokk.Polling
use trokk.Hooks.{Settled, View}
use trokk.Hooks.Timers.{Timer}
use trokk.Hooks.Poller
use trokk.Hooks.Views.{Messages, use_agent, use_messages, show_more}

-- A run of the effect, by its number, with the identifier of its closure.
pub record Run (K : Type 0) : Type 0 where
  pub number : ℕ
  pub of : K

-- A timer that has not fired, and the run whose `fetch` and `schedule` it calls.
pub record Waiting (K : Type 0) : Type 0 where
  pub timer : Timer
  pub run : Run K

-- A request under way: of the latest, or of what follows a cursor.
pub data Request (K : Type 0) : Type 0 where
  latest : K → Request K
  more : K → Str → Request K

-- `active` of a run is true just while it is the current one; `timeout` is the current run's.
pub record Hook (S K : Type 0) : Type 0 where
  pub view : S
  pub mounted : Bool
  pub id : K
  pub runs : ℕ
  pub current : Option (Run K)
  pub timeout : Option ℕ
  pub next : ℕ
  pub pending : List (Waiting K)
  pub requests : List (Request K)

-- `settles j r` is the answer to the request in the place `j`.
pub data Event (A K : Type 0) : Type 0 where
  fires : ℕ → Event A K
  settles : ℕ → Settled A → Event A K
  interval_changed : Event A K
  refresh : Event A K
  load_more : Event A K
  renders : K → Event A K
  unmount : Event A K

-- What a hook adds: when its effect and its `fetch` do nothing, when React takes two identifiers for
-- the same, what the effect sets before it asks, and the cursor that `loadMore` asks for.
pub record Spec (S A K : Type 0) : Type 0 where
  pub base : Poller.Spec S A
  pub skip : K → Bool
  pub same : K → K → Bool
  pub set_up : S → S
  pub cursor : S → Option Str
  pub after_more : Settled A → S → S

abbrev pub find_run : {K : Type 0} → ℕ → List (Waiting K) → Option (Run K)
find_run i [] = none
find_run i (w ∷ ws) = if w.timer.id == i then some w.run else find_run i ws

abbrev pub remove_timer : {K : Type 0} → ℕ → List (Waiting K) → List (Waiting K)
remove_timer i [] = []
remove_timer i (w ∷ ws) = if w.timer.id == i then ws else w ∷ remove_timer i ws

abbrev pub clear_timeout : {K : Type 0} → Option ℕ → List (Waiting K) → List (Waiting K)
clear_timeout none ws = ws
clear_timeout (some i) ws = remove_timer i ws

abbrev pub remove_at : {A : Type 0} → ℕ → List A → List A
remove_at i [] = []
remove_at zero (x ∷ xs) = xs
remove_at (suc i) (x ∷ xs) = x ∷ remove_at i xs

abbrev pub is_run : {K : Type 0} → Run K → Option (Run K) → Bool
is_run r none = false
is_run r (some c) = c.number == r.number

module _ {S A K : Type 0} (spec : Spec S A K) where
  abbrev pub fetch : K → Hook S K → Hook S K
  fetch k h =
      if spec.skip k
      then h
      else record h { view = spec.base.before h.view; requests = h.requests ++ latest k ∷ [] }

  -- `if (!active) return; timeout = setTimeout(…)` of a run
  abbrev pub schedule : Polling.Store → Run K → Hook S K → Hook S K
  schedule p r h =
      if is_run r h.current
      then record h {
        timeout = some h.next;
        next = suc h.next;
        pending =
            record {
              timer = record { id = h.next; delay = get_polling_interval p spec.base.key };
              run = r;
            }
            ∷ h.pending;
      }
      else h

  -- The effect, for the identifier of the render.
  abbrev pub set_up_run : Polling.Store → Hook S K → Hook S K
  set_up_run p h =
      let r : Run K = record { number = h.runs; of = h.id } in
      if spec.skip h.id
      then h
      else schedule p r (
          fetch h.id (record h {
            view = spec.set_up h.view;
            runs = suc h.runs;
            current = some r;
            timeout = none;
          }))

  -- Its cleanup, if it was set up.
  abbrev pub end_run : Hook S K → Option (Run K) → Hook S K
  end_run h none = h
  end_run h (some r) = record h { current = none; pending = clear_timeout h.timeout h.pending }

  abbrev pub clean_up : Hook S K → Hook S K
  clean_up h = end_run h h.current

  unfoldable pub mount : Polling.Store → K → S → Hook S K
  mount p k initial = set_up_run p (record {
    view = initial;
    mounted = true;
    id = k;
    runs = 0;
    current = none;
    timeout = none;
    next = 0;
    pending = [];
    requests = [];
  })

  abbrev pub answer : Request K → Settled A → S → S
  answer (latest k) r = spec.base.after r
  answer (more k c) r = spec.after_more r

  -- `() => { fetch(); schedule(); }`, of the run that set the timer
  abbrev pub fire : Polling.Store → ℕ → Hook S K → Option (Run K) → Hook S K
  fire p i h none = h
  fire p i h (some r) = schedule p r (fetch r.of (record h { pending = remove_timer i h.pending }))

  -- The handlers of a request look at no variable of a run.
  abbrev pub settle : ℕ → Settled A → Hook S K → Option (Request K) → Hook S K
  settle j r h none = h
  settle j r h (some q) = record h { view = answer q r h.view; requests = remove_at j h.requests }

  -- The listener of the current run: it clears nothing.
  abbrev pub listen : Polling.Store → Hook S K → Option (Run K) → Hook S K
  listen p h none = h
  listen p h (some r) = schedule p r h

  abbrev pub ask_more : Hook S K → Option Str → Hook S K
  ask_more h none = h
  ask_more h (some c) = record h { requests = h.requests ++ more h.id c ∷ [] }

  -- An event that cannot happen changes nothing.
  unfoldable pub step : Polling.Store → Hook S K → Event A K → Hook S K
  step p h (fires i) = fire p i h (find_run i h.pending)
  step p h (settles j r) = settle j r h (get_elem? h.requests j)
  step p h interval_changed = listen p h h.current
  step p h refresh = fetch h.id h
  step p h load_more = ask_more h (spec.cursor h.view)
  step p h (renders k) =
      if h.mounted
      then if spec.same k h.id then h else set_up_run p (record (clean_up h) { id = k })
      else h
  step p h unmount = record (clean_up h) { mounted = false }

  unfoldable pub run : Polling.Store → Hook S K → List (Event A K) → Hook S K
  unfolding step
  run p h [] = h
  run p h (e ∷ es) = run p (step p h e) es

-- `useAgent(id)`: no identifier, no effect and no request.
unfoldable pub keyed_agent : Spec (View (Option AgentWithStats)) AgentWithStats Str
unfolding use_agent
keyed_agent = record {
  base = use_agent;
  skip = λ id. not (truthy id);
  same = str_eq;
  set_up = λ v. v;
  cursor = λ v. none;
  after_more = λ r v. v;
}

abbrev pub same_id : Option Str → Option Str → Bool
same_id none none = true
same_id (some a) (some b) = str_eq a b
same_id _ _ = false

-- `if (!nextCursor || !hasMore) return;`
abbrev pub cursor_of : Messages → Option Str
cursor_of v = elim v.next_cursor [
  | none ↦ none
  | some c ↦ if truthy c && v.has_more then some c else none
]

-- `useMessages(agentId)`
unfoldable pub keyed_messages : Spec Messages CursorPaginatedMessages (Option Str)
unfolding use_messages
keyed_messages = record {
  base = use_messages;
  skip = λ id. false;
  same = same_id;
  set_up = λ v. record v { loading = true };
  cursor = cursor_of;
  after_more = show_more;
}
