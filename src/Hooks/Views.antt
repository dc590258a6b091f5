-- ===== src/Hooks/Views.antt =====
-- ferr/src/lib/api/hooks.ts: what each hook shows, and the handlers of the hooks that load once.
use trokk.Prelude.{ℕ, Bool, true, false, ◌&&◌, List, [], ◌++◌, Option, none, some, if◌then◌else◌}
use trokk.Text.{Str, truthy}
use trokk.Types.{
  Agent, AgentWithStats, MessageResponse, CursorPaginatedMessages, SchedulerStatus, CronConfig,
  MessageDetail,
}
use trokk.Polling.{Key}
use trokk.Hooks.{Settled, resolved, rejected, View, settle}
use trokk.Hooks.Poller.{Spec}
use trokk.Hooks.Interval

abbrev pub loading_view {ℓ} : {A : Type ℓ} → A → View A
loading_view a = record { value = a; loading = true; error = none }

-- `useAgents`
unfoldable pub use_agents : Spec (View (List Agent)) (List Agent)
use_agents = record { key = Key.agents; before = λ v. v; after = settle }

abbrev found {ℓ} : {A : Type ℓ} → Settled A → Settled (Option A)
found (resolved a) = resolved (some a)
found (rejected text) = rejected text

-- `useAgent(id)` for an identifier that is not empty; its `fetch` sets `loading` again.
unfoldable pub use_agent : Spec (View (Option AgentWithStats)) AgentWithStats
use_agent = record {
  key = Key.agents;
  before = λ v. record v { loading = true };
  after = λ r v. settle (found r) v;
}

-- `useMessages`
pub record Messages : Type 0 where
  pub messages : List MessageResponse
  pub next_cursor : Option Str
  pub has_more : Bool
  pub loading : Bool
  pub error : Option Str

unfoldable pub no_messages : Messages
no_messages = record {
  messages = [];
  next_cursor = none;
  has_more = true;
  loading = true;
  error = none;
}

abbrev pub show_latest : Settled CursorPaginatedMessages → Messages → Messages
show_latest (resolved p) v = record {
  messages = p.messages;
  next_cursor = p.next_cursor;
  has_more = p.has_more;
  loading = false;
  error = none;
}
show_latest (rejected text) v = record v { error = some text; loading = false }

unfoldable pub use_messages : Spec Messages CursorPaginatedMessages
use_messages = record { key = Key.stream; before = λ v. v; after = show_latest }

-- What `loadMore` does when its request has settled: a rejection is not handled, and sets nothing.
abbrev pub show_more : Settled CursorPaginatedMessages → Messages → Messages
show_more (resolved p) v = record v {
  messages = v.messages ++ p.messages;
  next_cursor = p.next_cursor;
  has_more = p.has_more;
}
show_more (rejected text) v = v

-- `if (!nextCursor || !hasMore) return; …`, where `fetch` gives what `getMessages` settles to.
unfoldable pub load_more : (Str → Settled CursorPaginatedMessages) → Messages → Messages
load_more fetch v = elim v.next_cursor [
  | none ↦ v
  | some c ↦ if truthy c && v.has_more then show_more (fetch c) v else v
]

-- `useMessage(id)`, which loads when the identifier changes to one that is not empty.
unfoldable pub use_message :
    Str → Settled MessageDetail → View (Option MessageDetail) → View (Option MessageDetail)
use_message id r v = if truthy id then settle (found r) (record v { loading = true }) else v

-- `useSchedulerStatus`, whose `setInterval` calls `fetch` every five seconds; and `useCronConfigs`.
unfoldable pub use_scheduler_status :
    Settled (List SchedulerStatus) → View (List SchedulerStatus) → View (List SchedulerStatus)
use_scheduler_status r v = settle r v

-- The effect of `useSchedulerStatus`
unfoldable pub scheduler_status : Interval.Spec (View (List SchedulerStatus)) (List SchedulerStatus)
unfolding use_scheduler_status
scheduler_status = record { period = 5000; after = use_scheduler_status }

unfoldable pub use_cron_configs :
    Settled (List CronConfig) → View (List CronConfig) → View (List CronConfig)
use_cron_configs r v = settle r v

-- The two cells of a hook that acts.
pub record Action : Type 0 where
  pub loading : Bool
  pub error : Option Str

abbrev pub idle : Action
idle = record { loading = false; error = none }

-- `try { return await … } catch (e) { setError(e.message); return null } finally { … }`
abbrev pub finish {ℓ} : {A : Type ℓ} → Settled A → Action → Option A × Action
finish (resolved a) v = (some a, record v { loading = false })
finish (rejected text) v = (none, record v { loading = false; error = some text })

-- `create` of `useCreateAgent` and `update` of `useUpdateAgent`, while the request is under way.
abbrev pub start : Action → Action
start v = record v { loading = true; error = none }

unfoldable pub create : Settled Agent → Action → Option Agent × Action
create r v = finish r (start v)

unfoldable pub update : Settled Agent → Action → Option Agent × Action
update r v = finish r (start v)

-- `triggerTick`, `pauseAll` and `resumeAll` of `useControlActions`: they do not reset `error`.
abbrev pub start_control : Action → Action
start_control v = record v { loading = true }

unfoldable pub trigger_tick : Settled (Bool × Str) → Action → Option (Bool × Str) × Action
trigger_tick r v = finish r (start_control v)

unfoldable pub pause_all : Settled ℕ → Action → Option ℕ × Action
pause_all r v = finish r (start_control v)

unfoldable pub resume_all : Settled ℕ → Action → Option ℕ × Action
resume_all r v = finish r (start_control v)
