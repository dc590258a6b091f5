-- ===== src/Hooks/Stats.antt =====
-- ferr/src/lib/api/hooks.ts: `useQuickStats`, and what it shows in mock mode.
use trokk.Prelude.{
  ℕ, ◌+◌, ◌≤◌, ◌≡◌, refl, ◌∙◌, ap, Bool, false, List, none, length, length-filter-le, filter, ltb,
  min,
}
use trokk.Text.{str}
use trokk.Types.{Agent, MessageResponse, CursorPaginatedMessages}
use trokk.Runtime.{Dates}
use trokk.Http.{Method, undefined, Outcome, ok, throw, untyped}
use trokk.Mock.{Store}
use trokk.Mock.Calls.{get_agents-call}
use trokk.Mock.Routes.Messages.{time_of}
use trokk.Client.{Env}
use trokk.Hooks.{Settled, resolved, rejected}
use trokk.Hooks.Interval.{Spec}
use trokk.Service.{get_agents, get_messages, reading, as_agent_list}
use trokk.Service.Laws.{IsMock, request-mock}
use trokk.Service.Messages.{get_messages-IsFirstPage}

pub record Stats : Type 0 where
  pub total_agents : ℕ
  pub active_agents : ℕ
  pub total_messages : ℕ
  pub messages_last_hour : ℕ

pub record StatsView : Type 0 where
  pub stats : Stats
  pub loading : Bool

-- `new Date(m.created_at).getTime() > Date.now() - 3600000`
abbrev pub in_last_hour : Dates → ℕ → MessageResponse → Bool
in_last_hour d now m = ltb now (time_of d m + 3600000)

unfoldable pub count_stats : Dates → ℕ → List Agent → List MessageResponse → Stats
count_stats d now agents messages = record {
  total_agents = length agents;
  active_agents = length (filter (λ a. a.active) agents);
  total_messages = length messages;
  messages_last_hour = length (filter (in_last_hour d now) messages);
}

-- The two requests, one after the other. Any failure, a value of another type included, is caught:
-- then only `loading` is reset.
abbrev with_messages :
    Env → ℕ → List Agent → StatsView → Outcome CursorPaginatedMessages × Store → StatsView × Store
with_messages e now agents v (ok p, s) =
    (record { stats = count_stats e.dates now agents p.messages; loading = false }, s)
with_messages e now agents v (throw f, s) = (record v { loading = false }, s)
with_messages e now agents v (untyped, s) = (record v { loading = false }, s)

abbrev with_agents : Env → ℕ → StatsView → Outcome (List Agent) × Store → StatsView × Store
with_agents e now v (ok agents, s) = with_messages e now agents v (get_messages e none none s)
with_agents e now v (throw f, s) = (record v { loading = false }, s)
with_agents e now v (untyped, s) = (record v { loading = false }, s)

-- `fetch` of `useQuickStats`, when `Date.now()` gives `now`.
unfoldable pub fetch_stats : Env → ℕ → StatsView → Store → StatsView × Store
unfolding count_stats
fetch_stats e now v s = with_agents e now v (get_agents e s)

-- What the effect's `fetch` sets once it has settled, and the effect.
abbrev show_stats : Settled Stats → StatsView → StatsView
show_stats (resolved stats) v = record { stats = stats; loading = false }
show_stats (rejected text) v = record v { loading = false }

unfoldable pub quick_stats : Spec StatsView Stats
quick_stats = record { period = 10000; after = show_stats }

pub get_agents-mock : (e : Env) (s : Store) → IsMock e → get_agents e s ≡ (ok s.agents, s)
unfolding get_agents
get_agents-mock e s h = ap (reading as_agent_list) (
    request-mock e Method.get (str "/agents") undefined s h
    ∙ get_agents-call e.dates e.world undefined s)

-- In mock mode the quick statistics count all of the agents and at most that many active ones, but
-- of the messages only the first page: their total is never above 20. No more messages are of the
-- last hour than the total. The store stays as it was, and loading ends.
fetch_stats-mock :
    (e : Env) (now : ℕ) (v : StatsView) (s : Store)
    → IsMock e
    → let w = (fetch_stats e now v s).0 in
      (w.stats.total_agents ≡ length s.agents)
      × (w.stats.active_agents ≤ w.stats.total_agents)
      × (w.stats.total_messages ≡ min 20 (length s.messages))
      × (w.stats.messages_last_hour ≤ w.stats.total_messages)
      × (w.loading ≡ false)
      × ((fetch_stats e now v s).1 ≡ s)
unfolding fetch_stats
fetch_stats-mock e now v s h =
    let (p, rest, answer, page) = get_messages-IsFirstPage e s h in
    rw (get_agents-mock e s h, answer)
      (
        refl,
        length-filter-le (λ a. a.active) s.agents,
        page.size,
        length-filter-le (in_last_hour e.dates now) p.messages,
        refl,
        refl,
      )
