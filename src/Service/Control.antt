-- ===== src/Service/Control.antt =====
-- The scheduler controls through the service functions, over the mock backend.
use trokk.Prelude.{
  ℕ, suc, ◌+◌, ◌-◌, ◌*◌, ◌^◌, ◌≤◌, ◌<◌, ◌≡◌, refl, sym, ◌∙◌, ap, Bool, true, false, List, [], ◌∷◌,
  none, some, length, length-map, map, All, arith,
}
use trokk.Text.{Str, str}
use trokk.Types.{Agent, SchedulerStatus}
use trokk.Runtime.{Dates, World, IsWorld, after_draw}
use trokk.Http.{Method, undefined, ok}
use trokk.Mock.{Store, rand}
use trokk.Mock.Calls.{get_status-call, post_pause_all-call, post_resume_all-call}
use trokk.Mock.Routes.Control.{set_active, status_row, status_rows, world_after}
use trokk.Client.{Env}
use trokk.Client
use trokk.Service.{
  reading, as_statuses, as_paused, as_resumed, get_scheduler_status, pause_all_agents,
  resume_all_agents,
}
use trokk.Service.Laws.{IsMock, request-mock}

product_lt : (draw n : ℕ) → draw < 2 ^ 53 → draw * n + n ≤ 2 ^ 53 * n
product_lt draw n h = grind arith

-- A random number lies between its bounds, both included.
rand_bounds :
    (lo hi draw : ℕ) → lo ≤ hi → draw < 2 ^ 53 → (lo ≤ rand lo hi draw) × (rand lo hi draw ≤ hi)
unfolding rand
rand_bounds lo hi draw h k = omega (arith, product_lt draw (hi - lo + 1) k)

-- The times of an active agent's row: the next tick 30 to 300 seconds after a reading of the clock,
-- the last tick 30 to 300 seconds before one (a difference below zero stops at 0). A paused agent
-- has neither.
abbrev pub Ticks : Dates → World → Bool → SchedulerStatus → Type 0
Ticks d w true r =
    (next : Str) × (last : Str) × (r.next_tick ≡ some next)
    × (r.last_tick ≡ some last)
    × (w.clock 0 + 30000 ≤ d.get_time next)
    × (d.get_time next ≤ w.clock 0 + 300000)
    × (d.get_time last ≤ w.clock 1 - 30000)
    × (w.clock 1 ≤ d.get_time last + 300000)
Ticks d w false r = (r.next_tick ≡ none) × (r.last_tick ≡ none)

-- A row of the status is that of its agent, and its interval is between one and ten minutes.
pub record IsRow (d : Dates) (w : World) (a : Agent) (r : SchedulerStatus) : Type 0 where
  pub of_agent : r.agent_id ≡ a.id
  pub activity : r.active ≡ a.active
  pub ticks : Ticks d w a.active r
  pub shortest : 60 ≤ r.interval_seconds
  pub longest : r.interval_seconds ≤ 600

-- A row for each agent, in order.
abbrev pub Rows : Dates → World → List Agent → List SchedulerStatus → Type 0
Rows d w [] [] = Unit
Rows d w [] (_ ∷ _) = ⊥
Rows d w (_ ∷ _) [] = ⊥
Rows d w (a ∷ as_) (r ∷ rs) = IsRow d w a r × Rows d (world_after a.active w) as_ rs

world_after-IsWorld : (b : Bool) (w : World) → IsWorld w → IsWorld (world_after b w)
world_after-IsWorld true w h = λ k. h (suc (suc (suc k)))
world_after-IsWorld false w h = λ k. h (suc k)

status_row-IsRow :
    (d : Dates) (w : World) (b : Bool) (a : Agent)
    → IsWorld w
    → a.active ≡ b
    → IsRow d w a (status_row d w b a)
unfolding status_row
status_row-IsRow d w true a h e =
    let (lo0, hi0) = rand_bounds 30 300 (w.draw 0) (omega arith) (h 0) in
    let (lo1, hi1) = rand_bounds 30 300 (w.draw 1) (omega arith) (h 1) in
    let (lo2, hi2) = rand_bounds 60 600 (w.draw 2) (omega arith) (h 2) in
    record {
      of_agent = refl;
      activity = refl;
      ticks = rw e (
        _,
        _,
        refl,
        refl,
        rw (d.get_time-to_iso) (omega arith),
        rw (d.get_time-to_iso) (omega arith),
        rw (d.get_time-to_iso) (omega arith),
        rw (d.get_time-to_iso) (omega arith),
      );
      shortest = lo2;
      longest = hi2;
    }
status_row-IsRow d w false a h e =
    let (lo, hi) = rand_bounds 60 600 (w.draw 0) (omega arith) (h 0) in
    record {
      of_agent = refl;
      activity = refl;
      ticks = rw e (refl, refl);
      shortest = lo;
      longest = hi;
    }

status_rows-Rows :
    (d : Dates) (w : World) (as_ : List Agent) → IsWorld w → Rows d w as_ (status_rows d w as_)
unfolding status_rows
status_rows-Rows d w [] h = tt
status_rows-Rows d w (a ∷ as_) h = (
  status_row-IsRow d w a.active a h refl,
  status_rows-Rows d (world_after a.active w) as_ (world_after-IsWorld a.active w h),
)

-- In mock mode, with draws below one, the scheduler status is a row for each agent, in order, with
-- its activity, an interval of one to ten minutes and, for an active agent alone, a next tick 30 to
-- 300 seconds after the clock and a last tick as long before it; reading it changes nothing.
pub get_scheduler_status-Rows :
    (e : Env) (s : Store)
    → IsMock e
    → IsWorld e.world
    → (rows : List SchedulerStatus) × (get_scheduler_status e s ≡ (ok rows, s))
      × Rows e.dates (after_draw e.world) s.agents rows
unfolding get_scheduler_status
get_scheduler_status-Rows e s h good = (
  status_rows e.dates (after_draw e.world) s.agents,
  ap (reading as_statuses) (
      request-mock e Method.get (str "/control/status") undefined s h
      ∙ get_status-call e.dates e.world undefined s),
  status_rows-Rows e.dates (after_draw e.world) s.agents (λ k. good (suc k)),
)

abbrev pub HaveActive : Bool → List Agent → Type 0
HaveActive b = All (λ a. a.active ≡ b)

map-set_active-HaveActive : (b : Bool) (as_ : List Agent) → HaveActive b (map (set_active b) as_)
map-set_active-HaveActive b [] = tt
map-set_active-HaveActive b (a ∷ as_) = (refl, map-set_active-HaveActive b as_)

map-set_active_twice :
    (b c : Bool) (as_ : List Agent)
    → map (set_active b) (map (set_active c) as_) ≡ map (set_active b) as_
map-set_active_twice b c [] = refl
map-set_active_twice b c (a ∷ as_) = ap (◌∷◌ (set_active b a)) (map-set_active_twice b c as_)

-- In mock mode pausing all agents answers with their number and leaves every one of them paused,
-- resuming all answers with their number and leaves every one of them active; and resuming after
-- pausing gives the same store as resuming alone.
pub resume_all_agents-pause_all_agents :
    (e : Env) (s : Store)
    → IsMock e
    → let p = record s { agents = map (set_active false) s.agents } in
      let r = record s { agents = map (set_active true) s.agents } in
      (pause_all_agents e s ≡ (ok (length s.agents), p))
      × HaveActive false p.agents
      × (resume_all_agents e s ≡ (ok (length s.agents), r))
      × HaveActive true r.agents
      × (resume_all_agents e p ≡ resume_all_agents e s)
unfolding pause_all_agents resume_all_agents
resume_all_agents-pause_all_agents e s h = (
  ap (reading as_paused) (
      request-mock e Method.post (str "/control/pause-all") undefined s h
      ∙ post_pause_all-call e.dates e.world undefined s),
  map-set_active-HaveActive false s.agents,
  resumed_from s,
  map-set_active-HaveActive true s.agents,
  resumed_from _ ∙ rw (map-set_active_twice true false s.agents, length-map) (sym (resumed_from s)),
)
  where
    resumed_from :
        (t : Store)
        → reading as_resumed (Client.post e (str "/control/resume-all") undefined t)
          ≡ (ok (length t.agents), record t { agents = map (set_active true) t.agents })
    resumed_from t = ap (reading as_resumed) (
        request-mock e Method.post (str "/control/resume-all") undefined t h
        ∙ post_resume_all-call e.dates e.world undefined t)
