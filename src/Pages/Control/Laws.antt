-- ===== src/Pages/Control/Laws.antt =====
-- What the control page shows after its buttons, in mock mode.
use trokk.Prelude.{
  suc, ◌≡◌, refl, ◌∙◌, ap, Bool, true, false, List, [], ◌∷◌, none, some, length, length-map, map,
  All,
}
use trokk.Types.{Agent, SchedulerStatus}
use trokk.Runtime.{Dates, World, IsWorld}
use trokk.Mock.{Store}
use trokk.Mock.Routes.Control.{set_active, world_after}
use trokk.Client.{Env}
use trokk.Service.Laws.{IsMock}
use trokk.Service.Control.{
  Rows, HaveActive, get_scheduler_status-Rows, resume_all_agents-pause_all_agents,
}
use trokk.Hooks.Views.{use_scheduler_status, pause_all, resume_all}
use trokk.Pages.Control.{Control, refresh, handle_pause_all, handle_resume_all}

-- The page shows these rows, with no error of the list and nothing loading.
abbrev pub showing : List SchedulerStatus → Control → Control
showing rows c = record {
  statuses = record { value = rows; loading = false; error = none };
  action = record c.action { loading = false };
}

Rows-active :
    (d : Dates) (w : World) (b : Bool) (as_ : List Agent) (rows : List SchedulerStatus)
    → Rows d w as_ rows
    → HaveActive b as_
    → (length rows ≡ length as_) × All (λ r. r.active ≡ b) rows
Rows-active d w b [] [] h k = (refl, tt)
Rows-active d w b [] (r ∷ rs) h k = absurd h
Rows-active d w b (a ∷ as_) [] h k = absurd h
Rows-active d w b (a ∷ as_) (r ∷ rs) h k =
    let (n, rest) = Rows-active d (world_after a.active w) b as_ rs h.1 k.1 in
    (ap suc n, (h.0.activity ∙ k.0, rest))

module _ (e later : Env) (c : Control) (s : Store) where
  -- In mock mode, with draws below one, after `handlePauseAll` the page shows a row for each agent,
  -- all of them paused, and after `handleResumeAll` a row for each agent, all of them active, with
  -- nothing loading and no error of the list.
  pub handle_pause_all-handle_resume_all :
      IsMock e
      → IsMock later
      → IsWorld later.world
      → ((rows : List SchedulerStatus) × (handle_pause_all e later c s
            ≡ (some (showing rows c), record s { agents = map (set_active false) s.agents }))
          × (length rows ≡ length s.agents)
          × All (λ r. r.active ≡ false) rows)
        × ((rows : List SchedulerStatus) × (handle_resume_all e later c s
              ≡ (some (showing rows c), record s { agents = map (set_active true) s.agents }))
            × (length rows ≡ length s.agents)
            × All (λ r. r.active ≡ true) rows)
  unfolding handle_pause_all handle_resume_all refresh use_scheduler_status pause_all resume_all
  handle_pause_all-handle_resume_all h k good =
      let (paused, all_paused, resumed, all_resumed, _) =
        resume_all_agents-pause_all_agents e s h in
      let (rows, answer, of_agents) =
        get_scheduler_status-Rows later (record s { agents = map (set_active false) s.agents }) k
          good in
      let (rows', answer', of_agents') =
        get_scheduler_status-Rows later (record s { agents = map (set_active true) s.agents }) k
          good in
      let (count, off) = Rows-active _ _ false _ rows of_agents all_paused in
      let (count', on) = Rows-active _ _ true _ rows' of_agents' all_resumed in
      (
        (rows, rw (paused, answer) refl, count ∙ length-map (set_active false) s.agents, off),
        (rows', rw (resumed, answer') refl, count' ∙ length-map (set_active true) s.agents, on),
      )
