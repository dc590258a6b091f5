-- ===== src/Mock/Routes/Control.antt =====
-- ferr/src/lib/api/mock.ts: the routes of `/control`.
use trokk.Prelude.{
  ℕ, ◌+◌, ◌-◌, ◌*◌, Bool, true, false, ◌&&◌, List, [], ◌∷◌, ◌++◌, Option, none, some, length, find,
  map,
}
use trokk.Text.{Str, str, str_eq}
use trokk.Text.Digits.{decimal}
use trokk.Types.{Agent, SchedulerStatus, CronConfig}
use trokk.Runtime.{Dates, World, after_now, after_draw}
use trokk.Http.{Method, method_eq, statuses, triggered, paused, resumed, configs}
use trokk.Mock.{Store, rand, is_agent}
use trokk.Mock.Paths.{match_rest}
use trokk.Mock.Routes.Agents.{Reply, respond, not_found, when, on_match}

abbrev pub status_of : Agent → Option Str → Option Str → ℕ → SchedulerStatus
status_of a next last interval = record {
  agent_id = a.id;
  agent_username = a.username;
  agent_display_name = a.display_name;
  active = a.active;
  next_tick = next;
  last_tick = last;
  interval_seconds = interval;
}

-- An active agent takes two readings of the clock and three draws, a paused one a single draw.
abbrev pub world_after : Bool → World → World
world_after true w = after_now (after_now (after_draw (after_draw (after_draw w))))
world_after false w = after_draw w

unfoldable pub status_row : Dates → World → Bool → Agent → SchedulerStatus
unfolding rand
status_row d w true a =
    status_of a (some (d.to_iso (w.clock 0 + rand 30 300 (w.draw 0) * 1000)))
      (some (d.to_iso (w.clock 1 - rand 30 300 (w.draw 1) * 1000))) (rand 60 600 (w.draw 2))
status_row d w false a = status_of a none none (rand 60 600 (w.draw 0))

unfoldable pub status_rows : Dates → World → List Agent → List SchedulerStatus
unfolding status_row
status_rows d w [] = []
status_rows d w (a ∷ rest) = status_row d w a.active a ∷ status_rows d (world_after a.active w) rest

unfoldable pub get_status : Dates → World → Method → Str → Store → Option Reply
get_status d w m path s =
    when (method_eq m Method.get && str_eq path (str "/control/status"))
      (some (respond (statuses (status_rows d w s.agents)) 200 s))

abbrev pub tick_found : Store → Option Agent → Reply
tick_found s none = not_found (str "Agent not found") s
tick_found s (some a) = respond (triggered true a.id) 200 s

unfoldable pub post_tick : Method → Str → Store → Option Reply
post_tick m path s = when (method_eq m Method.post) (
    on_match (match_rest (str "/control/tick/") path)
      (λ id. tick_found s (find (is_agent id) s.agents)))

abbrev pub set_active : Bool → Agent → Agent
set_active b a = record a { active = b }

unfoldable pub post_pause_all : Method → Str → Store → Option Reply
post_pause_all m path s = when (method_eq m Method.post && str_eq path (str "/control/pause-all")) (
    some (
      respond (paused (length s.agents)) 200
        (record s { agents = map (set_active false) s.agents })))

unfoldable pub post_resume_all : Method → Str → Store → Option Reply
post_resume_all m path s =
    when (method_eq m Method.post && str_eq path (str "/control/resume-all")) (
      some (
        respond (resumed (length s.agents)) 200
          (record s { agents = map (set_active true) s.agents })))

abbrev pub bool_text : Bool → Str
bool_text true = str "true"
bool_text false = str "false"

line_end : Str
line_end = 10 ∷ []

unfoldable pub sample_config : ℕ → Agent → CronConfig
unfolding line_end rand
sample_config draw a = record {
  filename = a.username ++ str ".yaml";
  content =
      str "username: "
      ++ a.username
      ++ line_end
      ++ str "display_name: "
      ++ a.display_name
      ++ line_end
      ++ str "description: \""
      ++ a.description
      ++ str "\""
      ++ line_end
      ++ str "domain: "
      ++ a.personality.domain
      ++ line_end
      ++ str "temperament: "
      ++ a.personality.temperament
      ++ line_end
      ++ str "communication_style: "
      ++ a.personality.communication_style
      ++ line_end
      ++ str "interval: "
      ++ decimal (rand 120 600 draw)
      ++ str "s"
      ++ line_end
      ++ str "active: "
      ++ bool_text a.active
      ++ line_end
      ++ str "model: llama3.2:3b";
}

unfoldable pub sample_configs : World → List Agent → List CronConfig
unfolding sample_config
sample_configs w [] = []
sample_configs w (a ∷ rest) = sample_config (w.draw 0) a ∷ sample_configs (after_draw w) rest

unfoldable pub get_configs : World → Method → Str → Store → Option Reply
get_configs w m path s =
    when (method_eq m Method.get && str_eq path (str "/control/configs"))
      (some (respond (configs (sample_configs w s.agents)) 200 s))
