-- ===== src/Mock/Calls.antt =====
-- What `handleRequest` does with the paths that the service functions build.
use trokk.Prelude.{◌≡◌, refl, arith, true, false, ◌++◌, none, some, length, find, map}
use trokk.Sort.{sort_down}
use trokk.Text.{Str, str}
use trokk.Types.{ok_state, connected}
use trokk.Runtime.{Dates, World, after_draw}
use trokk.Http.{Method, Body, health, agent_list, paused, resumed, statuses, configs, message_page}
use trokk.Mock.{Store, is_agent, is_message}
use trokk.Mock.Paths.{
  IsSegment, match_rest, match_rest-append, match_between, match_between-append, strip_suffix,
  strip_suffix-other,
}
use trokk.Mock.Routes.{handle_request, unknown_route, ◌or_else◌}
use trokk.Mock.Routes.Agents.{
  respond, when, on_match, get_health, get_agents, get_agent, post_agents, patch_agent, agent_found,
  create_with, patch_with,
}
use trokk.Mock.Routes.Messages.{
  get_messages, get_message, post_endorse, post_propagate, message_found, endorse_found,
  propagate_found, first_page, time_of,
}
use trokk.Mock.Routes.Control.{
  get_status, post_tick, post_pause_all, post_resume_all, get_configs, set_active, tick_found,
  status_rows, sample_configs,
}

module _ (d : Dates) (w : World) (body : Body) (s : Store) where
  pub get_health-call :
      handle_request d w Method.get (str "/health") body s
      ≡ respond
          (health (record {
            status = ok_state;
            postgres = connected;
            redis = connected;
            ollama = some connected;
          }))
          200
          s
  unfolding handle_request ◌or_else◌ when get_health
  get_health-call = refl

  pub get_agents-call :
      handle_request d w Method.get (str "/agents") body s ≡ respond (agent_list s.agents) 200 s
  unfolding handle_request ◌or_else◌ when get_health get_agents
  get_agents-call = refl

  pub get_agent-call :
      (id : Str)
      → IsSegment id
      → handle_request d w Method.get (str "/agents/" ++ id) body s
        ≡ agent_found s (find (is_agent id) s.agents)
  unfolding handle_request ◌or_else◌ when on_match get_health get_agents get_agent
  get_agent-call id h = rw (match_rest-append (str "/agents/") id h)

  pub post_agents-call :
      handle_request d w Method.post (str "/agents") body s ≡ create_with d (after_draw w) s body
  unfolding handle_request ◌or_else◌ when get_health get_agents get_agent post_agents
  post_agents-call = refl

  pub patch_agent-call :
      (id : Str)
      → IsSegment id
      → handle_request d w Method.patch (str "/agents/" ++ id) body s
        ≡ patch_with id body s (find (is_agent id) s.agents)
  unfolding handle_request ◌or_else◌ when on_match get_health get_agents get_agent post_agents
      patch_agent
  patch_agent-call id h = rw (match_rest-append (str "/agents/") id h)

not_agent_path : (rest : Str) → match_rest (str "/agents/") (str "/messages/" ++ rest) ≡ none
unfolding match_rest
not_agent_path rest = refl

not_endorse_path :
    (id : Str)
    → match_between
        (str "/messages/")
        (str "/endorse")
        (str "/messages/" ++ (id ++ str "/propagate"))
      ≡ none
unfolding match_between strip_suffix
not_endorse_path id =
    rw (strip_suffix-other (str "/endorse") (str "/propagate") id (omega arith) refl)

not_agents_path : match_rest (str "/agents/") (str "/messages") ≡ none
unfolding match_rest
not_agents_path = refl

module _ (d : Dates) (w : World) (body : Body) (s : Store) where
  pub get_messages-call :
      handle_request d w Method.get (str "/messages") body s
      ≡ respond (message_page (first_page (sort_down (time_of d) s.messages))) 200 s
  unfolding handle_request ◌or_else◌ when on_match get_health get_agents get_agent post_agents
      patch_agent get_messages
  get_messages-call = rw not_agents_path

  pub get_message-call :
      (id : Str)
      → IsSegment id
      → handle_request d w Method.get (str "/messages/" ++ id) body s
        ≡ message_found s (find (is_message id) s.messages)
  unfolding handle_request ◌or_else◌ when on_match get_health get_agents get_agent post_agents
      patch_agent get_messages get_message
  get_message-call id h = rw (not_agent_path id, match_rest-append (str "/messages/") id h)

  pub post_endorse-call :
      (id : Str)
      → IsSegment id
      → handle_request d w Method.post (str "/messages/" ++ (id ++ str "/endorse")) body s
        ≡ endorse_found id s (find (is_message id) s.messages)
  unfolding handle_request ◌or_else◌ when on_match get_health get_agents get_agent post_agents
      patch_agent get_messages get_message post_endorse
  post_endorse-call id h = rw (match_between-append (str "/messages/") (str "/endorse") id h)

  pub post_propagate-call :
      (id : Str)
      → IsSegment id
      → handle_request d w Method.post (str "/messages/" ++ (id ++ str "/propagate")) body s
        ≡ propagate_found id s (find (is_message id) s.messages)
  unfolding handle_request ◌or_else◌ when on_match get_health get_agents get_agent post_agents
      patch_agent get_messages get_message post_endorse post_propagate
  post_propagate-call id h =
      rw (not_endorse_path id, match_between-append (str "/messages/") (str "/propagate") id h)

not_read_path :
    (rest : Str)
    → (match_rest (str "/agents/") (str "/control/" ++ rest) ≡ none)
      × (match_rest (str "/messages/") (str "/control/" ++ rest) ≡ none)
      × (match_between (str "/messages/") (str "/endorse") (str "/control/" ++ rest) ≡ none)
      × (match_between (str "/messages/") (str "/propagate") (str "/control/" ++ rest) ≡ none)
unfolding match_rest match_between
not_read_path rest = (refl, refl, refl, refl)

not_tick_path :
    (match_rest (str "/control/tick/") (str "/control/pause-all") ≡ none)
    × (match_rest (str "/control/tick/") (str "/control/resume-all") ≡ none)
unfolding match_rest
not_tick_path = (refl, refl)

module _ (d : Dates) (w : World) (body : Body) (s : Store) where
  pub get_status-call :
      handle_request d w Method.get (str "/control/status") body s
      ≡ respond (statuses (status_rows d (after_draw w) s.agents)) 200 s
  unfolding handle_request ◌or_else◌ when on_match get_health get_agents get_agent post_agents
      patch_agent get_messages get_message post_endorse post_propagate get_status
  get_status-call = rw ((not_read_path (str "status")).0, (not_read_path (str "status")).1)

  pub post_tick-call :
      (id : Str)
      → IsSegment id
      → handle_request d w Method.post (str "/control/tick/" ++ id) body s
        ≡ tick_found s (find (is_agent id) s.agents)
  unfolding handle_request ◌or_else◌ when on_match get_health get_agents get_agent post_agents
      patch_agent get_messages get_message post_endorse post_propagate get_status post_tick
  post_tick-call id h = rw (
    (not_read_path (str "tick/" ++ id)).2,
    (not_read_path (str "tick/" ++ id)).3,
    match_rest-append (str "/control/tick/") id h,
  )

  pub post_pause_all-call :
      handle_request d w Method.post (str "/control/pause-all") body s
      ≡ respond
          (paused (length s.agents))
          200
          (record s { agents = map (set_active false) s.agents })
  unfolding handle_request ◌or_else◌ when on_match get_health get_agents get_agent post_agents
      patch_agent get_messages get_message post_endorse post_propagate get_status post_tick
      post_pause_all
  post_pause_all-call =
      rw ((not_read_path (str "pause-all")).2, (not_read_path (str "pause-all")).3, not_tick_path.0)

  pub post_resume_all-call :
      handle_request d w Method.post (str "/control/resume-all") body s
      ≡ respond
          (resumed (length s.agents))
          200
          (record s { agents = map (set_active true) s.agents })
  unfolding handle_request ◌or_else◌ when on_match get_health get_agents get_agent post_agents
      patch_agent get_messages get_message post_endorse post_propagate get_status post_tick
      post_pause_all post_resume_all
  post_resume_all-call =
      rw (
        (not_read_path (str "resume-all")).2,
        (not_read_path (str "resume-all")).3,
        not_tick_path.1,
      )

  pub get_configs-call :
      handle_request d w Method.get (str "/control/configs") body s
      ≡ respond (configs (sample_configs (after_draw w) s.agents)) 200 s
  unfolding handle_request ◌or_else◌ when on_match get_health get_agents get_agent post_agents
      patch_agent get_messages get_message post_endorse post_propagate get_status post_tick
      post_pause_all post_resume_all get_configs
  get_configs-call = rw ((not_read_path (str "configs")).0, (not_read_path (str "configs")).1)

not_query_path :
    (query : Str)
    → (match_rest (str "/agents/") (str "/messages?" ++ query) ≡ none)
      × (match_rest (str "/messages/") (str "/messages?" ++ query) ≡ none)
unfolding match_rest
not_query_path query = (refl, refl)

-- A query is no part of any route of the mock.
pub query-call :
    (d : Dates) (w : World) (body : Body) (s : Store) (query : Str)
    → handle_request d w Method.get (str "/messages?" ++ query) body s
      ≡ unknown_route Method.get (str "/messages?" ++ query) s
unfolding handle_request ◌or_else◌ when on_match get_health get_agents get_agent post_agents
    patch_agent get_messages get_message post_endorse post_propagate get_status post_tick
    post_pause_all post_resume_all get_configs
query-call d w body s query = rw ((not_query_path query).0, (not_query_path query).1)
