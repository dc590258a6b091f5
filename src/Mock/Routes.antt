-- ===== src/Mock/Routes.antt =====
-- ferr/src/lib/api/mock.ts: `handleRequest`, a definition for each route and their chain.
pub mod Agents
pub mod Messages
pub mod Control
use trokk.Prelude.{◌++◌, Option, none, some}
use trokk.Text.{Str, str}
use trokk.Runtime.{Dates, World, after_draw}
use trokk.Http.{Method, Body}
use trokk.Mock.{Store}
use Agents.{Reply, not_found, get_health, get_agents, get_agent, post_agents, patch_agent}
use Messages.{get_messages, get_message, post_endorse, post_propagate}
use Control.{get_status, post_tick, post_pause_all, post_resume_all, get_configs}

-- `return` of the first route that matches.
infixr 20 ◌or_else◌
unfoldable pub ◌or_else◌ : Option Reply → Reply → Reply
none or_else k = k
some r or_else k = r

abbrev pub method_text : Method → Str
method_text Method.get = str "GET"
method_text Method.post = str "POST"
method_text Method.put = str "PUT"
method_text Method.patch = str "PATCH"
method_text Method.delete = str "DELETE"

unfoldable pub unknown_route : Method → Str → Store → Reply
unknown_route m path s =
    not_found (str "Unknown mock route: " ++ method_text m ++ str " " ++ path) s

-- The delay before the routes takes one draw.
unfoldable pub handle_request : Dates → World → Method → Str → Body → Store → Reply
handle_request d world m path body s =
    let w = after_draw world in
    get_health m path s
    or_else get_agents m path s
    or_else get_agent m path s
    or_else post_agents d w m path body s
    or_else patch_agent m path body s
    or_else get_messages d m path s
    or_else get_message m path s
    or_else post_endorse m path s
    or_else post_propagate m path s
    or_else get_status d w m path s
    or_else post_tick m path s
    or_else post_pause_all m path s
    or_else post_resume_all m path s
    or_else get_configs w m path s
    or_else unknown_route m path s
