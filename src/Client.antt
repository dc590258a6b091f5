-- ===== src/Client.antt =====
-- ferr/src/lib/api/config.ts and client.ts: where a request goes, and what its failure becomes.
use trokk.Prelude.{ℕ, Bool, ◌++◌, Option, none, some, if◌then◌else◌}
use trokk.Text.{Str, str, str_eq, truthy}
use trokk.Runtime.{Dates, World}
use trokk.Http.{Method, Body, undefined, Payload, api_error, Outcome, ok, throw, ◌>>=◌, ApiResponse}
use trokk.Mock.{Store}
use trokk.Mock.Routes.{handle_request}
use trokk.Mock.Routes.Agents.{Reply}

-- What `fetch` resolves to, as far as the client reads it.
pub record Response : Type 0 where
  pub is_ok : Bool
  pub status : ℕ
  pub status_text : Str
  pub text : Str
  pub json : Outcome Payload

-- `fetch(url, { method, headers, body })` is the engine's: it answers or rejects. The headers are
-- the same in every call.
abbrev pub Fetch : Type 0
Fetch = Method → Str → Body → Outcome Response

-- The environment variables at build time, and the engine.
pub record Env : Type 0 where
  pub next_public_api_url : Option Str
  pub next_public_api_mode : Option Str
  pub fetch : Fetch
  pub dates : Dates
  pub world : World

-- `value || default`
abbrev pub or_default : Option Str → Str → Str
or_default none d = d
or_default (some v) d = if truthy v then v else d

unfoldable pub api_base_url : Env → Str
api_base_url e = or_default e.next_public_api_url (str "http://localhost:8080")

unfoldable pub api_mode : Env → Str
api_mode e = or_default e.next_public_api_mode (str "mock")

unfoldable pub api_url : Env → Str → Str
unfolding api_base_url
api_url e path = api_base_url e ++ path

-- `if (!res.ok) throw new ApiError(text || res.statusText, res.status)`, else the decoded body.
unfoldable pub read_response : Response → Outcome ApiResponse
read_response res =
    if res.is_ok
    then (do data_ ← res.json; ok (record { body = data_; status = res.status }))
    else throw (api_error (if truthy res.text then res.text else res.status_text) res.status)

unfoldable pub request : Env → Method → Str → Body → Store → Reply
unfolding api_mode api_url read_response
request e m path body s =
    if str_eq (api_mode e) (str "mock")
    then handle_request e.dates e.world m path body s
    else (do res ← e.fetch m (api_url e path) body; read_response res, s)

unfoldable pub get : Env → Str → Store → Reply
unfolding request
get e path s = request e Method.get path undefined s

unfoldable pub post : Env → Str → Body → Store → Reply
unfolding request
post e path body s = request e Method.post path body s

unfoldable pub put : Env → Str → Body → Store → Reply
unfolding request
put e path body s = request e Method.put path body s

unfoldable pub patch : Env → Str → Body → Store → Reply
unfolding request
patch e path body s = request e Method.patch path body s

unfoldable pub del : Env → Str → Store → Reply
unfolding request
del e path s = request e Method.delete path undefined s
