-- ===== src/Tests/Server.antt =====
-- The pages of the Go server on a small table.
use trokk.Prelude.{refl, true, false, List, [], ◌∷◌, Option, none, some}
use trokk.Text.{Str}
use trokk.Hooks.Loading.{Serves}
use trokk.Server.{Row, Cursor, Coding, Page, Backend}
use trokk.Server.Serves.{handle, handle-Serves}
use trokk.Tests.Data.{hello, answer}

decode_plain : Str → Option Cursor
decode_plain (t ∷ i ∷ []) = some (record { created_at = t; id = i })
decode_plain _ = none

abbrev plain : Coding
unfolding decode_plain
plain = record {
  encode = λ c. c.created_at ∷ c.id ∷ [];
  decode = decode_plain;
  decode-encode = λ c. refl;
  encode_cons = λ c. (c.created_at, c.id ∷ [], refl);
}

abbrev rows : List Row
rows =
    record { created_at = 7; id = 2; message = answer }
    ∷ record { created_at = 6; id = 1; message = hello }
    ∷ []

abbrev parse_agent : Str → Option Str
parse_agent s = some s

handle-Serves_example : Serves (handle plain parse_agent [] true rows) none (answer ∷ hello ∷ [])
handle-Serves_example = handle-Serves plain parse_agent [] true rows ((refl, tt), (tt, tt))

abbrev working : Backend
working = record { rows = some rows; reads = true; writes = true }

abbrev first_rows : Page
first_rows = record { rows = rows; next_cursor = 6 ∷ 1 ∷ []; has_more = false }
