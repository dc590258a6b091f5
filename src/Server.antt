-- ===== src/Server.antt =====
-- internal/stream/cache.go with internal/store/pg/messages.go, internal/store/redis/stream.go and
-- internal/model/models.go: the pages of messages that the Go server answers with. The database and
-- Redis are parameters: the rows of the query's join, and a table of texts to pages.
pub mod Laws
pub mod Serves
use trokk.Prelude.{
  ℕ, suc, ◌+◌, Bool, true, false, ◌&&◌, ◌||◌, List, [], ◌∷◌, ◌++◌, Option, none, some, length, take,
  filter, ltb, map, ◌==◌, if◌then◌else◌, ◌≡◌,
}
use trokk.Text.{Str, str, str_eq}
use trokk.Text.Digits.{decimal}
use trokk.Types.{MessageResponse, CursorPaginatedMessages}

-- A row of the join: its key in the order of the query, and what a client gets of it.
pub record Row : Type 0 where
  pub created_at : ℕ
  pub id : ℕ
  pub message : MessageResponse

pub record Cursor : Type 0 where
  pub created_at : ℕ
  pub id : ℕ

abbrev pub cursor_of : Row → Cursor
cursor_of r = record { created_at = r.created_at; id = r.id }

-- `(m.created_at, m.id) < ($1, $2)`
abbrev pub is_before : Cursor → Row → Bool
is_before c r = ltb r.created_at c.created_at || (r.created_at == c.created_at && ltb r.id c.id)

-- The base64 of the JSON of a cursor: what is written is read back, and it is not empty.
pub record Coding : Type 0 where
  pub encode : Cursor → Str
  pub decode : Str → Option Cursor
  pub decode-encode : (c : Cursor) → decode (encode c) ≡ some c
  pub encode_cons : (c : Cursor) → (n : ℕ) × (s : Str) × (encode c ≡ n ∷ s)

abbrev pub last_of : List Row → Option Row
last_of [] = none
last_of (r ∷ []) = some r
last_of (r ∷ s ∷ rs) = last_of (s ∷ rs)

abbrev pub selects : Option Cursor → Option Str → Row → Bool
selects none none r = true
selects none (some a) r = str_eq r.message.agent_id a
selects (some c) none r = is_before c r
selects (some c) (some a) r = is_before c r && str_eq r.message.agent_id a

pub record Page : Type 0 where
  pub rows : List Row
  pub next_cursor : Str
  pub has_more : Bool

module _ (coding : Coding) where
  -- `EncodeCursor` of the cursor of the last row, if there is one.
  abbrev pub encode_last : Option Row → Str
  encode_last none = []
  encode_last (some r) = coding.encode (cursor_of r)

  -- `ListMessages`, over the rows of the join in the order of the query: one row more than the limit is
  -- asked for.
  unfoldable pub list_messages : List Row → Option Cursor → Option Str → ℕ → Page
  list_messages rows cursor agent limit =
      let found = take (suc limit) (filter (selects cursor agent) rows) in
      let kept = if ltb limit (length found) then take limit found else found in
      record {
        rows = kept;
        next_cursor = encode_last (last_of kept);
        has_more = ltb limit (length found);
      }

  abbrev read_cursor : Str → Option Cursor → Option Cursor × Str
  read_cursor s none = (none, [])
  read_cursor s (some c) = (some c, s)

  -- `DecodeCursor`, where a text that cannot be read counts as no text.
  unfoldable pub decode_cursor : Str → Option Cursor × Str
  decode_cursor [] = (none, [])
  decode_cursor (c ∷ s) = read_cursor (c ∷ s) (coding.decode (c ∷ s))

-- `pageKey`
unfoldable pub page_key : Str → ℕ → Str
page_key [] limit = str "stream:page:latest:" ++ decimal limit
page_key (c ∷ s) limit = str "stream:page:" ++ (c ∷ s) ++ str ":" ++ decimal limit

-- The pages that Redis has; an entry that expires is taken out of it.
abbrev pub Cache : Type 0
Cache = List (Str × List Row)

abbrev pub cached_page : Str → Cache → Option (List Row)
cached_page key [] = none
cached_page key ((k, rows) ∷ rest) = if str_eq k key then some rows else cached_page key rest

-- What the database and Redis do during a request: a query that fails, and calls of Redis that fail.
pub record Backend : Type 0 where
  pub rows : Option (List Row)
  pub reads : Bool
  pub writes : Bool

-- `if limit <= 0 || limit > 100 { limit = defaultLimit }`
abbrev pub clamp : ℕ → ℕ
clamp limit = if limit == 0 || ltb 100 limit then 20 else limit

module _ (coding : Coding) (parse_agent : Str → Option Str) where
  -- `uuid.Parse`, for a text that is not empty; one that is no identifier counts as none.
  abbrev pub agent_of : Str → Option Str
  agent_of [] = none
  agent_of (c ∷ s) = parse_agent (c ∷ s)

  abbrev from_cache : List Row → Page
  from_cache rows = record {
    rows = rows;
    next_cursor = encode_last coding (last_of rows);
    has_more = false;
  }

  abbrev from_query :
      Backend
      → Cache
      → Str
      → Option Cursor
      → Option Str
      → ℕ
      → Option (List Row)
      → Option Page × Cache
  from_query b cache key cursor agent limit none = (none, cache)
  from_query b cache key cursor agent limit (some rows) =
      let page = list_messages coding rows cursor agent limit in
      (some page, if b.writes then (key, page.rows) ∷ cache else cache)

  abbrev answer :
      Backend
      → Cache
      → Str
      → Option Cursor
      → Option Str
      → ℕ
      → Option (List Row)
      → Option Page × Cache
  answer b cache key cursor agent limit (some rows) = (some (from_cache rows), cache)
  answer b cache key cursor agent limit none = from_query b cache key cursor agent limit b.rows

  -- `GetPage`; `none` is an error.
  unfoldable pub get_page : Backend → Cache → Str → ℕ → Str → Option Page × Cache
  unfolding list_messages decode_cursor page_key
  get_page b cache cursor_text asked agent_text =
      let limit = clamp asked in
      let (cursor, text) = decode_cursor coding cursor_text in
      let key = page_key text limit in
      answer b cache key cursor (agent_of agent_text) limit
        (if b.reads then cached_page key cache else none)

-- The body of the answer of the handler `ListMessages`, as the client reads it.
abbrev pub body_of : Page → CursorPaginatedMessages
body_of p = record {
  messages = map (λ r. r.message) p.rows;
  next_cursor = some p.next_cursor;
  has_more = p.has_more;
}
