-- ===== src/Server/Laws.antt =====
-- What a page that Redis has does to the requests after it.
use trokk.Prelude.{◌≡◌, Option, some}
use trokk.Text.{Str}
use trokk.Server.{Coding, Page, Cache, cached_page, encode_last, last_of}

module _ (coding : Coding) (parse_agent : Str → Option Str) where
  -- The page is in Redis under its key, with the cursor of its last row.
  abbrev IsKept : Str → Cache → Page → Type 0
  IsKept key cache page =
      (cached_page key cache ≡ some page.rows)
      × (page.next_cursor ≡ encode_last coding (last_of page.rows))
