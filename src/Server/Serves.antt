-- ===== src/Server/Serves.antt =====
-- The server's pages, one after another, and the hook that loads them.
use trokk.Prelude.{
  ℕ, zero, suc, ◌≤◌, ◌<◌, ◌≡◌, refl, sym, ap, ◌∙◌, subst, Bool, true, false, List, [], ◌∷◌, ◌++◌,
  Option, none, some, map, take, filter, length, ltb, if◌then◌else◌, All, Bool-cases, inl, inr,
  arith,
}
use mathlib.Core.List.{append_assoc, map-append}
use trokk.Sort.{drop, take-append-drop}
use trokk.Text.{Str}
use trokk.Types.{MessageResponse, CursorPaginatedMessages}
use trokk.Hooks.{Settled, resolved, rejected}
use trokk.Hooks.Loading.{Serves, last, more}
use trokk.Server.{
  Row, Cursor, Coding, Page, Cache, cursor_of, is_before, encode_last, last_of, selects,
  list_messages, decode_cursor, get_page, body_of,
}

-- Each row is before the ones above it, as in the order of the query.
abbrev pub IsFalling : List Row → Type 0
IsFalling [] = Unit {0}
IsFalling (r ∷ rs) = All (λ s. is_before (cursor_of r) s ≡ true) rs × IsFalling rs

not_before : (r s : Row) → is_before (cursor_of s) r ≡ true → is_before (cursor_of r) s ≡ false
not_before r s h = ground arith

not_before_self : (r : Row) → is_before (cursor_of r) r ≡ false
not_before_self r = ground arith

filter_all {ℓ} :
    {A : Type ℓ} (p : A → Bool) (xs : List A) → All (λ x. p x ≡ true) xs → filter p xs ≡ xs
filter_all p [] h = refl
filter_all p (x ∷ xs) h = rw (h.0, filter_all p xs h.1) refl

-- The rows after a cursor are those below its row.
after-split :
    (above : List Row) (r : Row) (below : List Row)
    → IsFalling (above ++ r ∷ below)
    → filter (is_before (cursor_of r)) (above ++ r ∷ below) ≡ below
after-split [] r below f = rw (not_before_self r) (filter_all (is_before (cursor_of r)) below f.0)
after-split (s ∷ above) r below f =
    rw (not_before r s (at-split above f.0)) (after-split above r below f.1)
  where
    at-split :
        (above' : List Row)
        → All (λ t. is_before (cursor_of s) t ≡ true) (above' ++ r ∷ below)
        → is_before (cursor_of s) r ≡ true
    at-split [] h = h.0
    at-split (t ∷ above') h = at-split above' h.1

-- A list that is not empty, from its last element.
last_split :
    (r : Row) (rs : List Row)
    → (above : List Row) × (l : Row) × (r ∷ rs ≡ above ++ l ∷ []) × (last_of (r ∷ rs) ≡ some l)
last_split r [] = ([], r, refl, refl)
last_split r (s ∷ rs) = let (above, l, e, f) = last_split s rs in (r ∷ above, l, ap (◌∷◌ r) e, f)

-- What the extra row is for.
kept_rows :
    (n : ℕ) (xs : List Row)
    → (take n (take (suc n) xs) ≡ take n xs)
      × (ltb n (length (take (suc n) xs)) ≡ ltb n (length xs))
kept_rows zero [] = (refl, refl)
kept_rows zero (x ∷ xs) = (refl, ground arith)
kept_rows (suc n) [] = (refl, refl)
kept_rows (suc n) (x ∷ xs) = let (a, b) = kept_rows n xs in (ap (◌∷◌ x) a, ground (arith, b))

take_le : (n : ℕ) (xs : List Row) → length xs ≤ n → take n xs ≡ xs
take_le zero [] h = refl
take_le zero (x ∷ xs) h = absurd (omega arith)
take_le (suc n) [] h = refl
take_le (suc n) (x ∷ xs) h = ap (◌∷◌ x) (take_le n xs (omega arith))

kept-eq :
    (n : ℕ) (xs : List Row)
    → let found = take (suc n) xs in
      (if ltb n (length found) then take n found else found) ≡ take n xs
kept-eq n xs = elim (Bool-cases (ltb n (length xs))) [
  | inl e ↦ rw ((kept_rows n xs).1, e) (kept_rows n xs).0
  | inr e ↦
      rw ((kept_rows n xs).1, e)
        (take_le (suc n) xs (ground arith) ∙ sym (take_le n xs (ground arith)))
]

length-drop-le : (n : ℕ) (xs : List Row) → length (drop n xs) ≤ length xs
length-drop-le zero xs = omega arith
length-drop-le (suc n) [] = omega arith
length-drop-le (suc n) (x ∷ xs) = omega (arith, length-drop-le n xs)

abbrev messages_of : List Row → List MessageResponse
messages_of rows = map (λ r. r.message) rows

module _ (coding : Coding) where
  -- The page of these rows.
  abbrev page_from : List Row → Page
  page_from below = record {
    rows = take 20 below;
    next_cursor = encode_last coding (last_of (take 20 below));
    has_more = ltb 20 (length below);
  }

  list_messages-from :
      (rows below : List Row) (cursor : Option Cursor)
      → filter (selects cursor none) rows ≡ below
      → list_messages coding rows cursor none 20 ≡ page_from below
  unfolding list_messages
  list_messages-from rows below cursor e = rw (e, kept-eq 20 below, (kept_rows 20 below).1) refl

module _ (coding : Coding) (parse_agent : Str → Option Str) (cache : Cache) (writes : Bool)
    (rows : List Row) where
  abbrev pub text_of : Option Str → Str
  text_of none = []
  text_of (some c) = c

  abbrev pub settled : Option Page → Settled CursorPaginatedMessages
  settled none = rejected []
  settled (some p) = resolved (body_of p)

  -- What the handler `ListMessages` answers to a request that the router lets pass, with this cursor
  -- and with neither a limit, for which it takes twenty, nor an agent, if Redis cannot be read.
  unfoldable pub handle : Option Str → Settled CursorPaginatedMessages
  unfolding get_page
  handle at =
      settled
        (get_page coding parse_agent (record { rows = some rows; reads = false; writes = writes })
          cache (text_of at) 20 []).0

  handle-first : handle none ≡ resolved (body_of (page_from coding rows))
  unfolding handle decode_cursor
  handle-first =
      ap (λ (p : Page). resolved (body_of p))
        (list_messages-from coding rows rows none
          (filter_all (selects none none) rows (every rows)))
    where
      every : (rs : List Row) → All (λ r. selects none none r ≡ true) rs
      every [] = tt
      every (r ∷ rs) = (refl, every rs)

  decode_written : (c : Cursor) → (decode_cursor coding (coding.encode c)).0 ≡ some c
  unfolding decode_cursor
  decode_written c =
      let (n, s, code) = coding.encode_cons c in
      let back : coding.decode (n ∷ s) ≡ some c =
        ap coding.decode (sym code) ∙ coding.decode-encode c in
      rw (code, back) refl

  handle-eq :
      (at : Option Str)
      → handle at
        ≡ resolved
            (body_of (list_messages coding rows (decode_cursor coding (text_of at)).0 none 20))
  unfolding handle
  handle-eq at = refl

  handle-after :
      (above : List Row) (l : Row) (below : List Row)
      → rows ≡ above ++ l ∷ below
      → IsFalling rows
      → handle (some (coding.encode (cursor_of l))) ≡ resolved (body_of (page_from coding below))
  handle-after above l below e f =
      handle-eq (some (coding.encode (cursor_of l)))
      ∙ ap (λ c. resolved (body_of (list_messages coding rows c none 20)))
          (decode_written (cursor_of l))
      ∙ ap (λ (p : Page). resolved (body_of p))
          (list_messages-from coding rows below (some (cursor_of l)) (
            ap (filter (is_before (cursor_of l))) e
            ∙ after-split above l below (subst IsFalling e f)))

  page_eq :
      (ms ms' : List MessageResponse) (t t' : Str) (b b' : Bool)
      → ms ≡ ms'
      → t ≡ t'
      → b ≡ b'
      → ◌≡◌ {A = Settled CursorPaginatedMessages}
          (resolved (record { messages = ms; next_cursor = some t; has_more = b }))
          (resolved (record { messages = ms'; next_cursor = some t'; has_more = b' }))
  page_eq ms ms' t t' b b' p q r = rw (p, q, r) refl

  serves :
      (k : ℕ) (at : Option Str) (above below : List Row)
      → rows ≡ above ++ below
      → length below < k
      → IsFalling rows
      → handle at ≡ resolved (body_of (page_from coding below))
      → Serves handle at (messages_of below)
  serves zero at above below e h f here = absurd (omega arith)
  serves (suc k) at above [] e h f here = last at [] (some []) here
  serves (suc k) at above (r ∷ rs) e h f here = elim (Bool-cases (ltb 20 (length (r ∷ rs)))) [
    | inr all ↦
        let whole = take_le 20 (r ∷ rs) (ground arith) in
        last at (messages_of (r ∷ rs)) (some (page_from coding (r ∷ rs)).next_cursor)
          (here ∙ page_eq _ _ _ _ _ _ (ap messages_of whole) refl all)
    | inl over ↦
        let (up, l, first, ends) = last_split r (take 19 rs) in
        let (n, s, code) = coding.encode_cons (cursor_of l) in
        let rest = drop 19 rs in
        let parts : rows ≡ (above ++ up) ++ l ∷ rest =
          e
          ∙ ap (◌++◌ above) (sym (take-append-drop 20 (r ∷ rs)) ∙ ap (λ xs. xs ++ rest) first)
          ∙ ap (◌++◌ above) (append_assoc up (l ∷ []) rest)
          ∙ sym (append_assoc above up (l ∷ rest)) in
        let next =
          subst (λ t. handle (some t) ≡ resolved (body_of (page_from coding rest))) code
            (handle-after (above ++ up) l rest parts f) in
        let tail =
          serves k (some (n ∷ s)) ((above ++ up) ++ l ∷ []) rest
            (parts ∙ sym (append_assoc (above ++ up) (l ∷ []) rest))
            (omega (arith, length-drop-le 19 rs)) f next in
        subst (Serves handle at)
          (sym (map-append (λ (x : Row). x.message) (r ∷ take 19 rs) rest)
            ∙ ap messages_of (take-append-drop 20 (r ∷ rs)))
          (more at (messages_of (r ∷ take 19 rs)) (messages_of rest) n s
            (here ∙ page_eq _ _ _ _ _ _ refl (ap (encode_last coding) ends ∙ code) over) tail)
  ]

  -- Over a table whose rows stand in the order of the query, if Redis cannot be read, the handler's
  -- answers are pages of all of the messages in order: from the request without a cursor on, each
  -- answer has the next messages, and either says that there are no more, when there are none, or
  -- gives a cursor, not empty, at which the answers go on. Every answer is one, and none is an error.
  pub handle-Serves : IsFalling rows → Serves handle none (map (λ r. r.message) rows)
  handle-Serves f = serves (suc (length rows)) none [] rows refl (omega arith) f handle-first
