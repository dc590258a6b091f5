-- ===== src/Hooks/Paging.antt =====
-- ferr/src/lib/api/hooks.ts: `useMessages` over the service functions in mock mode.
use mathlib.Core.List.{Perm}
use trokk.Prelude.{
  ◌++◌, List, ◌≡◌, refl, Bool, true, ◌&&◌, Option, none, some, length, ltb, min, arith, Bool-cases,
  inl, inr, if◌then◌else◌,
}
use trokk.Text.{Str, truthy}
use trokk.Types.{MessageResponse, CursorPaginatedMessages}
use trokk.Http.{Outcome, ok, throw, untyped, type_error}
use trokk.Mock.{Store}
use trokk.Client.{Env}
use trokk.Service.{get_messages}
use trokk.Service.Laws.{IsMock}
use trokk.Service.Messages.{get_messages-IsFirstPage, get_messages-query_fails}
use trokk.Hooks.{Settled, resolved, rejected, message_of}
use trokk.Hooks.Views.{Messages, show_latest, show_more, load_more}

-- What the hook's handlers receive; a value of another type has no page to show.
abbrev pub settled_page : Outcome CursorPaginatedMessages → Settled CursorPaginatedMessages
settled_page (ok p) = resolved p
settled_page (throw f) = rejected (message_of f)
settled_page untyped = rejected (message_of type_error)

-- The request of `fetchLatest` (no cursor) and of `loadMore`.
abbrev pub page_of : Env → Store → Option Str → Settled CursorPaginatedMessages
page_of e s cursor = settled_page (get_messages e cursor none s).0

and_left : (a b : Bool) → (a && b) ≡ true → a ≡ true
and_left a b h = ground arith

module _ (e : Env) (s : Store) (h : IsMock e) where
  more_fails : (c : Str) (v : Messages) → truthy c ≡ true → show_more (page_of e s (some c)) v ≡ v
  more_fails c v t = rw (get_messages-query_fails e (some c) none s h (rw t refl)) refl

  more_at :
      (o : Option Str) (v : Messages)
      → ◌≡◌ {A = Messages}
          (elim o [
            | none ↦ v
            | some c ↦ if truthy c && v.has_more then show_more (page_of e s (some c)) v else v
          ])
          v
  more_at none v = refl
  more_at (some c) v = elim (Bool-cases (truthy c && v.has_more)) [
    | inl asks ↦ rw asks (more_fails c v (and_left (truthy c) v.has_more asks))
    | inr stops ↦ rw stops
  ]

  load_more-same : (v : Messages) → load_more (λ c. page_of e s (some c)) v ≡ v
  unfolding load_more
  load_more-same v = more_at v.next_cursor v

  -- In mock mode, whatever was shown before, the first request shows at most twenty messages of the
  -- store, with no error, and says that there are more when some are left out; but `loadMore` then
  -- changes nothing, so those are never shown.
  load_more-show_latest :
      (v : Messages)
      → let w = show_latest (page_of e s none) v in
        (rest : List MessageResponse) × Perm (w.messages ++ rest) s.messages
        × (length w.messages ≡ min 20 (length s.messages))
        × (w.has_more ≡ ltb 0 (length rest))
        × (w.error ≡ none)
        × (load_more (λ c. page_of e s (some c)) w ≡ w)
  load_more-show_latest v =
      let (p, rest, answer, page) = get_messages-IsFirstPage e s h in
      rw answer (rest, page.complete, page.size, page.more, refl, load_more-same _)
