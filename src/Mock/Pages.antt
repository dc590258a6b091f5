-- ===== src/Mock/Pages.antt =====
-- ferr/src/lib/api/mock.ts: what the first page of the messages holds.
use trokk.Prelude.{
  ℕ, ◌≡◌, ◌∙◌, ap, List, ◌++◌, Option, none, some, length, ltb, min, arith, if◌then◌else◌,
  Bool-cases, inl, inr, length-take,
}
use mathlib.Core.List.{Perm}
use trokk.Sort.{
  IsDown, sort_down, sort_down-IsDown, sort_down-perm, length-sort_down, drop, take-append-drop,
  last?, get_elem?-last?, length-drop,
}
use trokk.Text.{Str}
use trokk.Types.{MessageResponse, CursorPaginatedMessages}
use trokk.Mock.Routes.Messages.{first_page}

abbrev pub id_of : Option MessageResponse → Option Str
id_of none = none
id_of (some m) = some m.id

-- A page of all the messages by falling key: together with the rest it is a permutation of them
-- that is in order, it has at most twenty, the rest is empty unless there are more, and the cursor
-- is the identifier of its last message, if there are more.
pub record IsFirstPage (key : MessageResponse → ℕ) (all : List MessageResponse)
    (p : CursorPaginatedMessages) (rest : List MessageResponse) : Type 0 where
  pub complete : Perm (p.messages ++ rest) all
  pub sorted : IsDown key (p.messages ++ rest)
  pub size : length p.messages ≡ min 20 (length all)
  pub more : p.has_more ≡ ltb 0 (length rest)
  pub cursor : p.next_cursor ≡ (if p.has_more then id_of (last? p.messages) else none)

first_page-cursor :
    (l : List MessageResponse)
    → (first_page l).next_cursor
      ≡ (if (first_page l).has_more then id_of (last? (first_page l).messages) else none)
unfolding first_page
first_page-cursor l = elim (Bool-cases (ltb 20 (length l))) [
  | inl e ↦ rw e (ap id_of' (get_elem?-last? 19 l (ground arith)))
  | inr e ↦ rw e
]
  where
    id_of' : Option MessageResponse → Option Str
    id_of' o = elim o [ none ↦ none | some m ↦ some m.id ]

pub first_page-IsFirstPage :
    (key : MessageResponse → ℕ) (ms : List MessageResponse)
    → IsFirstPage key ms (first_page (sort_down key ms)) (drop 20 (sort_down key ms))
unfolding first_page
first_page-IsFirstPage key ms = record {
  complete = rw (take-append-drop 20 (sort_down key ms)) (sort_down-perm key ms);
  sorted = rw (take-append-drop 20 (sort_down key ms)) (sort_down-IsDown key ms);
  size = length-take 20 (sort_down key ms) ∙ ap (min 20) (length-sort_down key ms);
  more = ground (arith, length-drop 20 (sort_down key ms));
  cursor = first_page-cursor (sort_down key ms);
}
