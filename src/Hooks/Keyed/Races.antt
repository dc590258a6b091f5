-- ===== src/Hooks/Keyed/Races.antt =====
-- Answers that come in another order, or to requests that are made twice.
use trokk.Prelude.{
  ℕ, zero, suc, ◌≡◌, refl, sym, ap, ◌∙◌, Bool, true, false, List, [], ◌∷◌, ◌++◌, Option, none, some,
  length, get_elem?, if◌then◌else◌, arith,
}
use mathlib.Core.List.{append_assoc, append-nil}
use trokk.Text.{Str, str_eq, truthy}
use trokk.Types.{AgentWithStats, CursorPaginatedMessages}
use trokk.Polling
use trokk.Hooks.{View, resolved}
use trokk.Hooks.Views.{Messages}
use trokk.Hooks.Keyed.{
  Request, latest, more, Hook, Event, settles, load_more, renders, settle, ask_more, remove_at,
  step, run, set_up_run, Run, keyed_agent, keyed_messages, cursor_of, clean_up, end_run,
}

abbrev pub repeat : {A : Type 0} → ℕ → A → List A
repeat zero a = []
repeat (suc n) a = a ∷ repeat n a

-- The same list, one after another.
abbrev pub copies : {A : Type 0} → ℕ → List A → List A
copies zero xs = []
copies (suc n) xs = xs ++ copies n xs

get_elem?-length :
    {A : Type 0} (xs : List A) (x : A) (ys : List A) → get_elem? (xs ++ x ∷ ys) (length xs) ≡ some x
get_elem?-length [] x ys = refl
get_elem?-length (y ∷ xs) x ys = get_elem?-length xs x ys

remove_at-length :
    {A : Type 0} (xs : List A) (x : A) (ys : List A)
    → remove_at (length xs) (xs ++ x ∷ ys) ≡ xs ++ ys
remove_at-length [] x ys = refl
remove_at-length (y ∷ xs) x ys = ap (◌∷◌ y) (remove_at-length xs x ys)

abbrev pub AgentHook : Type 0
AgentHook = Hook (View (Option AgentWithStats)) Str

abbrev pub MessagesHook : Type 0
MessagesHook = Hook Messages (Option Str)

module _ (p : Polling.Store) where
  asked :
      (h : MessagesHook) (c : Str) (n : ℕ)
      → cursor_of h.view ≡ some c
      → run keyed_messages p h (repeat n load_more)
        ≡ record h { requests = h.requests ++ repeat n (more h.id c) }
  unfolding run step keyed_messages
  asked h c zero e =
      ap (λ (qs : List (Request (Option Str))). record h { requests = qs })
        (sym (append-nil h.requests))
  asked h c (suc n) e =
      let g : MessagesHook = record h { requests = h.requests ++ more h.id c ∷ [] } in
      ap (λ o. run keyed_messages p (ask_more keyed_messages h o) (repeat n load_more)) e
      ∙ asked g c n e
      ∙ ap (λ (qs : List (Request (Option Str))). record h { requests = qs })
          (append_assoc h.requests (more h.id c ∷ []) (repeat n (more h.id c)))

  answered :
      (r : CursorPaginatedMessages) (k : Option Str) (c : Str) (n : ℕ) (h : MessagesHook)
      (qs : List (Request (Option Str)))
      → h.requests ≡ qs ++ repeat n (more k c)
      → let g = run keyed_messages p h (repeat n (settles (length qs) (resolved r))) in
        (g.view.messages ≡ h.view.messages ++ copies n r.messages) × (g.requests ≡ qs)
  unfolding run step keyed_messages
  answered r k c zero h qs e = (sym (append-nil h.view.messages), e ∙ append-nil qs)
  answered r k c (suc n) h qs e =
      let q : Request (Option Str) = more k c in
      let found : get_elem? h.requests (length qs) ≡ some q =
        ap (λ rs. get_elem? rs (length qs)) e ∙ get_elem?-length qs q (repeat n q) in
      let g : MessagesHook = settle keyed_messages (length qs) (resolved r) h (some q) in
      let rest : g.requests ≡ qs ++ repeat n q =
        ap (remove_at (length qs)) e ∙ remove_at-length qs q (repeat n q) in
      let (shown, left) = answered r k c n g qs rest in
      let same =
        ap
          (λ o.
            run keyed_messages p (settle keyed_messages (length qs) (resolved r) h o)
              (repeat n (settles (length qs) (resolved r))))
          found in
      (
        ap (λ (x : MessagesHook). x.view.messages) same
            ∙ shown
            ∙ append_assoc h.view.messages r.messages (copies n r.messages),
        ap (λ (x : MessagesHook). x.requests) same ∙ left,
      )

  run-append :
      (h : MessagesHook) (xs ys : List (Event CursorPaginatedMessages (Option Str)))
      → run keyed_messages p h (xs ++ ys) ≡ run keyed_messages p (run keyed_messages p h xs) ys
  unfolding run
  run-append h [] ys = refl
  run-append h (x ∷ xs) ys = run-append (step keyed_messages p h x) xs ys

  -- `loadMore` does not look whether a request of its own is under way. Whatever the state of the hook,
  -- if there is a cursor, calling it n times before an answer comes shows the page that the answers
  -- bring n times, one after another.
  pub run-load_more_repeats :
      (h : MessagesHook) (c : Str) (n : ℕ) (page : CursorPaginatedMessages)
      → cursor_of h.view ≡ some c
      → let g =
          run keyed_messages p h
            (repeat n load_more ++ repeat n (settles (length h.requests) (resolved page))) in
        (g.view.messages ≡ h.view.messages ++ copies n page.messages) × (g.requests ≡ h.requests)
  run-load_more_repeats h c n page e =
      let g : MessagesHook = record h { requests = h.requests ++ repeat n (more h.id c) } in
      let answers = repeat n (settles (length h.requests) (resolved page)) in
      let whole =
        run-append h (repeat n load_more) answers
        ∙ ap (λ (x : MessagesHook). run keyed_messages p x answers) (asked h c n e) in
      let (shown, left) = answered page h.id c n g h.requests refl in
      (
        ap (λ (x : MessagesHook). x.view.messages) whole ∙ shown,
        ap (λ (x : MessagesHook). x.requests) whole ∙ left,
      )

  set_up_asks :
      (h : AgentHook)
      → truthy h.id ≡ true
      → let g = set_up_run keyed_agent p h in
        (g.id ≡ h.id) × (g.requests ≡ h.requests ++ latest h.id ∷ [])
  unfolding keyed_agent
  set_up_asks h named = ground arith

  end_run-requests :
      (h : AgentHook) (o : Option (Run Str)) → (end_run keyed_agent h o).requests ≡ h.requests
  end_run-requests h none = refl
  end_run-requests h (some r) = refl

  second_else :
      {A : Type 0} (a b : Bool) (x y : A)
      → a ≡ true
      → b ≡ false
      → (if a then if b then x else y else x) ≡ y
  second_else a b x y e f = rw (e, f) refl

  renders_asks :
      (h : AgentHook) (new : Str)
      → h.mounted ≡ true
      → truthy new ≡ true
      → str_eq new h.id ≡ false
      → let g = step keyed_agent p h (renders new) in
        (g.id ≡ new) × (g.requests ≡ h.requests ++ latest new ∷ [])
  unfolding step keyed_agent
  renders_asks h new on named changed =
      let g : AgentHook = record (clean_up keyed_agent h) { id = new } in
      let (id, asked) = set_up_asks g named in
      let kept = ap (λ rs. rs ++ latest new ∷ []) (end_run-requests h h.current) in
      let taken =
        second_else h.mounted (str_eq new h.id) h (set_up_run keyed_agent p g) on changed in
      (
        ap (λ (x : AgentHook). x.id) taken ∙ id,
        ap (λ (x : AgentHook). x.requests) taken ∙ asked ∙ kept,
      )

  answer_shown :
      (h : AgentHook) (j : ℕ) (k : Str) (x : AgentWithStats)
      → get_elem? h.requests j ≡ some (latest k)
      → step keyed_agent p h (settles j (resolved x)) ≡ record h {
        view = record { value = some x; loading = false; error = none };
        requests = remove_at j h.requests;
      }
  unfolding step keyed_agent
  answer_shown h j k x e = ap (settle keyed_agent j (resolved x) h) e

  -- Whatever the state of `useAgent`, as long as it is mounted with a request for an agent under way:
  -- after a change to another identifier, if the answer of the new one comes first and that of the old
  -- one after it, the hook shows the agent of the old one, with no error and as loaded.
  pub run-renders_late :
      (h : AgentHook) (j : ℕ) (old new : Str) (x y : AgentWithStats)
      → h.mounted ≡ true
      → truthy new ≡ true
      → str_eq new h.id ≡ false
      → get_elem? h.requests j ≡ some (latest old)
      → let g =
          run keyed_agent p h (
            renders new ∷ settles (length h.requests) (resolved y) ∷ settles j (resolved x) ∷ []) in
        (g.id ≡ new) × (g.view ≡ record { value = some x; loading = false; error = none })
  unfolding run
  run-renders_late h j old new x y on named changed under_way =
      let (id, asked) = renders_asks h new on named changed in
      let g = step keyed_agent p h (renders new) in
      let first =
        ap (λ rs. get_elem? rs (length h.requests)) asked
        ∙ get_elem?-length h.requests (latest new) [] in
      let second = answer_shown g (length h.requests) new y first in
      let left =
        ap (remove_at (length h.requests)) asked
        ∙ remove_at-length h.requests (latest new) []
        ∙ append-nil h.requests in
      let third =
        ap (λ (x' : AgentHook). step keyed_agent p x' (settles j (resolved x))) second
        ∙ answer_shown _ j old x (ap (λ rs. get_elem? rs j) left ∙ under_way) in
      (ap (λ (x' : AgentHook). x'.id) third ∙ id, ap (λ (x' : AgentHook). x'.view) third)
