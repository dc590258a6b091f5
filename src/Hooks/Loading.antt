-- ===== src/Hooks/Loading.antt =====
-- ferr/src/lib/api/hooks.ts: `useMessages` over a backend that serves the messages in pages.
use trokk.Prelude.{
  Bool, ◌&&◌, if◌then◌else◌, ℕ, zero, suc, ◌≡◌, refl, ap, ◌∙◌, true, false, List, [], ◌∷◌, ◌++◌,
  Option, none, some,
}
use mathlib.Core.List.{append_assoc, append-nil}
use trokk.Text.{Str, truthy}
use trokk.Types.{MessageResponse, CursorPaginatedMessages}
use trokk.Hooks.{Settled, resolved}
use trokk.Hooks.Views.{Messages, show_latest, show_more, load_more}

-- The backend answers a request with this cursor by the first of these messages, and either there
-- are no more, or a cursor leads to the rest.
pub data Serves (fetch : Option Str → Settled CursorPaginatedMessages)
    : Option Str → List MessageResponse → Type 0 where
  last :
      (at : Option Str) (ms : List MessageResponse) (next : Option Str)
      → fetch at ≡ resolved (record { messages = ms; next_cursor = next; has_more = false })
      → Serves fetch at ms
  more :
      (at : Option Str) (ms rest : List MessageResponse) (c : ℕ) (cs : Str)
      → fetch at ≡ resolved (record { messages = ms; next_cursor = some (c ∷ cs); has_more = true })
      → Serves fetch (some (c ∷ cs)) rest
      → Serves fetch at (ms ++ rest)

and_stops {ℓ} : {A : Type ℓ} (t b : Bool) (x y : A) → b ≡ false → (if t && b then x else y) ≡ y
and_stops true b x y h = rw h refl
and_stops false b x y h = refl

pub load_more-stops :
    (fetch : Str → Settled CursorPaginatedMessages) (v : Messages)
    → v.has_more ≡ false
    → load_more fetch v ≡ v
unfolding load_more
load_more-stops fetch v h = stops v.next_cursor
  where
    stops :
        (o : Option Str)
        → elim o as (λ x. Messages) [
          | none ↦ v
          | some c ↦ if truthy c && v.has_more then show_more (fetch c) v else v
        ]
          ≡ v
    stops none = refl
    stops (some c) = and_stops (truthy c) v.has_more (show_more (fetch c) v) v h

module _ (fetch : Option Str → Settled CursorPaginatedMessages) where
  abbrev pub load_times : ℕ → Messages → Messages
  load_times zero v = v
  load_times (suc n) v = load_times n (load_more (λ c. fetch (some c)) v)

  -- What is shown once every page has been loaded.
  pub record IsComplete (all : List MessageResponse) (v : Messages) : Type 0 where
    pub shown : v.messages ≡ all
    pub no_more : v.has_more ≡ false
    pub no_error : v.error ≡ none
    pub stays : load_more (λ c. fetch (some c)) v ≡ v

  load_all :
      (at : Option Str) (rest : List MessageResponse)
      → Serves fetch at rest
      → (v : Messages) → v.error ≡ none
      → (n : ℕ) × IsComplete (v.messages ++ rest) (load_times n (show_more (fetch at) v))
  unfolding load_more
  load_all _ _ (last at ms next e) v err = (
    0,
    rw e (record {
      shown = refl;
      no_more = refl;
      no_error = err;
      stays =
          load_more-stops _
            (record v { messages = v.messages ++ ms; next_cursor = next; has_more = false }) refl;
    }),
  )
  load_all _ _ (more at ms rest c cs e d) v err =
      let w : Messages = record v {
        messages = v.messages ++ ms;
        next_cursor = some (c ∷ cs);
        has_more = true;
      } in
      let (n, done) = load_all (some (c ∷ cs)) rest d w err in
      (suc n, rw e (rw (← append_assoc v.messages ms rest) done))

  load_times-stays :
      (v : Messages) → load_more (λ c. fetch (some c)) v ≡ v → (k : ℕ) → load_times k v ≡ v
  load_times-stays v h zero = refl
  load_times-stays v h (suc k) = ap (load_times k) h ∙ load_times-stays v h k

  load_some :
      (at : Option Str) (rest : List MessageResponse)
      → Serves fetch at rest
      → (v : Messages) (k : ℕ)
      → (tail : List MessageResponse) × ((load_times k (show_more (fetch at) v)).messages ++ tail
          ≡ v.messages ++ rest)
  unfolding load_more
  load_some _ _ (last at ms next e) v k = (
    [],
    append-nil _
        ∙ ap (λ (x : Messages). x.messages)
            (load_times-stays (show_more (fetch at) v)
              (load_more-stops (λ c. fetch (some c)) (show_more (fetch at) v) (rw e refl)) k)
        ∙ rw e refl,
  )
  load_some _ _ (more at ms rest c cs e d) v zero = (rest, rw e (append_assoc v.messages ms rest))
  load_some _ _ (more at ms rest c cs e d) v (suc k) =
      let w : Messages = record v {
        messages = v.messages ++ ms;
        next_cursor = some (c ∷ cs);
        has_more = true;
      } in
      let (tail, whole) = load_some (some (c ∷ cs)) rest d w k in
      (tail, rw e (whole ∙ append_assoc v.messages ms rest))

  abbrev cleared : Messages → Messages
  cleared v = record v { messages = []; loading = false; error = none }

  show_latest-eq :
      (at : Option Str) (rest : List MessageResponse)
      → Serves fetch at rest
      → (v : Messages) → show_latest (fetch at) v ≡ show_more (fetch at) (cleared v)
  show_latest-eq _ _ (last at ms next e) v = rw e
  show_latest-eq _ _ (more at ms rest c cs e d) v = rw e

  -- A first page shows the same whatever was shown before it.
  show_latest-same :
      (at : Option Str) (rest : List MessageResponse)
      → Serves fetch at rest
      → (v w : Messages) → show_latest (fetch at) v ≡ show_latest (fetch at) w
  show_latest-same _ _ (last at ms next e) v w = rw e refl
  show_latest-same _ _ (more at ms rest c cs e d) v w = rw e refl

  -- If the backend serves the messages in pages, whatever was shown before, after the first request
  -- some number of calls of `loadMore` shows all of the messages in order, with no error, and a further
  -- call then changes nothing; after any number of calls the messages shown are the first ones of all,
  -- with none left out or shown twice; and a poll that settles then shows the first page again, as it
  -- was before those calls.
  pub load_times-show_latest :
      (all : List MessageResponse) (v : Messages) (k : ℕ)
      → Serves fetch none all
      → ((n : ℕ) × IsComplete all (load_times n (show_latest (fetch none) v)))
        × ((tail : List MessageResponse) × ((load_times k (show_latest (fetch none) v)).messages
                ++ tail
              ≡ all))
        × (show_latest (fetch none) (load_times k (show_latest (fetch none) v))
            ≡ show_latest (fetch none) v)
  load_times-show_latest all v k d = rw (show_latest-eq none all d v) (
    load_all none all d (cleared v) refl,
    load_some none all d (cleared v) k,
    show_latest-same none all d _ v ∙ show_latest-eq none all d v,
  )
