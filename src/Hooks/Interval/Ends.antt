-- ===== src/Hooks/Interval/Ends.antt =====
-- What is left of a hook that polls by `setInterval` after its component unmounted.
use trokk.Prelude.{
  ℕ, ◌+◌, ◌-◌, ◌≤◌, ◌≡◌, refl, ap, ◌∙◌, true, false, not, List, [], ◌∷◌, filter, ◌==◌, arith,
}
use trokk.Hooks.Interval.{Interval, Hook, Event, Spec, mount, step, run}
use trokk.Hooks.Interval.Laws.{unmounts, refreshes, IsOwn, step-IsOwn, run-IsOwn}

module _ {A : Type 0} where
  abbrev one_answer : Event A → ℕ
  one_answer (Event.fires i) = 0
  one_answer (Event.settles r) = 1
  one_answer Event.refresh = 0
  one_answer Event.unmount = 0

  -- The answers that come in among the events.
  abbrev pub answers : List (Event A) → ℕ
  answers [] = 0
  answers (e ∷ es) = one_answer e + answers es

module _ {S A : Type 0} (spec : Spec S A) (next : ℕ) where
  step-ends :
      (h : Hook S) (e : Event A) (es : List (Event A))
      → IsOwn spec next true h
      → refreshes (e ∷ es) ≡ 0
      → ((step spec h e).in_flight ≡ h.in_flight - one_answer e) × (refreshes es ≡ 0)
  unfolding step
  step-ends h (Event.fires i) es k n = ground arith
  step-ends h (Event.settles r) es k n = ground arith
  step-ends h Event.refresh es k n = absurd (omega arith)
  step-ends h Event.unmount es k n = ground arith

  run-answers :
      (h : Hook S) (es : List (Event A))
      → IsOwn spec next true h
      → refreshes es ≡ 0
      → (run spec h es).in_flight ≡ h.in_flight - answers es
  unfolding run
  run-answers h [] k n = omega arith
  run-answers h (e ∷ es) k n =
      let (one, rest) = step-ends h e es k n in
      omega (arith, one, run-answers (step spec h e) es (step-IsOwn spec next true h e k) rest)

  -- With nothing under way, nothing happens any more.
  step-quiet :
      (h : Hook S) (e : Event A) (es : List (Event A))
      → IsOwn spec next true h
      → h.in_flight ≡ 0
      → refreshes (e ∷ es) ≡ 0
      → step spec h e ≡ h
  unfolding step
  step-quiet h (Event.fires i) es k z n = rw k.1
  step-quiet h (Event.settles r) es k z n = rw z
  step-quiet h Event.refresh es k z n = absurd (omega arith)
  step-quiet h Event.unmount es k z n =
      let same : filter (λ x. not (x.id == h.interval)) h.set ≡ h.set = rw k.1 in
      ap (λ (xs : List Interval). record h { set = xs }) same

  run-quiet :
      (h : Hook S) (es : List (Event A))
      → IsOwn spec next true h
      → h.in_flight ≡ 0
      → refreshes es ≡ 0
      → run spec h es ≡ h
  unfolding run
  run-quiet h [] k z n = refl
  run-quiet h (e ∷ es) k z n =
      ap (λ g. run spec g es) (step-quiet h e es k z n)
      ∙ run-quiet h es k z (step-ends h e es k n).1

  -- The polling ends: once the component has unmounted and the page does not refresh, each answer takes
  -- one request away and none is added, and when as many answers have come in as requests were under
  -- way, no sequence of further events changes the hook.
  pub run-mount_ends :
      (initial : S) (es later further : List (Event A))
      → unmounts es ≡ true
      → refreshes later ≡ 0
      → refreshes further ≡ 0
      → (run spec (mount spec next initial) es).in_flight ≤ answers later
      → ((run spec (run spec (mount spec next initial) es) later).in_flight ≡ 0)
        × (run spec (run spec (run spec (mount spec next initial) es) later) further
            ≡ run spec (run spec (mount spec next initial) es) later)
  unfolding mount
  run-mount_ends initial es later further gone r f enough =
      let h = run spec (mount spec next initial) es in
      let own : IsOwn spec next true h =
        rw gone at (run-IsOwn spec next false (mount spec next initial) es (refl, refl)) in
      let zero : (run spec h later).in_flight ≡ 0 = omega (arith, run-answers h later own r) in
      (zero, run-quiet (run spec h later) further (run-IsOwn spec next true h later own) zero f)
