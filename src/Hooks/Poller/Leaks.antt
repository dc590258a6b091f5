-- ===== src/Hooks/Poller/Leaks.antt =====
-- How many timers the shared effect keeps.
use trokk.Prelude.{
  ℕ, suc, ◌+◌, ◌≤◌, ◌≡◌, refl, Bool, true, false, List, [], ◌∷◌, length, arith, All,
}
use trokk.Hooks.Timers.{is_waiting, length-remove, length-clear, waits}
use trokk.Hooks.Poller.{
  Hook, Event, Spec, fires, settles, interval_changed, refresh, unmount, mount, step, run,
}
use trokk.Polling

abbrev pub timers_of : {S : Type 0} → Hook S → ℕ
timers_of h = length h.timers.pending

-- How often the listener was called.
abbrev pub changes : {A : Type 0} → List (Event A) → ℕ
changes [] = 0
changes (interval_changed ∷ es) = suc (changes es)
changes (_ ∷ es) = changes es

abbrev pub is_unmount : {A : Type 0} → Event A → Bool
is_unmount unmount = true
is_unmount _ = false

abbrev pub is_refresh : {A : Type 0} → Event A → Bool
is_refresh refresh = true
is_refresh _ = false

module _ {S A : Type 0} (spec : Spec S A) (p : Polling.Store) where
  -- Mounted, with the timer of `timeout` waiting.
  abbrev IsMounted : Hook S → Type 0
  IsMounted h = (h.active ≡ true) × (h.subscribed ≡ true) × (is_waiting h.timeout h.timers ≡ true)

  abbrev one_change : Event A → ℕ
  one_change interval_changed = 1
  one_change _ = 0

  step-IsMounted :
      (h : Hook S) (e : Event A) → is_unmount e ≡ false → IsMounted h → IsMounted (step spec p h e)
  unfolding step waits
  step-IsMounted h (fires i) ne v = ground arith
  step-IsMounted h (settles r) ne v = ground arith
  step-IsMounted h interval_changed ne v = ground arith
  step-IsMounted h refresh ne v = v
  step-IsMounted h unmount ne v = cc

  step-timers :
      (h : Hook S) (e : Event A)
      → is_unmount e ≡ false
      → IsMounted h
      → timers_of (step spec p h e) ≡ timers_of h + one_change e
  unfolding step
  step-timers h (fires i) ne v = ground (arith, length-remove i h.timers.pending)
  step-timers h (settles r) ne v = ground arith
  step-timers h interval_changed ne v = ground arith
  step-timers h refresh ne v = ground arith
  step-timers h unmount ne v = cc

  changes-cons : (e : Event A) (es : List (Event A)) → changes (e ∷ es) ≡ one_change e + changes es
  changes-cons interval_changed es = omega arith
  changes-cons (fires i) es = omega arith
  changes-cons (settles r) es = omega arith
  changes-cons refresh es = omega arith
  changes-cons unmount es = omega arith

  run-timers :
      (h : Hook S) (es : List (Event A))
      → All (λ e. is_unmount e ≡ false) es
      → IsMounted h
      → IsMounted (run spec p h es) × (timers_of (run spec p h es) ≡ timers_of h + changes es)
  unfolding run
  run-timers h [] ne v = (v, omega arith)
  run-timers h (e ∷ es) ne v =
      let (w, n) = run-timers (step spec p h e) es ne.1 (step-IsMounted h e ne.0 v) in
      (w, omega (arith, n, step-timers h e ne.0 v, changes-cons e es))

  mount-IsMounted : (v : S) → IsMounted (mount spec p v)
  unfolding mount waits
  mount-IsMounted v = ground arith

  one_timer : (v : S) → timers_of (mount spec p v) ≡ 1
  unfolding mount
  one_timer v = refl

  unmount-timers : (h : Hook S) → IsMounted h → timers_of (step spec p h unmount) + 1 ≡ timers_of h
  unfolding step
  unmount-timers h v = ground (arith, length-clear h.timeout h.timers)

  -- While the hook is mounted, whatever happens, it keeps one timer, plus one for each change of an
  -- interval since the mount; an unmount then clears exactly one of them.
  pub run-mount-timers :
      (v : S) (es : List (Event A))
      → All (λ e. is_unmount e ≡ false) es
      → (timers_of (run spec p (mount spec p v) es) ≡ 1 + changes es)
        × (timers_of (step spec p (run spec p (mount spec p v) es) unmount) ≡ changes es)
  run-mount-timers v es ne =
      let h = run spec p (mount spec p v) es in
      let (w, n) = run-timers (mount spec p v) es ne (mount-IsMounted v) in
      (omega (arith, n, one_timer v), omega (arith, n, one_timer v, unmount-timers h w))

  abbrev work : Hook S → ℕ
  work h = h.in_flight + timers_of h

  abbrev Stopped : Hook S → Hook S → Type 0
  Stopped g h = (h.active ≡ false) × (h.subscribed ≡ false) × (work h ≤ work g)

  step-Stopped :
      (g h : Hook S) (e : Event A)
      → is_refresh e ≡ false
      → Stopped g h
      → Stopped g (step spec p h e)
  unfolding step
  step-Stopped g h (fires i) ne v = ground (arith, length-remove i h.timers.pending)
  step-Stopped g h (settles r) ne v = ground arith
  step-Stopped g h interval_changed ne v = ground arith
  step-Stopped g h refresh ne v = cc
  step-Stopped g h unmount ne v = ground (arith, length-clear h.timeout h.timers)

  run-Stopped :
      (g h : Hook S) (es : List (Event A))
      → All (λ e. is_refresh e ≡ false) es
      → Stopped g h
      → Stopped g (run spec p h es)
  unfolding run
  run-Stopped g h [] ne v = v
  run-Stopped g h (e ∷ es) ne v =
      run-Stopped g (step spec p h e) es ne.1 (step-Stopped g h e ne.0 v)

  unmount-Stopped : (h : Hook S) → Stopped h (step spec p h unmount)
  unfolding step
  unmount-Stopped h = ground (arith, length-clear h.timeout h.timers)

  -- Once the hook is unmounted, whatever happens later but a call of `refresh`, the requests in
  -- flight and the waiting timers together grow no more.
  run-step-unmount_work :
      (h : Hook S) (es : List (Event A))
      → All (λ e. is_refresh e ≡ false) es
      → (run spec p (step spec p h unmount) es).in_flight
          + timers_of (run spec p (step spec p h unmount) es)
        ≤ h.in_flight + timers_of h
  run-step-unmount_work h es ne =
      (run-Stopped h (step spec p h unmount) es ne (unmount-Stopped h)).2
