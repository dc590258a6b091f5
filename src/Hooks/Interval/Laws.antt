-- ===== src/Hooks/Interval/Laws.antt =====
-- The interval of the hooks that poll by `setInterval`.
use trokk.Prelude.{
  ℕ, ◌+◌, ◌≤◌, ◌≡◌, refl, subst, Bool, true, false, ◌||◌, List, [], ◌∷◌, if◌then◌else◌, arith,
}
use mathlib.Core.Bool.{or_assoc}
use trokk.Hooks.Interval.{Interval, Hook, Event, Spec, mount, step, run}

module _ {A : Type 0} where
  abbrev is_unmount : Event A → Bool
  is_unmount (Event.fires i) = false
  is_unmount (Event.settles r) = false
  is_unmount Event.refresh = false
  is_unmount Event.unmount = true

  -- There is an unmount among the events.
  abbrev pub unmounts : List (Event A) → Bool
  unmounts [] = false
  unmounts (e ∷ es) = is_unmount e || unmounts es

  abbrev one_firing : Event A → ℕ
  one_firing (Event.fires i) = 1
  one_firing (Event.settles r) = 0
  one_firing Event.refresh = 0
  one_firing Event.unmount = 0

  abbrev one_refresh : Event A → ℕ
  one_refresh (Event.fires i) = 0
  one_refresh (Event.settles r) = 0
  one_refresh Event.refresh = 1
  one_refresh Event.unmount = 0

  -- The times that an interval is due among the events, and the calls of `refresh`.
  abbrev pub firings : List (Event A) → ℕ
  firings [] = 0
  firings (e ∷ es) = one_firing e + firings es

  abbrev pub refreshes : List (Event A) → ℕ
  refreshes [] = 0
  refreshes (e ∷ es) = one_refresh e + refreshes es

module _ {S A : Type 0} (spec : Spec S A) (next : ℕ) where
  -- The intervals that are set, by whether the component has unmounted.
  abbrev pub intervals_of : Bool → List Interval
  intervals_of gone = if gone then [] else record { id = next; period = spec.period } ∷ []

  -- The hook's variable has the number of its interval, and no other is set.
  abbrev pub IsOwn : Bool → Hook S → Type 0
  IsOwn gone h = (h.interval ≡ next) × (h.set ≡ intervals_of gone)

  pub step-IsOwn :
      (gone : Bool) (h : Hook S) (e : Event A)
      → IsOwn gone h
      → IsOwn (gone || is_unmount e) (step spec h e)
  unfolding step
  step-IsOwn true h (Event.fires i) k = ground arith
  step-IsOwn true h (Event.settles r) k = ground arith
  step-IsOwn true h Event.refresh k = k
  step-IsOwn true h Event.unmount k = (k.0, rw k.1)
  step-IsOwn false h (Event.fires i) k = ground arith
  step-IsOwn false h (Event.settles r) k = ground arith
  step-IsOwn false h Event.refresh k = k
  step-IsOwn false h Event.unmount k = ground arith

  pub run-IsOwn :
      (gone : Bool) (h : Hook S) (es : List (Event A))
      → IsOwn gone h
      → IsOwn (gone || unmounts es) (run spec h es)
  unfolding run
  run-IsOwn true h [] k = k
  run-IsOwn false h [] k = k
  run-IsOwn gone h (e ∷ es) k =
      subst (λ b. IsOwn b (run spec (step spec h e) es))
        (or_assoc gone (is_unmount e) (unmounts es))
        (run-IsOwn (gone || is_unmount e) (step spec h e) es (step-IsOwn gone h e k))

  -- A step starts one request at most, and a firing none if no interval is set.
  step-in_flight :
      (gone : Bool) (h : Hook S) (e : Event A)
      → IsOwn gone h
      → (step spec h e).in_flight ≤ h.in_flight + one_refresh e + (if gone then 0 else one_firing e)
  unfolding step
  step-in_flight true h (Event.fires i) k = ground arith
  step-in_flight true h (Event.settles r) k = ground arith
  step-in_flight true h Event.refresh k = omega arith
  step-in_flight true h Event.unmount k = omega arith
  step-in_flight false h (Event.fires i) k = ground arith
  step-in_flight false h (Event.settles r) k = ground arith
  step-in_flight false h Event.refresh k = omega arith
  step-in_flight false h Event.unmount k = omega arith

  run-in_flight :
      (gone : Bool) (h : Hook S) (es : List (Event A))
      → IsOwn gone h
      → (run spec h es).in_flight ≤ h.in_flight + refreshes es + (if gone then 0 else firings es)
  unfolding run
  run-in_flight gone h [] k = ground arith
  run-in_flight true h (e ∷ es) k = omega (
    arith,
    step-in_flight true h e k,
    run-in_flight true (step spec h e) es (step-IsOwn true h e k),
  )
  run-in_flight false h (e ∷ es) k =
      let ih = run-in_flight (is_unmount e) (step spec h e) es (step-IsOwn false h e k) in
      ground (arith, step-in_flight false h e k, ih)

  -- Through every sequence of events from the mount, the hook has exactly one interval set, of its own
  -- period, until the component unmounts, and none after that. In what follows, every request that is
  -- added was made by a call of `refresh` or, before the unmount, by the interval: the interval makes
  -- none after the unmount.
  pub run-mount_interval :
      (initial : S) (es later : List (Event A))
      → ((run spec (mount spec next initial) es).set ≡ intervals_of (unmounts es))
        × ((run spec (run spec (mount spec next initial) es) later).in_flight
            ≤ (run spec (mount spec next initial) es).in_flight
              + refreshes later
              + (if unmounts es then 0 else firings later))
  unfolding mount
  run-mount_interval initial es later =
      let own = run-IsOwn false (mount spec next initial) es (refl, refl) in
      (own.1, run-in_flight (unmounts es) (run spec (mount spec next initial) es) later own)
