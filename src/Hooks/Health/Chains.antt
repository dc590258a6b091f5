-- ===== src/Hooks/Health/Chains.antt =====
-- How many chains of requests `useHealth` keeps alive. A chain is a request in flight or a timer.
use trokk.Prelude.{
  ℕ, ◌+◌, ◌≤◌, ◌≡◌, ◌≢◌, refl, true, false, List, [], ◌∷◌, length, arith, if◌then◌else◌, All,
}
use trokk.Hooks.Timers.{is_waiting, length-remove, length-clear}
use trokk.Hooks.Health.{
  Hook, Event, fires, settles, interval_changed, unmount, use_health, step, run,
}
use trokk.Polling

abbrev pub chains : Hook → ℕ
chains h = h.in_flight + length h.timers.pending

-- What a change of the interval adds: nothing if the timer that it clears waits, else a chain.
abbrev pub adds : Hook → Event → ℕ
adds h interval_changed = if is_waiting h.timeout h.timers then 0 else 1
adds h (fires i) = 0
adds h (settles r) = 0
adds h unmount = 0

abbrev pub added : Polling.Store → Hook → List Event → ℕ
added p h [] = 0
added p h (e ∷ es) = adds h e + added p (step p h e) es

-- The hook is mounted.
pub record IsMounted (h : Hook) : Type 0 where
  pub live : h.active ≡ true
  pub listening : h.subscribed ≡ true

step-chains :
    (p : Polling.Store) (h : Hook) (e : Event)
    → e ≢ unmount
    → IsMounted h
    → chains (step p h e) ≡ chains h + adds h e
unfolding step
step-chains p h (fires i) ne v = ground (arith, length-remove i h.timers.pending)
step-chains p h (settles r) ne v = ground arith
step-chains p h interval_changed ne v = ground (arith, length-clear h.timeout h.timers)
step-chains p h unmount ne v = absurd (ne refl)

step-IsMounted :
    (p : Polling.Store) (h : Hook) (e : Event) → e ≢ unmount → IsMounted h → IsMounted (step p h e)
unfolding step
step-IsMounted p h (fires i) ne v = ground arith
step-IsMounted p h (settles r) ne v = ground arith
step-IsMounted p h interval_changed ne v = ground arith
step-IsMounted p h unmount ne v = absurd (ne refl)

run-chains :
    (p : Polling.Store) (h : Hook) (es : List Event)
    → All (λ e. e ≢ unmount) es
    → IsMounted h
    → chains (run p h es) ≡ chains h + added p h es
unfolding run
run-chains p h [] ok v = omega arith
run-chains p h (e ∷ es) ok v = omega (
  arith,
  run-chains p (step p h e) es ok.1 (step-IsMounted p h e ok.0 v),
  step-chains p h e ok.0 v,
)

-- While `useHealth` is mounted, whatever happens, the requests in flight and the waiting timers are
-- one, plus one for each change of the interval that came while the last timer was not waiting.
-- So there is always at least one of them.
pub run-use_health-chains :
    (p : Polling.Store) (es : List Event)
    → All (λ e. e ≢ unmount) es
    → chains (run p use_health es) ≡ 1 + added p use_health es
unfolding use_health
run-use_health-chains p es ok =
    run-chains p use_health es ok (record { live = refl; listening = refl })

-- The hook is unmounted.
abbrev Stopped : Hook → Hook → Type 0
Stopped g h =
    (h.active ≡ false) × (h.subscribed ≡ false) × (h.view ≡ g.view) × (chains h ≤ chains g)

step-Stopped : (p : Polling.Store) (g h : Hook) (e : Event) → Stopped g h → Stopped g (step p h e)
unfolding step
step-Stopped p g h (fires i) v = ground (arith, length-remove i h.timers.pending)
step-Stopped p g h (settles r) v = ground arith
step-Stopped p g h interval_changed v = ground arith
step-Stopped p g h unmount v = ground (arith, length-clear h.timeout h.timers)

run-Stopped :
    (p : Polling.Store) (g h : Hook) (es : List Event) → Stopped g h → Stopped g (run p h es)
unfolding run
run-Stopped p g h [] v = v
run-Stopped p g h (e ∷ es) v = run-Stopped p g (step p h e) es (step-Stopped p g h e v)

-- Once `useHealth` is unmounted, whatever happens later, its view no longer changes, and the
-- requests in flight and the waiting timers grow no more.
run-step-unmount_chains :
    (p : Polling.Store) (h : Hook) (es : List Event)
    → ((run p (step p h unmount) es).view ≡ h.view)
      × (chains (run p (step p h unmount) es) ≤ chains h)
unfolding step
run-step-unmount_chains p h es =
    let v = run-Stopped p h (step p h unmount) es (stopped h) in (v.2, v.3)
  where
    stopped : (h : Hook) → Stopped h (step p h unmount)
    stopped h = ground (arith, length-clear h.timeout h.timers)
