-- ===== src/Hooks/Keyed/Strays.antt =====
-- Requests for an identifier that the hook no longer has, and timers of runs that are over.
use trokk.Prelude.{
  ℕ, zero, suc, ◌+◌, ◌≤◌, ◌<◌, ◌≡◌, refl, subst, Bool, true, false, not, List, [], ◌∷◌, ◌++◌,
  Option, none, some, ◌==◌, if◌then◌else◌, get_elem?, All, arith, Bool-cases, inl, inr,
}
use trokk.Text.{Str}
use trokk.Polling
use trokk.Hooks.{Settled}
use trokk.Hooks.Keyed.Waits.{remove_timer-All, find_run-All}
use trokk.Hooks.Keyed.{
  Run, Waiting, Request, latest, more, Hook, Event, fires, settles, interval_changed, refresh,
  load_more, renders, unmount, Spec, fetch, schedule, fire, settle, listen, ask_more, find_run,
  remove_timer, remove_at, is_run, step, run,
}

abbrev pub one_if : Bool → ℕ
one_if b = if b then 1 else 0

abbrev pub id_of : {K : Type 0} → Request K → K
id_of (latest k) = k
id_of (more k c) = k

-- The timers of runs other than this one.
abbrev pub left_behind : {K : Type 0} → Option (Run K) → List (Waiting K) → ℕ
left_behind o [] = 0
left_behind o (w ∷ ws) = one_if (not (is_run w.run o)) + left_behind o ws

left_behind-remove_timer :
    {K : Type 0} (o : Option (Run K)) (i : ℕ) (ws : List (Waiting K)) (r : Run K)
    → find_run i ws ≡ some r
    → left_behind o (remove_timer i ws) + one_if (not (is_run r o)) ≡ left_behind o ws
left_behind-remove_timer o i [] r e = cc
left_behind-remove_timer o i (w ∷ ws) r e = elim (Bool-cases (w.timer.id == i)) [
  | inl t ↦ let found : w.run ≡ r = found_run (rw t at e) in rw (t, found) (omega arith)
  | inr t ↦ rw t (omega (arith, left_behind-remove_timer o i ws r (rw t at e)))
]
  where
    found_run : some w.run ≡ some r → w.run ≡ r
    found_run q = cc

-- No change of the identifier, and no unmount.
abbrev pub is_calm : {A K : Type 0} → Event A K → Bool
is_calm (renders k) = false
is_calm unmount = false
is_calm _ = true

module _ {S A K : Type 0} (spec : Spec S A K) where
  -- An identifier other than this one.
  abbrev pub is_other : K → K → Bool
  is_other id k = not (spec.same k id)

  abbrev pub others : K → List (Request K) → ℕ
  others id [] = 0
  others id (q ∷ qs) = one_if (is_other id (id_of q)) + others id qs

  -- What can still bring an answer for another identifier.
  abbrev pub strays : Hook S K → ℕ
  strays h = left_behind h.current h.pending + others h.id h.requests

  abbrev pub is_stray : K → Option (Request K) → Bool
  is_stray id none = false
  is_stray id (some q) = is_other id (id_of q)

  -- Whether this event is an answer for another identifier than the hook's.
  abbrev pub stray_answer : Hook S K → Event A K → Bool
  stray_answer h (settles j r) = is_stray h.id (get_elem? h.requests j)
  stray_answer h _ = false

  -- How many of these events are.
  abbrev pub stray_answers : Polling.Store → Hook S K → List (Event A K) → ℕ
  stray_answers p h [] = 0
  stray_answers p h (e ∷ es) = one_if (stray_answer h e) + stray_answers p (step spec p h e) es

  others-append :
      (id : K) (xs ys : List (Request K)) → others id (xs ++ ys) ≡ others id xs + others id ys
  others-append id [] ys = omega arith
  others-append id (x ∷ xs) ys = omega (arith, others-append id xs ys)

  others-remove_at :
      (id : K) (j : ℕ) (qs : List (Request K)) (q : Request K)
      → get_elem? qs j ≡ some q
      → others id (remove_at j qs) + one_if (is_other id (id_of q)) ≡ others id qs
  others-remove_at id j [] q e = cc
  others-remove_at id zero (x ∷ qs) q e = let same : x ≡ q = cc in rw same (omega arith)
  others-remove_at id (suc j) (x ∷ qs) q e = omega (arith, others-remove_at id j qs q e)

  abbrev pub IsOfCurrent : Hook S K → Run K → Type 0
  IsOfCurrent h r = (is_run r h.current ≡ true → spec.same r.of h.id ≡ true) × (r.number < h.runs)

  abbrev pub IsCurrent : Hook S K → Option (Run K) → Type 0
  IsCurrent h none = Unit {0}
  IsCurrent h (some r) = (spec.same r.of h.id ≡ true) × (r.number < h.runs)

  -- The current run, and each of its timers, is for the identifier of the hook.
  pub record IsOwn (h : Hook S K) : Type 0 where
    pub current : IsCurrent h h.current
    pub timers : All (λ w. IsOfCurrent h w.run) h.pending

  pub fetch-strays :
      (k : K) (h : Hook S K)
      → IsOwn h
      → IsOwn (fetch spec k h)
        × (strays (fetch spec k h) ≤ strays h + one_if (is_other h.id k))
        × ((r : Run K) → IsOfCurrent h r → IsOfCurrent (fetch spec k h) r)
  fetch-strays k h o = elim (Bool-cases (spec.skip k)) [
    | inl e ↦ rw e (o, omega arith, λ r own. own)
    | inr e ↦ rw e (
      record { current = o.current; timers = o.timers },
      omega (arith, others-append h.id h.requests (latest k ∷ [])),
      λ r own. own,
    )
  ]

  pub schedule-strays :
      (p : Polling.Store) (r : Run K) (h : Hook S K)
      → IsOfCurrent h r
      → IsOwn h
      → IsOwn (schedule spec p r h) × (strays (schedule spec p r h) ≡ strays h)
  schedule-strays p r h own o = elim (Bool-cases (is_run r h.current)) [
    | inl e ↦ rw e (record { current = o.current; timers = (own, o.timers) }, rw e (omega arith))
    | inr e ↦ rw e (o, refl)
  ]

  of_other :
      (h : Hook S K) (r : Run K)
      → IsOfCurrent h r
      → one_if (is_other h.id r.of) ≤ one_if (not (is_run r h.current))
  of_other h r own = elim (Bool-cases (is_run r h.current)) [
    | inl e ↦ rw (own.0 e) (omega arith)
    | inr e ↦ rw e (ground arith)
  ]

  fire-strays :
      (p : Polling.Store) (i : ℕ) (h : Hook S K) (f : Option (Run K))
      → find_run i h.pending ≡ f
      → IsOwn h
      → IsOwn (fire spec p i h f) × (strays (fire spec p i h f) ≤ strays h)
  fire-strays p i h none e o = (o, omega arith)
  fire-strays p i h (some r) e o =
      let g : Hook S K = record h { pending = remove_timer i h.pending } in
      let kept : IsOwn g = record {
        current = o.current;
        timers = remove_timer-All _ i h.pending o.timers;
      } in
      let own : IsOfCurrent h r = find_run-All (IsOfCurrent h) i h.pending r o.timers e in
      let (d, asked, keeps) = fetch-strays r.of g kept in
      let (f, set) = schedule-strays p r (fetch spec r.of g) (keeps r own) d in
      (
        f,
        omega (
          arith,
          asked,
          set,
          left_behind-remove_timer h.current i h.pending r e,
          of_other h r own,
        ),
      )

  settle-strays :
      (j : ℕ) (r : Settled A) (h : Hook S K) (o : Option (Request K))
      → get_elem? h.requests j ≡ o
      → IsOwn h
      → IsOwn (settle spec j r h o)
        × (one_if (is_stray h.id o) + strays (settle spec j r h o) ≤ strays h)
  settle-strays j r h none e o = (o, omega arith)
  settle-strays j r h (some q) e o = (
    record { current = o.current; timers = o.timers },
    omega (arith, others-remove_at h.id j h.requests q e),
  )

  module _ (reflexive : (k : K) → spec.same k k ≡ true) (p : Polling.Store) where
    pub own_none : (k : K) → one_if (is_other k k) ≡ 0
    own_none k = rw (reflexive k) refl

    listen-strays :
        (h : Hook S K) (c : Option (Run K))
        → h.current ≡ c
        → IsOwn h
        → IsOwn (listen spec p h c) × (strays (listen spec p h c) ≤ strays h)
    listen-strays h none e o = (o, omega arith)
    listen-strays h (some r) e o =
        let now : IsCurrent h (some r) = subst (IsCurrent h) e o.current in
        let (f, n) = schedule-strays p r h ((λ _. now.0), now.1) o in (f, omega (arith, n))

    ask_more-strays :
        (h : Hook S K) (c : Option Str)
        → IsOwn h
        → IsOwn (ask_more spec h c) × (strays (ask_more spec h c) ≤ strays h)
    ask_more-strays h none o = (o, omega arith)
    ask_more-strays h (some c) o = (
      record { current = o.current; timers = o.timers },
      omega (arith, others-append h.id h.requests (more h.id c ∷ []), own_none h.id),
    )

    step-strays :
        (h : Hook S K) (e : Event A K)
        → is_calm e ≡ true
        → IsOwn h
        → IsOwn (step spec p h e)
          × (one_if (stray_answer h e) + strays (step spec p h e) ≤ strays h)
    unfolding step
    step-strays h (fires i) calm o =
        let (f, n) = fire-strays p i h _ refl o in (f, omega (arith, n))
    step-strays h (settles j r) calm o = settle-strays j r h _ refl o
    step-strays h interval_changed calm o =
        let (f, n) = listen-strays h _ refl o in (f, omega (arith, n))
    step-strays h refresh calm o =
        let (f, n, _) = fetch-strays h.id h o in (f, omega (arith, n, own_none h.id))
    step-strays h load_more calm o =
        let (f, n) = ask_more-strays h (spec.cursor h.view) o in (f, omega (arith, n))
    step-strays h (renders k) calm o = cc
    step-strays h unmount calm o = cc

    pub run-strays :
        (h : Hook S K) (es : List (Event A K))
        → All (λ e. is_calm e ≡ true) es
        → IsOwn h
        → IsOwn (run spec p h es) × (stray_answers p h es + strays (run spec p h es) ≤ strays h)
    unfolding run
    run-strays h [] calm o = (o, omega arith)
    run-strays h (e ∷ es) calm o =
        let (f, n) = step-strays h e calm.0 o in
        let (g, m) = run-strays (step spec p h e) es calm.1 f in (g, omega (arith, n, m))
