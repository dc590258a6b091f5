-- ===== src/Hooks/Keyed/Constant.antt =====
-- While its identifier stays the same, the hook is the shared effect of Poller.
use trokk.Prelude.{
  ℕ, ◌≡◌, refl, sym, ap, ◌∙◌, Bool, true, false, ◌⊎◌, inl, inr, List, [], ◌∷◌, ◌++◌, Option, none,
  some, length, length-append, get_elem?, map, All, arith,
}
use trokk.Polling
use trokk.Hooks.{Settled}
use trokk.Hooks.Timers
use trokk.Hooks.Timers.{Timer, remove, waits}
use trokk.Hooks.Poller
use trokk.Hooks.Poller.Leaks.{is_unmount}
use trokk.Hooks.Keyed.Waits.{remove_timer-All, clear_timeout-All, find_run-All}
use trokk.Hooks.Keyed.{
  Run, Waiting, Request, latest, Hook, Event, fires, settles, interval_changed, refresh, unmount,
  Spec, fetch, schedule, fire, settle, find_run, remove_timer, clear_timeout, mount, step, run,
}

-- The events of Poller, the answer being that to the first request under way.
abbrev pub keyed : {A K : Type 0} → Poller.Event A → Event A K
keyed (Poller.Event.fires i) = fires i
keyed (Poller.Event.settles r) = settles 0 r
keyed Poller.Event.interval_changed = interval_changed
keyed Poller.Event.refresh = refresh
keyed Poller.Event.unmount = unmount

abbrev is_set : {A : Type 0} → Option A → Bool
is_set none = false
is_set (some a) = true

-- The state of Poller's hook: what does not depend on the identifiers.
abbrev pub poller_of : {S K : Type 0} → Hook S K → Poller.Hook S
poller_of h = record {
  view = h.view;
  active = is_set h.current;
  timeout = h.timeout;
  timers = record { next = h.next; pending = map (λ w. w.timer) h.pending };
  in_flight = length h.requests;
  subscribed = is_set h.current;
}

module _ {K : Type 0} where
  abbrev first_run : K → Run K
  first_run k = record { number = 0; of = k }

  All-append :
      (P : Request K → Type 0) (xs ys : List (Request K)) → All P xs → All P ys → All P (xs ++ ys)
  All-append P [] ys hx hy = hy
  All-append P (x ∷ xs) ys hx hy = (hx.0, All-append P xs ys hx.1 hy)

  waits-map :
      (i : ℕ) (ws : List (Waiting K)) → waits i (map (λ w. w.timer) ws) ≡ is_set (find_run i ws)
  unfolding waits
  waits-map i [] = refl
  waits-map i (w ∷ ws) = ground (arith, waits-map i ws)

  remove-map :
      (i : ℕ) (ws : List (Waiting K))
      → remove i (map (λ w. w.timer) ws) ≡ map (λ w. w.timer) (remove_timer i ws)
  unfolding remove
  remove-map i [] = refl
  remove-map i (w ∷ ws) = ground (arith, remove-map i ws)

module _ {S A K : Type 0} (spec : Spec S A K) (p : Polling.Store) (k : K) where
  record IsConstant (h : Hook S K) : Type 0 where
    id : h.id ≡ k
    current : (h.current ≡ none) ⊎ (h.current ≡ some (first_run k))
    pending : All (λ w. w.run ≡ first_run k) h.pending
    requests : All (λ q. q ≡ latest k) h.requests

  fetch-poller_of :
      (h : Hook S K)
      → spec.skip k ≡ false
      → IsConstant h
      → IsConstant (fetch spec k h)
        × (poller_of (fetch spec k h) ≡ Poller.fetch spec.base (poller_of h))
  fetch-poller_of h live c = rw live (
    record {
      id = c.id;
      current = c.current;
      pending = c.pending;
      requests = All-append _ h.requests (latest k ∷ []) c.requests (refl, tt);
    },
    ap (λ n. record (poller_of h) { view = spec.base.before h.view; in_flight = n })
        (length-append h.requests (latest k ∷ [])),
  )

  schedule-poller_of :
      (h : Hook S K)
      → IsConstant h
      → IsConstant (schedule spec p (first_run k) h)
        × (poller_of (schedule spec p (first_run k) h) ≡ Poller.schedule spec.base p (poller_of h))
  schedule-poller_of h c = elim c.current [ inl e ↦ ground arith | inr e ↦ ground arith ]

  settle-poller_of :
      (h : Hook S K) (qs : List (Request K)) (r : Settled A)
      → let g = record h { requests = qs } in
        IsConstant g
        → IsConstant (step spec p g (settles 0 r))
          × (poller_of (step spec p g (settles 0 r))
              ≡ Poller.step spec.base p (poller_of g) (Poller.Event.settles r))
  unfolding step Poller.step
  settle-poller_of h [] r c = (c, refl)
  settle-poller_of h (q ∷ qs) r c = rw (c.requests.0) (
    record { id = c.id; current = c.current; pending = c.pending; requests = c.requests.1 },
    ground arith,
  )

  fire-poller_of :
      (h : Hook S K) (i : ℕ) (o : Option (Run K))
      → spec.skip k ≡ false
      → find_run i h.pending ≡ o
      → IsConstant h
      → IsConstant (fire spec p i h o)
        × (poller_of (fire spec p i h o)
            ≡ Poller.step spec.base p (poller_of h) (Poller.Event.fires i))
  unfolding Poller.step
  fire-poller_of h i none live e c = rw (waits-map i h.pending, e) (c, refl)
  fire-poller_of h i (some r) live e c =
      let g : Hook S K = record h { pending = remove_timer i h.pending } in
      let kept : IsConstant g = record {
        id = c.id;
        current = c.current;
        pending = remove_timer-All _ i h.pending c.pending;
        requests = c.requests;
      } in
      let of_first : r ≡ first_run k =
        find_run-All (λ r. r ≡ first_run k) i h.pending r c.pending e in
      let (d, asked) = fetch-poller_of g live kept in
      let (f, set) = schedule-poller_of (fetch spec k g) d in
      rw of_first (
        f,
        set
            ∙ ap (Poller.schedule spec.base p) asked
            ∙ rw (waits-map i h.pending, e, remove-map i h.pending) refl,
      )

  refresh-poller_of :
      (h : Hook S K) (id : K)
      → id ≡ k
      → spec.skip k ≡ false
      → IsConstant h
      → IsConstant (fetch spec id h)
        × (poller_of (fetch spec id h) ≡ Poller.fetch spec.base (poller_of h))
  refresh-poller_of h id e live c = rw e (fetch-poller_of h live c)

  step-poller_of :
      (h : Hook S K) (e : Poller.Event A)
      → spec.skip k ≡ false
      → is_unmount e ≡ false
      → IsConstant h
      → IsConstant (step spec p h (keyed e))
        × (poller_of (step spec p h (keyed e)) ≡ Poller.step spec.base p (poller_of h) e)
  unfolding step Poller.step
  step-poller_of h (Poller.Event.fires i) live ne c = fire-poller_of h i _ live refl c
  step-poller_of h (Poller.Event.settles r) live ne c = settle-poller_of h h.requests r c
  step-poller_of h Poller.Event.interval_changed live ne c = ground (arith, schedule-poller_of h c)
  step-poller_of h Poller.Event.refresh live ne c = refresh-poller_of h h.id c.id live c
  step-poller_of h Poller.Event.unmount live ne c = cc

  step-current :
      (h : Hook S K) (e : Poller.Event A)
      → is_unmount e ≡ false
      → (step spec p h (keyed e)).current ≡ h.current
  unfolding step
  step-current h (Poller.Event.fires i) ne = fire-current (find_run i h.pending)
    where
      fire-current : (o : Option (Run K)) → (fire spec p i h o).current ≡ h.current
      fire-current none = refl
      fire-current (some r) = ground arith
  step-current h (Poller.Event.settles r) ne = settle-current (get_elem? h.requests 0)
    where
      settle-current : (o : Option (Request K)) → (settle spec 0 r h o).current ≡ h.current
      settle-current none = refl
      settle-current (some q) = refl
  step-current h Poller.Event.interval_changed ne = ground arith
  step-current h Poller.Event.refresh ne = ground arith
  step-current h Poller.Event.unmount ne = cc

  run-poller_of :
      (h : Hook S K) (es : List (Poller.Event A))
      → spec.skip k ≡ false
      → All (λ e. is_unmount e ≡ false) es
      → IsConstant h
      → IsConstant (run spec p h (map keyed es))
        × ((run spec p h (map keyed es)).current ≡ h.current)
        × (poller_of (run spec p h (map keyed es)) ≡ Poller.run spec.base p (poller_of h) es)
  unfolding run Poller.run
  run-poller_of h [] live ne c = (c, refl, refl)
  run-poller_of h (e ∷ es) live ne c =
      let (d, stepped) = step-poller_of h e live ne.0 c in
      let (f, same, ran) = run-poller_of (step spec p h (keyed e)) es live ne.1 d in
      (
        f,
        same ∙ step-current h e ne.0,
        ran ∙ ap (λ (g : Poller.Hook S). Poller.run spec.base p g es) stepped,
      )

  mount-poller_of :
      (v : S)
      → spec.skip k ≡ false
      → IsConstant (mount spec p k v)
        × ((mount spec p k v).current ≡ some (first_run k))
        × (poller_of (mount spec p k v) ≡ Poller.mount spec.base p (spec.set_up v))
  unfolding mount Poller.mount
  mount-poller_of v live = rw live (
    record { id = refl; current = inr refl; pending = (refl, tt); requests = (refl, tt) },
    refl,
    refl,
  )

  clear-map :
      (o : Option ℕ) (n : ℕ) (ws : List (Waiting K))
      → Timers.clear_timeout o (record { next = n; pending = map (λ w. w.timer) ws })
        ≡ record { next = n; pending = map (λ w. w.timer) (clear_timeout o ws) }
  clear-map none n ws = refl
  clear-map (some i) n ws = rw (remove-map i ws) refl

  unmount-poller_of :
      (h : Hook S K)
      → h.current ≡ some (first_run k)
      → IsConstant h
      → IsConstant (step spec p h unmount)
        × (poller_of (step spec p h unmount)
            ≡ Poller.step spec.base p (poller_of h) Poller.Event.unmount)
  unfolding step Poller.step
  unmount-poller_of h e c = rw e (
    record {
      id = c.id;
      current = inl refl;
      pending = clear_timeout-All _ h.timeout h.pending c.pending;
      requests = c.requests;
    },
    ap
        (λ (t : Timers.Timers). record (poller_of h) {
          active = false;
          timers = t;
          subscribed = false;
        })
        (sym (clear-map h.timeout h.next h.pending)),
  )

  -- If the identifier asks for the effect and never changes, the hook runs as the shared effect of
  -- Poller does: through every sequence of its events to the unmount, whatever the answers are, and
  -- through every sequence after it.
  pub run-mount-poller_of :
      (v : S) (es later : List (Poller.Event A))
      → spec.skip k ≡ false
      → All (λ e. is_unmount e ≡ false) es
      → All (λ e. is_unmount e ≡ false) later
      → let h = run spec p (mount spec p k v) (map keyed es) in
        let g = Poller.run spec.base p (Poller.mount spec.base p (spec.set_up v)) es in
        (poller_of h ≡ g)
        × (poller_of (run spec p (step spec p h unmount) (map keyed later))
            ≡ Poller.run spec.base p (Poller.step spec.base p g Poller.Event.unmount) later)
  run-mount-poller_of v es later live ne nl =
      let (c, on, mounted) = mount-poller_of v live in
      let h = run spec p (mount spec p k v) (map keyed es) in
      let (d, same, ran) = run-poller_of (mount spec p k v) es live ne c in
      let whole = ran ∙ ap (λ (x : Poller.Hook S). Poller.run spec.base p x es) mounted in
      let (f, left) = unmount-poller_of h (same ∙ on) d in
      let (_, _, after) = run-poller_of (step spec p h unmount) later live nl f in
      (
        whole,
        after
            ∙ ap (λ (x : Poller.Hook S). Poller.run spec.base p x later)
                (left
                  ∙ ap (λ (x : Poller.Hook S). Poller.step spec.base p x Poller.Event.unmount)
                      whole),
      )
