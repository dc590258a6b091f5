-- ===== src/Hooks/Keyed/Change.antt =====
-- What a change of the identifier leaves behind.
use trokk.Prelude.{
  suc, ◌+◌, ◌≤◌, ◌<◌, ◌≡◌, refl, subst, sym, ap, ◌∙◌, Bool, true, false, List, [], ◌∷◌, Option,
  none, some, length, length-map, map, if◌then◌else◌, All, arith, Bool-cases, inl, inr,
}
use trokk.Polling
use trokk.Hooks.Poller
use trokk.Hooks.Poller.Leaks.{is_unmount, changes, run-mount-timers}
use trokk.Hooks.Keyed.{
  Run, Waiting, Request, Hook, Event, renders, unmount, Spec, fetch, schedule, set_up_run, clean_up,
  end_run, mount, step, run,
}
use trokk.Hooks.Keyed.Waits.{clear_timeout-All}
use trokk.Hooks.Keyed.Constant.{keyed, run-mount-poller_of}
use trokk.Hooks.Keyed.Strays.{
  IsOwn, IsOfCurrent, IsCurrent, is_calm, strays, stray_answers, others, left_behind, fetch-strays,
  schedule-strays, own_none, run-strays,
}

module _ {S A K : Type 0} (spec : Spec S A K) where
  abbrev IsOver : Hook S K → Type 0
  IsOver h = (h.current ≡ none) × All (λ w. w.run.number < h.runs) h.pending

  numbers :
      (h : Hook S K) (ws : List (Waiting K))
      → All (λ w. IsOfCurrent spec h w.run) ws
      → All (λ w. w.run.number < h.runs) ws
  numbers h [] a = tt
  numbers h (w ∷ ws) a = (a.0.1, numbers h ws a.1)

  end_run-IsOver :
      (h : Hook S K) (o : Option (Run K)) (id : K)
      → h.current ≡ o
      → IsOwn spec h
      → IsOver (record (end_run spec h o) { id = id }) × ((end_run spec h o).requests ≡ h.requests)
  end_run-IsOver h none id e o = ((e, numbers h h.pending o.timers), refl)
  end_run-IsOver h (some r) id e o =
      ((refl, clear_timeout-All _ h.timeout h.pending (numbers h h.pending o.timers)), refl)

  left_behind-le : (o : Option (Run K)) (ws : List (Waiting K)) → left_behind o ws ≤ length ws
  left_behind-le o [] = omega arith
  left_behind-le o (w ∷ ws) = ground (arith, left_behind-le o ws)

  others-le : (id : K) (qs : List (Request K)) → others spec id qs ≤ length qs
  others-le id [] = omega arith
  others-le id (q ∷ qs) = ground (arith, others-le id qs)

  module _ (reflexive : (k : K) → spec.same k k ≡ true) (p : Polling.Store) where
    -- The hook with a new run, before it asks.
    abbrev started : Hook S K → Hook S K
    started h = record h {
      view = spec.set_up h.view;
      runs = suc h.runs;
      current = some (record { number = h.runs; of = h.id });
      timeout = none;
    }

    older :
        (h : Hook S K) (ws : List (Waiting K))
        → All (λ w. w.run.number < h.runs) ws
        → All (λ w. IsOfCurrent spec (started h) w.run) ws
    older h [] a = tt
    older h (w ∷ ws) a = ((λ e. absurd (ground arith), ground arith), older h ws a.1)

    without_run :
        (h : Hook S K) (ws : List (Waiting K))
        → h.current ≡ none
        → All (λ w. w.run.number < h.runs) ws
        → All (λ w. IsOfCurrent spec h w.run) ws
    without_run h [] e a = tt
    without_run h (w ∷ ws) e a = ((λ t. absurd (ground arith), a.0), without_run h ws e a.1)

    Small : Hook S K → Hook S K → Type 0
    Small h g = IsOwn spec g × (strays spec g ≤ length h.requests + length h.pending)

    new_run : Hook S K → Run K
    new_run h = record { number = h.runs; of = h.id }

    running-strays :
        (h : Hook S K)
        → IsOver h
        → Small h (schedule spec p (new_run h) (fetch spec h.id (started h)))
    unfolding Small new_run
    running-strays h over =
        let now = reflexive h.id in
        let own : IsOwn spec (started h) = record {
          current = (now, ground arith);
          timers = older h h.pending over.1;
        } in
        let (d, asked, keeps) = fetch-strays spec h.id (started h) own in
        let (f, set) =
          schedule-strays spec p (new_run h) (fetch spec h.id (started h))
            (keeps (new_run h) ((λ _. now), ground arith)) d in
        (
          f,
          omega (
            arith,
            asked,
            set,
            own_none spec reflexive p h.id,
            left_behind-le (started h).current h.pending,
            others-le h.id h.requests,
          ),
        )

    set_up_run-strays : (h : Hook S K) → IsOver h → Small h (set_up_run spec p h)
    unfolding Small new_run
    set_up_run-strays h over = elim (Bool-cases (spec.skip h.id)) [
      | inl e ↦ rw e (
        record {
          current = subst (IsCurrent spec h) (sym over.0) tt;
          timers = without_run h h.pending over.0 over.1;
        },
        omega (arith, left_behind-le h.current h.pending, others-le h.id h.requests),
      )
      | inr e ↦ subst (Small h) (sym (asks e)) (running-strays h over)
    ]
      where
        asks :
            spec.skip h.id ≡ false
            → set_up_run spec p h ≡ schedule spec p (new_run h) (fetch spec h.id (started h))
        asks e = rw e refl

    either :
        (P : Hook S K → Type 0) (b : Bool) (g h : Hook S K) → P g → P h → P (if b then g else h)
    either P true g h x y = x
    either P false g h x y = y

    -- A render with another identifier leaves what was under way, and the timers but one.
    renders-strays :
        (h : Hook S K) (k : K)
        → IsOwn spec h
        → IsOwn spec (step spec p h (renders k))
          × (strays spec (step spec p h (renders k))
              ≤ strays spec h + length h.requests + length (step spec p h unmount).pending)
    unfolding step Small
    renders-strays h k o =
        let P : Hook S K → Type 0 = λ g.
          IsOwn spec g
          × (strays spec g
              ≤ strays spec h + length h.requests + length (clean_up spec h).pending) in
        let g : Hook S K = record (clean_up spec h) { id = k } in
        let (over, kept) = end_run-IsOver h h.current k refl o in
        let (f, n) = set_up_run-strays g over in
        let same : P h = (o, omega arith) in
        let other : P (set_up_run spec p g) = (f, omega (arith, n, ap length kept)) in
        either P h.mounted _ h (either P (spec.same k h.id) h _ same other) same

    calm :
        (es : List (Poller.Event A))
        → All (λ e. is_unmount e ≡ false) es
        → All (λ e. is_calm {K = K} e ≡ true) (map keyed es)
    calm [] ne = tt
    calm (e ∷ es) ne = (one e ne.0, calm es ne.1)
      where
        one : (e : Poller.Event A) → is_unmount e ≡ false → is_calm {K = K} (keyed e) ≡ true
        one (Poller.Event.fires i) h = refl
        one (Poller.Event.settles r) h = refl
        one Poller.Event.interval_changed h = refl
        one Poller.Event.refresh h = refl
        one Poller.Event.unmount h = cc

    mount-strays :
        (k : K) (v : S) → IsOwn spec (mount spec p k v) × (strays spec (mount spec p k v) ≤ 0)
    unfolding mount Small
    mount-strays k v = set_up_run-strays _ (refl, tt)

    timers_left :
        (k : K) (v : S) (es : List (Poller.Event A))
        → spec.skip k ≡ false
        → All (λ e. is_unmount e ≡ false) es
        → length (step spec p (run spec p (mount spec p k v) (map keyed es)) unmount).pending
          ≡ changes es
    unfolding run Poller.run
    timers_left k v es live ne =
        let (_, left) = run-mount-poller_of spec p k v es [] live ne tt in
        let (_, count) = run-mount-timers spec.base p (spec.set_up v) es ne in
        sym (length-map (λ (w : Waiting K). w.timer) _)
        ∙ ap (λ (g : Poller.Hook S). length g.timers.pending) left
        ∙ count

    -- After any time with one identifier, let another one come. From then on, until the next change or
    -- the unmount, the answers for an identifier that is not the hook's, together with what can still
    -- bring one, are at most one for each request that was under way at the change, and one for each
    -- change of a polling interval before it. So there is none if nothing was under way and no
    -- interval was changed.
    pub stray_answers-renders :
        (k new : K) (v : S) (es : List (Poller.Event A)) (later : List (Event A K))
        → spec.skip k ≡ false
        → All (λ e. is_unmount e ≡ false) es
        → All (λ e. is_calm e ≡ true) later
        → let h = run spec p (mount spec p k v) (map keyed es) in
          let g = step spec p h (renders new) in
          stray_answers spec p g later + strays spec (run spec p g later)
          ≤ length h.requests + changes es
    stray_answers-renders k new v es later live ne quiet =
        let h = run spec p (mount spec p k v) (map keyed es) in
        let (first, none_yet) = mount-strays k v in
        let (own, before) =
          run-strays spec reflexive p (mount spec p k v) (map keyed es) (calm es ne) first in
        let (own', at_change) = renders-strays h new own in
        let (_, after) =
          run-strays spec reflexive p (step spec p h (renders new)) later quiet own' in
        omega (arith, none_yet, before, at_change, after, timers_left k v es live ne)
