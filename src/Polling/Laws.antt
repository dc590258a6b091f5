-- ===== src/Polling/Laws.antt =====
-- What a client of ferr/src/lib/polling.ts relies on.
use trokk.Prelude.{
  ℕ, ◌≤◌, ◌≡◌, ◌≢◌, refl, Bool, false, List, [], ◌∷◌, ◌++◌, arith, max, filter, not, ◌==◌,
}
use trokk.Polling.{
  Key, Store, Intervals, init, get_polling_interval, set_polling_interval, subscribe, unsubscribe,
  member,
}

-- Every interval is at least a second.
pub record IsPaced (i : Intervals) : Type 0 where
  pub stream : 1000 ≤ i.stream
  pub health : 1000 ≤ i.health
  pub agents : 1000 ≤ i.agents

-- No listener stands in the set twice.
abbrev pub IsDistinct : List ℕ → Type 0
IsDistinct [] = Unit
IsDistinct (fn ∷ fns) = (member fn fns ≡ false) × IsDistinct fns

pub record IsValid (s : Store) : Type 0 where
  pub paced : IsPaced s.intervals
  pub distinct : IsDistinct s.listeners

-- A call of the module's interface.
pub data Call : Type 0 where
  set : Key → ℕ → Call
  add : ℕ → Call
  remove : ℕ → Call

unfoldable pub step : Store → Call → Store
step s (set key ms) = (set_polling_interval s key ms).0
step s (add fn) = subscribe s fn
step s (remove fn) = unsubscribe s fn

unfoldable pub run : Store → List Call → Store
unfolding step
run s [] = s
run s (c ∷ cs) = run (step s c) cs

member-concat :
    (fn g : ℕ) (fns : List ℕ)
    → member fn fns ≡ false
    → (g == fn) ≡ false
    → member fn (fns ++ g ∷ []) ≡ false
unfolding member
member-concat fn g [] h k = ground arith
member-concat fn g (f ∷ fns) h k = ground (arith, member-concat fn g fns)

IsDistinct-concat :
    (g : ℕ) (fns : List ℕ) → IsDistinct fns → member g fns ≡ false → IsDistinct (fns ++ g ∷ [])
unfolding member
IsDistinct-concat g [] d h = (refl, tt)
IsDistinct-concat g (f ∷ fns) d h =
    ground (arith, IsDistinct-concat g fns d.1, member-concat f g fns d.0)

member-filter :
    (p : ℕ → Bool) (fn : ℕ) (fns : List ℕ)
    → member fn fns ≡ false
    → member fn (filter p fns) ≡ false
unfolding member
member-filter p fn [] h = refl
member-filter p fn (f ∷ fns) h = ground (arith, member-filter p fn fns)

IsDistinct-filter : (p : ℕ → Bool) (fns : List ℕ) → IsDistinct fns → IsDistinct (filter p fns)
IsDistinct-filter p [] d = tt
IsDistinct-filter p (f ∷ fns) d =
    ground (arith, IsDistinct-filter p fns d.1, member-filter p f fns d.0)

set_polling_interval-IsPaced :
    (s : Store) (key : Key) (ms : ℕ)
    → IsPaced s.intervals
    → IsPaced (set_polling_interval s key ms).0.intervals
unfolding set_polling_interval
set_polling_interval-IsPaced s Key.stream ms v = ground arith
set_polling_interval-IsPaced s Key.health ms v = ground arith
set_polling_interval-IsPaced s Key.agents ms v = ground arith

subscribe-IsDistinct :
    (s : Store) (fn : ℕ) → IsDistinct s.listeners → IsDistinct (subscribe s fn).listeners
unfolding subscribe
subscribe-IsDistinct s fn d = ground (arith, IsDistinct-concat fn s.listeners d)

step-IsValid : (s : Store) (c : Call) → IsValid s → IsValid (step s c)
unfolding step set_polling_interval subscribe unsubscribe
step-IsValid s (set key ms) v = record {
  paced = set_polling_interval-IsPaced s key ms v.paced;
  distinct = v.distinct;
}
step-IsValid s (add fn) v = record {
  paced = v.paced;
  distinct = subscribe-IsDistinct s fn v.distinct;
}
step-IsValid s (remove fn) v = record {
  paced = v.paced;
  distinct = IsDistinct-filter (λ g. not (g == fn)) s.listeners v.distinct;
}

run-IsValid : (s : Store) (cs : List Call) → IsValid s → IsValid (run s cs)
unfolding run
run-IsValid s [] v = v
run-IsValid s (c ∷ cs) v = run-IsValid (step s c) cs (step-IsValid s c v)

-- From the module's initial state, after any sequence of calls, every interval is at least a
-- second and no listener stands in the set twice.
pub run-init-IsValid : (cs : List Call) → IsValid (run init cs)
unfolding init
run-init-IsValid cs = run-IsValid init cs (record { paced = omega arith; distinct = tt })

-- A write of one interval is read back, raised to a second where it is shorter; any other interval
-- keeps its value; and exactly the listeners of the set are called.
get_polling_interval-set_polling_interval :
    (s : Store) (key other : Key) (ms : ℕ)
    → other ≢ key
    → (get_polling_interval (set_polling_interval s key ms).0 key ≡ max 1000 ms)
      × (get_polling_interval (set_polling_interval s key ms).0 other
          ≡ get_polling_interval s other)
      × ((set_polling_interval s key ms).1 ≡ s.listeners)
unfolding get_polling_interval set_polling_interval
get_polling_interval-set_polling_interval s Key.stream Key.stream ms h = absurd (h refl)
get_polling_interval-set_polling_interval s Key.health Key.health ms h = absurd (h refl)
get_polling_interval-set_polling_interval s Key.agents Key.agents ms h = absurd (h refl)
get_polling_interval-set_polling_interval s Key.stream _ ms h = (refl, refl, refl)
get_polling_interval-set_polling_interval s Key.health _ ms h = (refl, refl, refl)
get_polling_interval-set_polling_interval s Key.agents _ ms h = (refl, refl, refl)
