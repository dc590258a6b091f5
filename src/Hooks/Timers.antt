-- ===== src/Hooks/Timers.antt =====
-- `setTimeout` and `clearTimeout` of the engine: the timers that have not fired, newest first.
use trokk.Prelude.{
  ℕ, suc, ◌+◌, ◌≡◌, refl, Bool, false, ◌||◌, List, [], ◌∷◌, Option, none, some, ◌==◌, if◌then◌else◌,
  length, arith,
}

pub record Timer : Type 0 where
  pub id : ℕ
  pub delay : ℕ

pub record Timers : Type 0 where
  pub next : ℕ
  pub pending : List Timer

-- The new timer has the number `next`.
abbrev pub set_timeout : ℕ → Timers → Timers
set_timeout delay t = record {
  next = suc t.next;
  pending = record { id = t.next; delay = delay } ∷ t.pending;
}

unfoldable pub remove : ℕ → List Timer → List Timer
remove i [] = []
remove i (t ∷ ts) = if t.id == i then ts else t ∷ remove i ts

unfoldable pub waits : ℕ → List Timer → Bool
waits i [] = false
waits i (t ∷ ts) = t.id == i || waits i ts

-- `clearTimeout(timeout)`: nothing happens if the variable is not set or its timer has fired.
abbrev pub clear_timeout : Option ℕ → Timers → Timers
clear_timeout none t = t
clear_timeout (some i) t = record t { pending = remove i t.pending }

abbrev pub is_waiting : Option ℕ → Timers → Bool
is_waiting none t = false
is_waiting (some i) t = waits i t.pending

-- Removing a timer takes one away, if it is there.
pub length-remove :
    (i : ℕ) (ts : List Timer) → length (remove i ts) + (if waits i ts then 1 else 0) ≡ length ts
unfolding remove waits
length-remove i [] = refl
length-remove i (t ∷ ts) = ground (arith, length-remove i ts)

pub length-clear :
    (o : Option ℕ) (t : Timers)
    → length (clear_timeout o t).pending + (if is_waiting o t then 1 else 0) ≡ length t.pending
length-clear none t = omega arith
length-clear (some i) t = length-remove i t.pending
