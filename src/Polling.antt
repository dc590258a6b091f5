-- ===== src/Polling.antt =====
-- ferr/src/lib/polling.ts: the shared intervals and the set of listeners. A listener is known by
-- an identity, since a `Set` of functions compares references.
pub mod Laws
use trokk.Prelude.{
  ℕ, Bool, List, [], ◌∷◌, ◌++◌, max, ◌==◌, if◌then◌else◌, not, filter, ◌||◌, true, false,
}

pub data Key : Type 0 where
  stream health agents : Key

pub record Intervals : Type 0 where
  pub stream : ℕ
  pub health : ℕ
  pub agents : ℕ

pub record Store : Type 0 where
  pub intervals : Intervals
  pub listeners : List ℕ

unfoldable pub default : Intervals
default = record { stream = 5000; health = 10000; agents = 30000 }

unfoldable pub init : Store
unfolding default
init = record { intervals = default; listeners = [] }

abbrev read : Key → Intervals → ℕ
read stream i = i.stream
read health i = i.health
read agents i = i.agents

abbrev write : Key → ℕ → Intervals → Intervals
write stream ms i = record i { stream = ms }
write health ms i = record i { health = ms }
write agents ms i = record i { agents = ms }

unfoldable pub get_polling_interval : Store → Key → ℕ
get_polling_interval s key = read key s.intervals

-- The new store, and the listeners in the order in which they are called.
unfoldable pub set_polling_interval : Store → Key → ℕ → Store × List ℕ
set_polling_interval s key ms =
    (record s { intervals = write key (max 1000 ms) s.intervals }, s.listeners)

-- `Set.prototype.has`
pub member : ℕ → List ℕ → Bool
member fn [] = false
member fn (g ∷ gs) = (g == fn) || member fn gs

-- `Set.prototype.add` keeps the insertion order and adds nothing twice.
unfoldable pub subscribe : Store → ℕ → Store
unfolding member
subscribe s fn = record s {
  listeners = if member fn s.listeners then s.listeners else s.listeners ++ fn ∷ [];
}

-- The function that `subscribe` returns.
unfoldable pub unsubscribe : Store → ℕ → Store
unsubscribe s fn = record s { listeners = filter (λ g. not (g == fn)) s.listeners }

unfoldable pub use_polling_interval : Store → Key → ℕ
unfolding get_polling_interval
use_polling_interval s key = get_polling_interval s key
