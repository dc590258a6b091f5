-- ===== src/Hooks.antt =====
-- ferr/src/lib/api/hooks.ts: the state of each hook, its handlers, and the events that drive them.
-- A handler runs to its end between two events; an event is a timer that fires, a promise that
-- settles, a call of the interval's listener, or the unmount.
pub mod Timers
pub mod Health
pub mod Poller
pub mod Views
pub mod Loading
pub mod Stats
pub mod Actions
pub mod Paging
pub mod Interval
pub mod Keyed
use trokk.Prelude.{Bool, true, false, Option, none, some}
use trokk.Text.{Str, str}
use trokk.Http.{Failure, api_error, type_error}

-- A promise that settled: its value, or the `message` of what it threw.
pub data Settled {ℓ} (A : Type ℓ) : Type ℓ where
  resolved : A → Settled A
  rejected : Str → Settled A

-- `e.message`
abbrev pub message_of : Failure → Str
message_of (api_error text status) = text
message_of type_error = str "Cannot read properties of undefined"

-- The three `useState` cells of a hook that loads one thing.
pub record View {ℓ} (A : Type ℓ) : Type ℓ where
  pub value : A
  pub loading : Bool
  pub error : Option Str

-- `.then(data => { set(data); setError(null) }).catch(e => setError(e.message))`
abbrev pub receive {ℓ} : {A : Type ℓ} → Settled A → View A → View A
receive (resolved a) v = record v { value = a; error = none }
receive (rejected text) v = record v { error = some text }

-- … and `.finally(() => setLoading(false))`
abbrev pub settle {ℓ} : {A : Type ℓ} → Settled A → View A → View A
settle r v = record (receive r v) { loading = false }
