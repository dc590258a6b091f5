-- ===== src/Hooks/Actions.antt =====
-- The hooks that act: what becomes of the error that they show.
use trokk.Prelude.{◌≡◌, refl, Bool, false, List, [], ◌∷◌, Option, none, some, ℕ}
use trokk.Text.{Str}
use trokk.Types.{Agent}
use trokk.Hooks.{Settled, resolved, rejected}
use trokk.Hooks.Views.{Action, create, update, trigger_tick, pause_all, resume_all}

-- A button of the control room, with what its request settles to.
pub data Press : Type 0 where
  ticks : Settled (Bool × Str) → Press
  pauses : Settled ℕ → Press
  resumes : Settled ℕ → Press

unfoldable pub press : Press → Action → Action
unfolding trigger_tick pause_all resume_all
press (ticks r) v = (trigger_tick r v).1
press (pauses r) v = (pause_all r v).1
press (resumes r) v = (resume_all r v).1

unfoldable pub press_all : List Press → Action → Action
press_all [] v = v
press_all (b ∷ bs) v = press_all bs (press b v)

-- The text of the last press that was rejected, or else `old`.
abbrev pub last_error : Option Str → List Press → Option Str
last_error old [] = old
last_error old (ticks (rejected text) ∷ bs) = last_error (some text) bs
last_error old (pauses (rejected text) ∷ bs) = last_error (some text) bs
last_error old (resumes (rejected text) ∷ bs) = last_error (some text) bs
last_error old (ticks (resolved a) ∷ bs) = last_error old bs
last_error old (pauses (resolved a) ∷ bs) = last_error old bs
last_error old (resumes (resolved a) ∷ bs) = last_error old bs

-- The error that a request leaves, with no regard to the one before it.
abbrev pub own_error {ℓ} : {A : Type ℓ} → Settled A → Option Str
own_error (resolved a) = none
own_error (rejected text) = some text

press_all-error : (bs : List Press) (v : Action) → (press_all bs v).error ≡ last_error v.error bs
unfolding press_all press
press_all-error [] v = refl
press_all-error (ticks (resolved a) ∷ bs) v = press_all-error bs _
press_all-error (ticks (rejected text) ∷ bs) v = press_all-error bs _
press_all-error (pauses (resolved a) ∷ bs) v = press_all-error bs _
press_all-error (pauses (rejected text) ∷ bs) v = press_all-error bs _
press_all-error (resumes (resolved a) ∷ bs) v = press_all-error bs _
press_all-error (resumes (rejected text) ∷ bs) v = press_all-error bs _

press-loading : (b : Press) (v : Action) → (press b v).loading ≡ false
unfolding press
press-loading (ticks (resolved a)) v = refl
press-loading (ticks (rejected text)) v = refl
press-loading (pauses (resolved a)) v = refl
press-loading (pauses (rejected text)) v = refl
press-loading (resumes (resolved a)) v = refl
press-loading (resumes (rejected text)) v = refl

press_all-loading :
    (bs : List Press) (v : Action) → v.loading ≡ false → (press_all bs v).loading ≡ false
unfolding press_all
press_all-loading [] v h = h
press_all-loading (b ∷ bs) v h = press_all-loading bs (press b v) (press-loading b v)

own_error-save :
    (r : Settled Agent) (v : Action)
    → ((create r v).1 ≡ record { loading = false; error = own_error r })
      × ((update r v).1 ≡ record { loading = false; error = own_error r })
unfolding create update
own_error-save (resolved a) v = (refl, refl)
own_error-save (rejected text) v = (refl, refl)

-- From a control room that is not loading, after any presses it is not loading, and the error shown
-- is that of the last press that was rejected, whatever succeeded since; the hooks that create and
-- update are not left loading either, and show the error of their last request, or none.
press_all-last_error :
    (bs : List Press) (v : Action) (r : Settled Agent)
    → v.loading ≡ false
    → ((press_all bs v).loading ≡ false)
      × ((press_all bs v).error ≡ last_error v.error bs)
      × ((create r v).1 ≡ record { loading = false; error = own_error r })
      × ((update r v).1 ≡ record { loading = false; error = own_error r })
press_all-last_error bs v r h =
    (press_all-loading bs v h, press_all-error bs v, (own_error-save r v).0, (own_error-save r v).1)
