-- ===== src/Pages/Sections.antt =====
-- Pages that show the skeletons, an error and their list each under its own test, over a hook that
-- loads one thing.
use trokk.Prelude.{◌≡◌, refl, Bool, true, false, ◌&&◌, not, List, ◌++◌, if◌then◌else◌}
use mathlib.Core.List.{append-nil}
use trokk.Ui.{Item, show_if, has_error}
use trokk.Hooks.{Settled, resolved, rejected, View, settle}

module _ {A : Type 0} where
  -- While a hook loads it has no error.
  abbrev pub IsExclusive : View A → Type 0
  IsExclusive v = (v.loading && has_error v.error) ≡ false

  pub settle-IsExclusive : (r : Settled A) (v : View A) → IsExclusive (settle r v)
  settle-IsExclusive (resolved a) v = refl
  settle-IsExclusive (rejected text) v = refl

-- Of three parts under tests of their own, exactly one is shown.
pub one_shown :
    (loading failed : Bool) (a b c : List Item)
    → (loading && failed) ≡ false
    → show_if loading a ++ show_if failed b ++ show_if (not loading && not failed) c
      ≡ (if loading then a else if failed then b else c)
one_shown true true a b c h = cc
one_shown true false a b c h = simp append-nil
one_shown false true a b c h = simp append-nil
one_shown false false a b c h = refl
