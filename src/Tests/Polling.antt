-- ===== src/Tests/Polling.antt =====
-- The shared intervals and the texts of times on concrete calls.
use trokk.Prelude.{List, [], ◌∷◌}
use trokk.Polling.{Key, init}
use trokk.Polling.Laws.{IsValid, Call, set, add, remove, run, run-init-IsValid}
use trokk.Pages.Ages.{IsAgeOf, age_of, age_of-IsAgeOf}

abbrev calls : List Call
calls = add 1 ∷ set Key.stream 200 ∷ add 1 ∷ add 2 ∷ remove 1 ∷ []

run-init-IsValid_example : IsValid (run init calls)
run-init-IsValid_example = run-init-IsValid calls

age_of-IsAgeOf_example : IsAgeOf 7200000 (age_of 7200000)
age_of-IsAgeOf_example = age_of-IsAgeOf 7200000
