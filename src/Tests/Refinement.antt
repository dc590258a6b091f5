-- ===== src/Tests/Refinement.antt =====
-- A sequence of calls, and the directory.
use trokk.Prelude.{◌≡◌, refl, List, [], ◌∷◌, All}
use trokk.Text.{str}
use trokk.Mock.Invariant.{IsValid}
use trokk.Client.{Env}
use trokk.Service.Laws.{IsMock}
use trokk.Service.Directory.{Command, creates, updates, endorses, pauses, directory}
use trokk.Service.Refinement.{IsCarried, calls, doings, directory-calls}
use trokk.Tests.Data.{store, store-IsValid, env, env-IsMock, new_form, rename}

abbrev commands : List (Env × Command)
commands =
    (env, creates new_form)
    ∷ (env, updates (str "a3") rename)
    ∷ (env, endorses (str "msg-001"))
    ∷ (env, pauses)
    ∷ []

commands-AreCalls : All (λ p. IsMock p.0 × IsCarried p.1) commands
commands-AreCalls = (
  (env-IsMock, tt),
  ((env-IsMock, (refl, refl)), ((env-IsMock, (refl, refl)), ((env-IsMock, tt), tt))),
)

directory-calls_example :
    IsValid (calls commands store)
    × (directory (calls commands store) ≡ doings commands (directory store))
directory-calls_example = directory-calls commands store commands-AreCalls store-IsValid
