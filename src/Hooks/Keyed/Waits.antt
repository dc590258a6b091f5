-- ===== src/Hooks/Keyed/Waits.antt =====
-- The waiting timers of a hook with an identifier: what holds of all of them.
use trokk.Prelude.{
  ℕ, ◌≡◌, subst, inl, inr, List, [], ◌∷◌, Option, none, some, ◌==◌, All, Bool-cases,
}
use trokk.Hooks.Keyed.{Run, Waiting, find_run, remove_timer, clear_timeout}

module _ {K : Type 0} where
  pub remove_timer-All :
      (P : Waiting K → Type 0) (i : ℕ) (ws : List (Waiting K))
      → All P ws
      → All P (remove_timer i ws)
  remove_timer-All P i [] h = tt
  remove_timer-All P i (w ∷ ws) h = elim (Bool-cases (w.timer.id == i)) [
    | inl e ↦ rw e h.1
    | inr e ↦ rw e (h.0, remove_timer-All P i ws h.1)
  ]

  pub find_run-All :
      (P : Run K → Type 0) (i : ℕ) (ws : List (Waiting K)) (r : Run K)
      → All (λ w. P w.run) ws
      → find_run i ws ≡ some r
      → P r
  find_run-All P i [] r h e = cc
  find_run-All P i (w ∷ ws) r h e = elim (Bool-cases (w.timer.id == i)) [
    | inl t ↦ subst P (found (rw t at e)) h.0
    | inr t ↦ find_run-All P i ws r h.1 (rw t at e)
  ]
    where
      found : some w.run ≡ some r → w.run ≡ r
      found q = cc

  pub clear_timeout-All :
      (P : Waiting K → Type 0) (o : Option ℕ) (ws : List (Waiting K))
      → All P ws
      → All P (clear_timeout o ws)
  clear_timeout-All P none ws h = h
  clear_timeout-All P (some i) ws h = remove_timer-All P i ws h
