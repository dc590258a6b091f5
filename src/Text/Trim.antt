-- ===== src/Text/Trim.antt =====
-- `trim` twice is `trim` once.
use trokk.Prelude.{ℕ, ◌≡◌, refl, ap, ◌∙◌, false, [], ◌∷◌, ◌++◌, Bool-cases, inl, inr}
use mathlib.Core.List.{reverse, reverse-append, reverse-reverse}
use trokk.Text.{Str, is_space, trim_start, trim}

-- No white space at the start.
abbrev Starts : Str → Type 0
Starts [] = Unit
Starts (c ∷ s) = is_space c ≡ false

trim_start-Starts : (s : Str) → Starts (trim_start s)
unfolding trim_start
trim_start-Starts [] = tt
trim_start-Starts (c ∷ s) = elim (Bool-cases (is_space c)) [
  | inl e ↦ rw e (trim_start-Starts s)
  | inr e ↦ rw e e
]

trim_start_id : (s : Str) → Starts s → trim_start s ≡ s
unfolding trim_start
trim_start_id [] h = refl
trim_start_id (c ∷ s) h = rw h

trim_start-append :
    (s : Str) (c : ℕ) → is_space c ≡ false → trim_start (s ++ c ∷ []) ≡ trim_start s ++ c ∷ []
unfolding trim_start
trim_start-append [] c h = rw h
trim_start-append (d ∷ s) c h = elim (Bool-cases (is_space d)) [
  | inl e ↦ rw e (trim_start-append s c h)
  | inr e ↦ rw e
]

-- Trimming the end keeps the start.
trim_end-Starts : (s : Str) → Starts s → Starts (reverse (trim_start (reverse s)))
unfolding trim_start
trim_end-Starts [] h = tt
trim_end-Starts (c ∷ s) h =
    rw
      (
        reverse-append (c ∷ []) s,
        trim_start-append (reverse s) c h,
        reverse-append (trim_start (reverse s)) (c ∷ []),
      )
      h

pub trim-trim : (s : Str) → trim (trim s) ≡ trim s
unfolding trim
trim-trim s =
    let t = trim_start s in
    let v = trim_start (reverse t) in
    ap (λ x. reverse (trim_start (reverse x)))
      (trim_start_id (reverse v) (trim_end-Starts t (trim_start-Starts s)))
    ∙ ap (λ x. reverse (trim_start x)) (reverse-reverse v)
    ∙ ap reverse (trim_start_id v (trim_start-Starts (reverse t)))
