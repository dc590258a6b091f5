-- ===== src/Mock/Paths.antt =====
-- ferr/src/lib/api/mock.ts: the regular expressions of the routes. Each has one capture, `(.+)`: one
-- or more units, none of which ends a line.
use trokk.Prelude.{
  ℕ, ◌≤◌, ◌≡◌, refl, sym, ◌∙◌, ◌⊎◌, Bool, true, false, ◌&&◌, ◌||◌, not, [], ◌∷◌, ◌++◌, Option, none,
  some, ◌==◌, if◌then◌else◌, arith, ap, length, length-append, Bool-cases, inl, inr,
}
use trokk.Text.{Str, str_eq, str_eq_iff, str_eq_refl, truthy}

-- The units that `.` does not match.
abbrev pub ends_line : ℕ → Bool
ends_line c = c == 10 || c == 13 || c == 0x2028 || c == 0x2029

abbrev pub one_line : Str → Bool
one_line [] = true
one_line (c ∷ s) = not (ends_line c) && one_line s

-- `(.+)` against the whole of `s`
abbrev pub captured : Str → Option Str
captured s = if truthy s && one_line s then some s else none

abbrev pub strip_prefix : Str → Str → Option Str
strip_prefix [] s = some s
strip_prefix (a ∷ p) [] = none
strip_prefix (a ∷ p) (b ∷ s) = if a == b then strip_prefix p s else none

abbrev pub cons_some : ℕ → Option Str → Option Str
cons_some c none = none
cons_some c (some s) = some (c ∷ s)

unfoldable pub strip_suffix : Str → Str → Option Str
strip_suffix p [] = if str_eq [] p then some [] else none
strip_suffix p (c ∷ s) = if str_eq (c ∷ s) p then some [] else cons_some c (strip_suffix p s)

abbrev then_captured : Option Str → Option Str
then_captured none = none
then_captured (some s) = captured s

-- `path.match(/^PREFIX(.+)$/)`
unfoldable pub match_rest : Str → Str → Option Str
match_rest p path = then_captured (strip_prefix p path)

abbrev then_strip : Str → Option Str → Option Str
then_strip p none = none
then_strip p (some s) = then_captured (strip_suffix p s)

-- `path.match(/^PREFIX(.+)SUFFIX$/)`
unfoldable pub match_between : Str → Str → Str → Option Str
unfolding strip_suffix
match_between p q path = then_strip q (strip_prefix p path)

-- An identifier that a path can carry.
abbrev pub IsSegment : Str → Type 0
IsSegment id = (truthy id ≡ true) × (one_line id ≡ true)

pub strip_prefix-append : (p s : Str) → strip_prefix p (p ++ s) ≡ some s
strip_prefix-append [] s = refl
strip_prefix-append (a ∷ p) s = ground (arith, strip_prefix-append p s)

longer : (c : ℕ) (s p : Str) → str_eq (c ∷ s ++ p) p ≡ false
longer c s p = elim (Bool-cases (str_eq (c ∷ s ++ p) p)) [
  | inl same ↦ absurd (too_long ((str_eq_iff _ _).0 same))
  | inr other ↦ other
]
  where
    too_long : c ∷ s ++ p ≡ p → ⊥
    too_long e = omega (arith, ap length e, length-append {0} s p)

strip_suffix_self : (p : Str) → strip_suffix p p ≡ some []
unfolding strip_suffix
strip_suffix_self [] = refl
strip_suffix_self (c ∷ p) = ground (arith, str_eq_refl (c ∷ p))

strip_suffix-append : (p s : Str) → strip_suffix p (s ++ p) ≡ some s
unfolding strip_suffix
strip_suffix-append p [] = strip_suffix_self p
strip_suffix-append p (c ∷ s) = ground (arith, longer c s p, strip_suffix-append p s)

pub match_rest-append : (p id : Str) → IsSegment id → match_rest p (p ++ id) ≡ some id
unfolding match_rest
match_rest-append p id h = ground (arith, strip_prefix-append p id)

pub match_between-append :
    (p q id : Str) → IsSegment id → match_between p q (p ++ (id ++ q)) ≡ some id
unfolding match_between
match_between-append p q id h =
    ground (arith, strip_prefix-append p (id ++ q), strip_suffix-append q id)

-- No identifier in front of `q` hides that `q` does not end in `p`.
pub strip_suffix-other :
    (p q s : Str) → length p ≤ length q → strip_suffix p q ≡ none → strip_suffix p (s ++ q) ≡ none
unfolding strip_suffix
strip_suffix-other p q [] h e = e
strip_suffix-other p q (c ∷ s) h e = elim (Bool-cases (str_eq (c ∷ s ++ q) p)) [
  | inl same ↦ absurd (too_long ((str_eq_iff _ _).0 same))
  | inr other ↦ rw (other, strip_suffix-other p q s h e)
]
  where
    too_long : c ∷ s ++ q ≡ p → ⊥
    too_long same = omega (arith, ap length same, length-append {0} s q)

captured_sound : (s : Str) {id : Str} → captured s ≡ some id → s ≡ id
captured_sound s {id} h = ground arith

strip_prefix_sound : (p s : Str) {t : Str} → strip_prefix p s ≡ some t → s ≡ p ++ t
strip_prefix_sound [] s {t} h = cc
strip_prefix_sound (a ∷ p) [] {t} h = cc
strip_prefix_sound (a ∷ p) (b ∷ s) {t} h = ground (arith, strip_prefix_sound p s {t = t})

cons_some_sound :
    (c : ℕ) (o : Option Str) {t : Str}
    → cons_some c o ≡ some t
    → (u : Str) × (o ≡ some u) × (t ≡ c ∷ u)
cons_some_sound c none {t} h = cc
cons_some_sound c (some u) {t} h = (u, refl, cc)

if_some {ℓ} :
    {A : Type ℓ} (b : Bool) (x : A) (o : Option A) {t : A}
    → (if b then some x else o) ≡ some t
    → ((b ≡ true) × (x ≡ t)) ⊎ (o ≡ some t)
if_some true x o {t} h = inl (refl, cc)
if_some false x o {t} h = inr h

strip_suffix_sound : (p s : Str) {t : Str} → strip_suffix p s ≡ some t → s ≡ t ++ p
unfolding strip_suffix
strip_suffix_sound p [] {t} h = elim (if_some (str_eq [] p) [] none h) [
  | inl (same, e) ↦ (str_eq_iff [] p).0 same ∙ ap (λ u. u ++ p) e
  | inr e ↦ cc
]
strip_suffix_sound p (c ∷ s) {t} h =
    elim (if_some (str_eq (c ∷ s) p) [] (cons_some c (strip_suffix p s)) h) [
      | inl (same, e) ↦ (str_eq_iff (c ∷ s) p).0 same ∙ ap (λ u. u ++ p) e
      | inr e ↦
          let (u, f, g) = cons_some_sound c (strip_suffix p s) e in
          ap (◌∷◌ c) (strip_suffix_sound p s f) ∙ ap (λ v. v ++ p) (sym g)
    ]

pub match_rest_sound : (p path : Str) {id : Str} → match_rest p path ≡ some id → path ≡ p ++ id
unfolding match_rest
match_rest_sound p path {id} h = rest (strip_prefix p path) refl h
  where
    rest : (o : Option Str) → strip_prefix p path ≡ o → then_captured o ≡ some id → path ≡ p ++ id
    rest none e f = cc
    rest (some s) e f = strip_prefix_sound p path e ∙ ap (◌++◌ p) (captured_sound s f)

pub match_between_sound :
    (p q path : Str) {id : Str} → match_between p q path ≡ some id → path ≡ p ++ (id ++ q)
unfolding match_between
match_between_sound p q path {id} h = strip (strip_prefix p path) refl h
  where
    rest :
        (s : Str) (o : Option Str) → strip_suffix q s ≡ o → then_captured o ≡ some id → s ≡ id ++ q
    rest s none e f = cc
    rest s (some t) e f = strip_suffix_sound q s e ∙ ap (λ u. u ++ q) (captured_sound t f)

    strip :
        (o : Option Str)
        → strip_prefix p path ≡ o
        → then_strip q o ≡ some id
        → path ≡ p ++ (id ++ q)
    strip none e f = cc
    strip (some s) e f =
        strip_prefix_sound p path e ∙ ap (◌++◌ p) (rest s (strip_suffix q s) refl f)
