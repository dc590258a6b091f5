-- ===== src/Sort.antt =====
-- `Array.prototype.sort` with a comparison of falling keys, and the ends of a list.
use trokk.Prelude.{
  ℕ, zero, suc, ◌-◌, ◌≤◌, ◌<◌, ◌≡◌, refl, ◌∙◌, ap, List, [], ◌∷◌, ◌++◌, Option, none, some, length,
  take, get_elem?, ltb, All, arith, if◌then◌else◌, Bool-cases, inl, inr,
}
use mathlib.Core.List.{Perm}
use mathlib.Core.List.Perm

-- A stable sort by falling key, as `sort((a, b) => key(b) - key(a))` is: equal keys keep their order.
module _ {ℓ} {A : Type ℓ} (key : A → ℕ) where
  pub insert_down : A → List A → List A
  insert_down x [] = x ∷ []
  insert_down x (y ∷ ys) = if ltb (key x) (key y) then y ∷ insert_down x ys else x ∷ y ∷ ys

  unfoldable pub sort_down : List A → List A
  unfolding insert_down
  sort_down [] = []
  sort_down (x ∷ xs) = insert_down x (sort_down xs)

module _ {ℓ} {A : Type ℓ} where
  abbrev pub drop : ℕ → List A → List A
  drop zero xs = xs
  drop (suc n) [] = []
  drop (suc n) (x ∷ xs) = drop n xs

  pub take-append-drop : (n : ℕ) (xs : List A) → take n xs ++ drop n xs ≡ xs
  take-append-drop zero xs = refl
  take-append-drop (suc n) [] = refl
  take-append-drop (suc n) (x ∷ xs) = ap (◌∷◌ x) (take-append-drop n xs)

  -- The last element.
  abbrev pub last? : List A → Option A
  last? [] = none
  last? (x ∷ []) = some x
  last? (x ∷ y ∷ ys) = last? (y ∷ ys)

  pub get_elem?-last? :
      (n : ℕ) (xs : List A) → n < length xs → get_elem? xs n ≡ last? (take (suc n) xs)
  get_elem?-last? n [] h = elim h [ ]
  get_elem?-last? zero (x ∷ xs) h = refl
  get_elem?-last? (suc n) (x ∷ []) h = absurd (omega arith)
  get_elem?-last? (suc n) (x ∷ y ∷ ys) h = get_elem?-last? n (y ∷ ys) (omega arith)

module _ {ℓ} {A : Type ℓ} (key : A → ℕ) where
  -- No element has a larger key than one before it.
  abbrev pub IsDown : List A → Type 0
  IsDown [] = Unit
  IsDown (x ∷ xs) = All (λ y. key y ≤ key x) xs × IsDown xs

  All-insert_down :
      (k : ℕ) (x : A) (ys : List A)
      → key x ≤ k
      → All (λ y. key y ≤ k) ys
      → All (λ y. key y ≤ k) (insert_down key x ys)
  unfolding insert_down
  All-insert_down k x [] h g = (h, tt)
  All-insert_down k x (y ∷ ys) h g = ground (arith, All-insert_down k x ys)

  All-le : (j k : ℕ) (ys : List A) → j ≤ k → All (λ y. key y ≤ j) ys → All (λ y. key y ≤ k) ys
  All-le j k [] h g = tt
  All-le j k (y ∷ ys) h g = (omega arith, All-le j k ys h g.1)

  insert_down-IsDown : (x : A) (ys : List A) → IsDown ys → IsDown (insert_down key x ys)
  unfolding insert_down
  insert_down-IsDown x [] h = (tt, tt)
  insert_down-IsDown x (y ∷ ys) h =
      ground (
        arith,
        insert_down-IsDown x ys h.1,
        All-insert_down (key y) x ys,
        All-le (key y) (key x) ys,
      )

  pub sort_down-IsDown : (xs : List A) → IsDown (sort_down key xs)
  unfolding sort_down
  sort_down-IsDown [] = tt
  sort_down-IsDown (x ∷ xs) = insert_down-IsDown x _ (sort_down-IsDown xs)

  insert_down-perm : (x : A) (ys : List A) → Perm (insert_down key x ys) (x ∷ ys)
  unfolding insert_down
  insert_down-perm x [] = Perm.refl _
  insert_down-perm x (y ∷ ys) = elim (Bool-cases (ltb (key x) (key y))) [
    | inl e ↦ rw e (Perm.trans (Perm.cons y (insert_down-perm x ys)) (Perm.swap x y ys))
    | inr e ↦ rw e (Perm.refl _)
  ]

  pub sort_down-perm : (xs : List A) → Perm (sort_down key xs) xs
  unfolding sort_down
  sort_down-perm [] = Perm.refl _
  sort_down-perm (x ∷ xs) =
      Perm.trans (insert_down-perm x (sort_down key xs)) (Perm.cons x (sort_down-perm xs))

length-insert_down {ℓ} :
    {A : Type ℓ} (key : A → ℕ) (x : A) (ys : List A)
    → length (insert_down key x ys) ≡ suc (length ys)
unfolding insert_down
length-insert_down key x [] = refl
length-insert_down key x (y ∷ ys) = ground (arith, length-insert_down key x ys)

pub length-sort_down {ℓ} :
    {A : Type ℓ} (key : A → ℕ) (xs : List A) → length (sort_down key xs) ≡ length xs
unfolding sort_down
length-sort_down key [] = refl
length-sort_down key (x ∷ xs) =
    length-insert_down key x (sort_down key xs) ∙ ap suc (length-sort_down key xs)

pub length-drop {ℓ} : {A : Type ℓ} (n : ℕ) (xs : List A) → length (drop n xs) ≡ length xs - n
length-drop zero xs = omega arith
length-drop (suc n) [] = omega arith
length-drop (suc n) (x ∷ xs) = omega (arith, length-drop n xs)
