-- ===== src/Pages/Nav/Laws.antt =====
-- Which items of the navigation bar are marked.
use trokk.Prelude.{
  ℕ, zero, suc, ◌≢◌, ◌≤◌, ◌≡◌, refl, sym, ap, ◌∙◌, true, false, ◌&&◌, ◌||◌, not, List, [], ◌∷◌,
  some, All, filter, length, get_elem?, take, arith, Bool-cases, inl, inr,
}
use trokk.Text.{Str, str, str_eq, str_eq_iff, starts_with}
use trokk.Pages.Nav.{NavItem, nav_items, is_active, is_active_mobile, mobile_items}

pub starts_with-get_elem? :
    (a p : Str) (n c : ℕ) → starts_with a p ≡ true → get_elem? a n ≡ some c → get_elem? p n ≡ some c
starts_with-get_elem? [] p n c h k = cc
starts_with-get_elem? (x ∷ a) [] n c h k = cc
starts_with-get_elem? (x ∷ a) (y ∷ p) zero c h k = ground arith
starts_with-get_elem? (x ∷ a) (y ∷ p) (suc n) c h k = starts_with-get_elem? a p n c (ground arith) k

-- A marked item agrees with the address at each unit of its own.
is_active-get_elem? :
    (p : Str) (i : NavItem) (n c : ℕ)
    → is_active p i ≡ true
    → get_elem? i.href n ≡ some c
    → get_elem? p n ≡ some c
unfolding is_active
is_active-get_elem? p i n c h k = elim (Bool-cases (str_eq p i.href)) [
  | inl e ↦ ap (λ q. get_elem? q n) ((str_eq_iff p i.href).0 e) ∙ k
  | inr e ↦ starts_with-get_elem? i.href p n c (ground arith) k
]

-- Only the address "/" marks an item of that address.
is_active-root : (p : Str) (i : NavItem) → i.href ≡ str "/" → is_active p i ≡ str_eq p (str "/")
unfolding is_active
is_active-root p i e =
    ap (λ h. str_eq p h || (not (str_eq h (str "/")) && starts_with h p)) e ∙ ground arith

-- The two items are not both marked.
abbrev Excludes : Str → NavItem → NavItem → Type 0
Excludes p i j = (is_active p i && is_active p j) ≡ false

abbrev Pairwise {ℓ κ} : {A : Type ℓ} → (A → A → Type κ) → List A → Type (ℓ ⊔ κ)
Pairwise R [] = Unit
Pairwise R (x ∷ xs) = All (R x) xs × Pairwise R xs

filter-none :
    (p : Str) (i : NavItem) (is : List NavItem)
    → is_active p i ≡ true
    → All (Excludes p i) is
    → filter (is_active p) is ≡ []
filter-none p i [] h k = refl
filter-none p i (j ∷ is) h k = ground (arith, filter-none p i is h k.1, k.0)

length-filter_exclusive :
    (p : Str) (is : List NavItem) → Pairwise (Excludes p) is → length (filter (is_active p) is) ≤ 1
length-filter_exclusive p [] h = omega arith
length-filter_exclusive p (i ∷ is) h = elim (Bool-cases (is_active p i)) [
  | inl e ↦ rw (e, filter-none p i is e h.0) (omega arith)
  | inr e ↦ rw e (length-filter_exclusive p is h.1)
]

-- Items whose addresses differ at a unit.
apart :
    (p : Str) (i j : NavItem) (n c d : ℕ)
    → get_elem? i.href n ≡ some c
    → get_elem? j.href n ≡ some d
    → c ≢ d
    → Excludes p i j
apart p i j n c d h k ne = ground (arith, is_active-get_elem? p i n c, is_active-get_elem? p j n d)

-- "/" and a longer address.
apart_root :
    (p : Str) (i j : NavItem) (d : ℕ)
    → i.href ≡ str "/"
    → get_elem? j.href 1 ≡ some d
    → Excludes p i j
apart_root p i j d h k = elim (Bool-cases (is_active p i)) [
  | inl e ↦ elim (Bool-cases (is_active p j)) [
    | inl f ↦ absurd (too_long ((str_eq_iff p (str "/")).0 (sym (is_active-root p i h) ∙ e)) f)
    | inr f ↦ rw (e, f)
  ]
  | inr e ↦ rw e
]
  where
    too_long : p ≡ str "/" → is_active p j ≡ true → ⊥
    too_long r f = cc (is_active-get_elem? p j 1 d f k, ap (λ q. get_elem? q 1) r)

length-filter_mobile :
    (p : Str) (n : ℕ) (is : List NavItem)
    → length (filter (is_active_mobile p) (take n is)) ≤ length (filter (is_active p) is)
unfolding is_active is_active_mobile
length-filter_mobile p zero is = omega arith
length-filter_mobile p (suc n) [] = omega arith
length-filter_mobile p (suc n) (i ∷ is) = ground (arith, length-filter_mobile p n is)

-- At every address at most one item of the wide bar is marked, and the mobile bar marks at most as
-- many.
one_marked :
    (p : Str)
    → (length (filter (is_active p) nav_items) ≤ 1)
      × (length (filter (is_active_mobile p) mobile_items)
          ≤ length (filter (is_active p) nav_items))
unfolding nav_items mobile_items
one_marked p = (
  length-filter_exclusive p nav_items (
    (
      apart_root p _ _ _ refl refl,
      (
        apart_root p _ _ _ refl refl,
        (
          apart_root p _ _ _ refl refl,
          (apart_root p _ _ _ refl refl, (apart_root p _ _ _ refl refl, tt)),
        ),
      ),
    ),
    (
      (
        apart p _ _ 1 _ _ refl refl (omega arith),
        (
          apart p _ _ 1 _ _ refl refl (omega arith),
          (
            apart p _ _ 1 _ _ refl refl (omega arith),
            (apart p _ _ 2 _ _ refl refl (omega arith), tt),
          ),
        ),
      ),
      (
        (
          apart p _ _ 1 _ _ refl refl (omega arith),
          (
            apart p _ _ 1 _ _ refl refl (omega arith),
            (apart p _ _ 1 _ _ refl refl (omega arith), tt),
          ),
        ),
        (
          (
            apart p _ _ 1 _ _ refl refl (omega arith),
            (apart p _ _ 1 _ _ refl refl (omega arith), tt),
          ),
          ((apart p _ _ 1 _ _ refl refl (omega arith), tt), (tt, tt)),
        ),
      ),
    ),
  ),
  length-filter_mobile p 5 nav_items,
)
