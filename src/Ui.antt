-- ===== src/Ui.antt =====
-- What a page of ferr/src/app shows: the visible parts of its JSX, in document order. Classes, colors
-- of states and layout are left out; a link and a button are what a user can follow or press.
use mathlib.Core.List.{append_assoc, append-nil}
use trokk.Prelude.{
  ◌≡◌, refl, sym, ap, ◌∙◌, zero, suc, ℕ, Bool, true, false, List, [], ◌∷◌, ◌++◌, Option, none, some,
  ◌==◌, if◌then◌else◌,
}
use trokk.Text.{Str, str_eq, truthy}

-- `link` opens an anchor to an address, and `end_link` closes it. A button has its label and whether
-- it is disabled; a field its placeholder, its value and whether it is disabled. A bar has the
-- numerator and the denominator of its length. `mark` is in the link of a bar that is marked as the
-- current one. The icon of a button stands before it.
pub data Item : Type 0 where
  heading text icon dot swatch select : Str → Item
  link : Str → Item
  end_link mark skeleton spinner : Item
  button : Str → Bool → Item
  field : Str → Str → Bool → Item
  choice : Str → Str → Item
  bar : ℕ → ℕ → Item

-- `{test && …}`
abbrev pub show_if : Bool → List Item → List Item
show_if b items = if b then items else []

-- `error && …` and `!error`: the empty text is falsy.
abbrev pub has_error : Option Str → Bool
has_error none = false
has_error (some t) = truthy t

-- `{xs.map(…)}`
abbrev pub each {ℓ} : {A : Type ℓ} → (A → List Item) → List A → List Item
each f [] = []
each f (x ∷ xs) = f x ++ each f xs

-- `[1, …, n].map(() => skeleton)`
abbrev pub skeletons : ℕ → List Item
skeletons zero = []
skeletons (suc n) = skeleton ∷ skeletons n

abbrev pub is_empty {ℓ} : {A : Type ℓ} → List A → Bool
is_empty [] = true
is_empty (_ ∷ _) = false

-- What each part of a page gives, in order.
abbrev pub collect {ℓ} : {A : Type ℓ} → (Item → List A) → List Item → List A
collect f [] = []
collect f (i ∷ items) = f i ++ collect f items

module _ {ℓ} {A : Type ℓ} (f : Item → List A) where
  pub collect-append : (xs ys : List Item) → collect f (xs ++ ys) ≡ collect f xs ++ collect f ys
  collect-append [] ys = refl
  collect-append (x ∷ xs) ys =
      ap (◌++◌ (f x)) (collect-append xs ys)
      ∙ sym (append_assoc (f x) (collect f xs) (collect f ys))

  -- A list of parts that give nothing gives nothing.
  pub collect-each {κ} :
      {B : Type κ} (g : B → List Item) (xs : List B)
      → ((x : B) → collect f (g x) ≡ [])
      → collect f (each g xs) ≡ []
  collect-each g [] h = refl
  collect-each g (x ∷ xs) h = collect-append (g x) (each g xs) ∙ rw (h x, collect-each g xs h)

  pub collect-show_if :
      (b : Bool) (items : List Item)
      → collect f (show_if b items) ≡ (if b then collect f items else [])
  collect-show_if true items = refl
  collect-show_if false items = refl

pub either-nil {ℓ} : {A : Type ℓ} (b : Bool) → ◌≡◌ {A = List A} (if b then [] else []) []
either-nil true = refl
either-nil false = refl

pub ruleset collects = (collect-append, collect-show_if, either-nil, append-nil)

abbrev address_of : Item → List Str
address_of (link href) = href ∷ []
address_of _ = []

-- The links of a page, in order.
abbrev pub links : List Item → List Str
links items = collect address_of items

pub links-append : (xs ys : List Item) → links (xs ++ ys) ≡ links xs ++ links ys
links-append = collect-append address_of

-- A list of parts without links has none.
pub links-each {ℓ} :
    {A : Type ℓ} (f : A → List Item) (xs : List A)
    → ((x : A) → links (f x) ≡ [])
    → links (each f xs) ≡ []
links-each = collect-each address_of

-- `s.replace("_", " ")`: the first one.
unfoldable pub replace_underscore : Str → Str
replace_underscore [] = []
replace_underscore (c ∷ s) = if c == b'_' then b' ' ∷ s else c ∷ replace_underscore s

-- `s[0]`
abbrev pub first_unit : Str → Str
first_unit [] = []
first_unit (c ∷ s) = c ∷ []

-- `Object.fromEntries(xs.map((x) => [x.id, x]))[id]`: the last one with the key.
pub last_with {ℓ} : {A : Type ℓ} → (A → Str) → Str → List A → Option A
last_with key id [] = none
last_with key id (x ∷ xs) = elim (last_with key id xs) [
  | some y ↦ some y
  | none ↦ if str_eq (key x) id then some x else none
]

-- What a browser makes of a date in the user's language.
pub record Locale : Type 0 where
  pub to_locale_string : Str → Str
  pub to_locale_date_string : Str → Str
  pub to_locale_time_string : Str → Str
