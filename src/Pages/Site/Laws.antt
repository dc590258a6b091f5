-- ===== src/Pages/Site/Laws.antt =====
-- What a user reaches from the landing page.
use trokk.Prelude.{
  ℕ, zero, suc, subst, ◌≡◌, ◌≢◌, inl, inr, refl, ap, ◌∙◌, Bool, true, false, List, [], ◌∷◌, ◌++◌,
  Option, none, some, get_elem?, arith, Bool-cases,
}
use trokk.Text.{Str, str, str_eq, str_eq_iff, truthy, trim}
use trokk.Types.{MessageResponse}
use trokk.Runtime.{Dates}
use trokk.Ui.{Locale}
use trokk.Pages.Landing.{Url, push, handle_submit, pick_template}
use trokk.Pages.Nav.Laws.{starts_with-get_elem?}
use trokk.Pages.Site.{
  Screen, landing, dashboard, investigations, report, registry, profile, stream, metrics, control,
  settings, at_path, fits, items_of, Moves, follows, submits, picks, Reaches, here, next,
}
use trokk.Pages.Site.Flaws.{
  is_open, flaws, has_link-open, landing-flaws, dashboard-flaws, investigations-flaws, report-flaws,
}

-- The pages of the four addresses.
abbrev pub is_open_screen : Screen → Bool
is_open_screen (landing p) = true
is_open_screen (dashboard p) = true
is_open_screen (investigations p) = true
is_open_screen (report p) = true
is_open_screen _ = false

get_elem?-append :
    (p : Str) (n c : ℕ) → get_elem? p n ≡ some c → get_elem? (p ++ str "?") n ≡ some c
get_elem?-append [] n c h = cc
get_elem?-append (x ∷ p) zero c h = h
get_elem?-append (x ∷ p) (suc n) c h = get_elem?-append p n c h

at_path-get_elem? :
    (path a : Str) (n c : ℕ)
    → get_elem? path n ≡ some c
    → at_path path a ≡ true
    → get_elem? a n ≡ some c
at_path-get_elem? path a n c k h = elim (Bool-cases (str_eq a path)) [
  | inl e ↦ ap (λ b. get_elem? b n) ((str_eq_iff a path).0 e) ∙ k
  | inr e ↦
      starts_with-get_elem? (path ++ str "?") a n c (ground arith) (get_elem?-append path n c k)
]

-- The unit after the slash of an open address.
second_of_open :
    (a : Str) (c : ℕ)
    → is_open a ≡ true
    → get_elem? a 1 ≡ some c
    → (c ≢ b'a') × (c ≢ b's') × (c ≢ b'm') × (c ≢ b'c')
second_of_open [] c h k = cc
second_of_open (x ∷ []) c h k = cc
second_of_open (x ∷ y ∷ a) c h k = ground arith

fits-open : (s : Screen) (a : Str) → is_open a ≡ true → fits s a ≡ true → is_open_screen s ≡ true
unfolding fits
fits-open (landing p) a h k = refl
fits-open (dashboard p) a h k = refl
fits-open (investigations p) a h k = refl
fits-open (report p) a h k = refl
fits-open (registry v creating updating p) a h k =
    absurd ((second_of_open a b'a' h (at_path-get_elem? (str "/agents") a 1 b'a' refl k)).0 refl)
fits-open (profile id v messages) a h k =
    absurd
      ((second_of_open a b'a' h (starts_with-get_elem? (str "/agents/") a 1 b'a' k refl)).0 refl)
fits-open (stream agents hook threads p) a h k =
    absurd ((second_of_open a b's' h (at_path-get_elem? (str "/stream") a 1 b's' refl k)).1 refl)
fits-open (metrics agents messages) a h k =
    absurd ((second_of_open a b'm' h (at_path-get_elem? (str "/metrics") a 1 b'm' refl k)).2 refl)
fits-open (control agents busy statuses configs) a h k =
    absurd ((second_of_open a b'c' h (at_path-get_elem? (str "/control") a 1 b'c' refl k)).3 refl)
fits-open (settings p) a h k =
    absurd ((second_of_open a b's' h (at_path-get_elem? (str "/settings") a 1 b's' refl k)).1 refl)

pushed-open : (o : Option Str) (b : Str) → push o ≡ some b → is_open b ≡ true
pushed-open none b h = cc
pushed-open (some e) b h = subst (λ c. is_open c ≡ true) (some-inj h) refl
  where
    some-inj : push (some e) ≡ some b → str "/dashboard?q=" ++ e ≡ b
    some-inj p = cc

module _ (url : Url) (loc : Locale) (d : Dates) (clock : ℕ)
    (print : List MessageResponse → Str) where
  items_of-flaws :
      (s : Screen) → is_open_screen s ≡ true → flaws (items_of url loc d clock print s) ≡ []
  unfolding items_of
  items_of-flaws (landing p) h = landing-flaws p
  items_of-flaws (dashboard p) h = dashboard-flaws loc p
  items_of-flaws (investigations p) h = investigations-flaws loc p
  items_of-flaws (report p) h = report-flaws loc p
  items_of-flaws (registry v creating updating p) h = cc
  items_of-flaws (profile id v messages) h = cc
  items_of-flaws (stream agents hook threads p) h = cc
  items_of-flaws (metrics agents messages) h = cc
  items_of-flaws (control agents busy statuses configs) h = cc
  items_of-flaws (settings p) h = cc

  Moves-open : {a b : Str} → Moves url loc d clock print a b → is_open a ≡ true → is_open b ≡ true
  unfolding handle_submit pick_template
  Moves-open {a} {b} (follows s fit linked) h =
      has_link-open b (items_of url loc d clock print s) (items_of-flaws s (fits-open s a h fit))
        linked
  Moves-open {a} {b} (submits p at_root pushed) h = elim (Bool-cases (truthy (trim p.question))) [
    | inl e ↦ pushed-open (url.encode (trim p.question)) b (rw e at pushed)
    | inr e ↦ absurd (silent (rw e at pushed))
  ]
    where
      silent : ◌≡◌ {A = Option Str} none (some b) → ⊥
      silent q = cc
  Moves-open {a} {b} (picks placeholder at_root pushed) h =
      pushed-open (url.encode placeholder) b pushed

  Reaches-open : {b : Str} → Reaches url loc d clock print (str "/") b → is_open b ≡ true
  Reaches-open here = refl
  Reaches-open (next r m) = Moves-open m (Reaches-open r)

  -- However a user moves from the landing page, by links and by the addresses that it pushes, in
  -- whatever states the pages are, the address that is reached is one of the landing page, the
  -- dashboard, the list of investigations and the reports; a page that fits it is one of these four,
  -- and never the registry, a profile, the stream, the metrics, the control or the settings page.
  pub Reaches-fits :
      (b : Str) (s : Screen)
      → Reaches url loc d clock print (str "/") b
      → fits s b ≡ true
      → (is_open b ≡ true) × (is_open_screen s ≡ true)
  Reaches-fits b s r fit = (Reaches-open r, fits-open s b (Reaches-open r) fit)
