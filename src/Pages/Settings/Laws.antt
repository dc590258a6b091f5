-- ===== src/Pages/Settings/Laws.antt =====
-- The buttons of the settings page.
use trokk.Prelude.{
  ◌≡◌, refl, sym, ◌∙◌, ap, Bool, true, false, not, List, [], ◌∷◌, map, All, filter, length,
  length-map, Bool-cases, inl, inr,
}
use trokk.Text.{Str, str_eq}
use trokk.Pages.Settings.{Member, Settings, set_active, toggle_active}

-- Every agent with the identifier has the activity that the page shows for it.
IsShown : Str → Bool → List Member → Type 0
IsShown agent_id active as_ = All (λ a. a.active ≡ active) (filter (λ a. str_eq a.id agent_id) as_)

not-not : (b : Bool) → not (not b) ≡ b
not-not true = refl
not-not false = refl

set_active-twice :
    (agent_id : Str) (active : Bool) (a : Member)
    → str_eq a.id agent_id ≡ true
    → a.active ≡ active
    → set_active agent_id (not active) (set_active agent_id active a) ≡ a
set_active-twice agent_id active a e h =
    rw (e, e) (ap (λ b. record a { active = b }) (not-not active ∙ sym h))

map-set_active :
    (agent_id : Str) (active : Bool) (as_ : List Member)
    → IsShown agent_id active as_
    → map (set_active agent_id (not active)) (map (set_active agent_id active) as_) ≡ as_
unfolding IsShown
map-set_active agent_id active [] h = refl
map-set_active agent_id active (a ∷ as_) h = elim (Bool-cases (str_eq a.id agent_id)) [
  | inl e ↦
      let k : (a.active ≡ active) × IsShown agent_id active as_ = rw e at h in
      rw (set_active-twice agent_id active a e k.0, map-set_active agent_id active as_ k.1) refl
  | inr e ↦ rw (e, e) (ap (◌∷◌ a) (map-set_active agent_id active as_ (rw e at h)))
]

-- Two answered presses of an agent's button, each with the activity that the page then shows, give
-- the page back; and a press changes neither the number of agents nor the rest of the page.
toggle_active-toggle_active :
    (agent_id : Str) (active : Bool) (p : Settings)
    → IsShown agent_id active p.agents
    → (toggle_active true agent_id (not active) (toggle_active true agent_id active p) ≡ p)
      × (length (toggle_active true agent_id active p).agents ≡ length p.agents)
      × ((toggle_active true agent_id active p).form ≡ p.form)
unfolding toggle_active
toggle_active-toggle_active agent_id active p h = (
  ap (λ as_. record p { agents = as_ }) (map-set_active agent_id active p.agents h),
  length-map (set_active agent_id active) p.agents,
  refl,
)
