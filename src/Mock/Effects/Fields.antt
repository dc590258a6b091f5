-- ===== src/Mock/Effects/Fields.antt =====
-- The parts of the moves: methods, the fields that a body sets, and the element that is replaced.
use trokk.Prelude.{
  ◌≡◌, refl, sym, ap, ◌∙◌, Bool, true, false, ◌&&◌, List, [], ◌∷◌, Option, none, some, find,
  update_first, Bool-cases, inl, inr,
}
use trokk.Text.{Str}
use trokk.Types.{Agent, AgentUpdateRequest}
use trokk.Http.{Method, method_eq}
use trokk.Mock.Routes.Agents.{apply_update, given, or_text, or_old}
use trokk.Mock.Effects.Moves.{Has, Replaces, Sets, IsUpdated}

pub is_get : (m : Method) → method_eq m Method.get ≡ true → m ≡ Method.get
is_get Method.get h = refl
is_get Method.post h = cc
is_get Method.put h = cc
is_get Method.patch h = cc
is_get Method.delete h = cc

pub is_post : (m : Method) → method_eq m Method.post ≡ true → m ≡ Method.post
is_post Method.get h = cc
is_post Method.post h = refl
is_post Method.put h = cc
is_post Method.patch h = cc
is_post Method.delete h = cc

pub is_patch : (m : Method) → method_eq m Method.patch ≡ true → m ≡ Method.patch
is_patch Method.get h = cc
is_patch Method.post h = cc
is_patch Method.put h = cc
is_patch Method.patch h = refl
is_patch Method.delete h = cc

pub both : (a b : Bool) → (a && b) ≡ true → (a ≡ true) × (b ≡ true)
both true b h = (refl, h)
both false b h = cc

-- The first element that passes the test is what `find` returns.
pub update_first-find {ℓ} :
    {A : Type ℓ} (p : A → Bool) (f : A → A) (xs : List A) {x : A}
    → find p xs ≡ some x
    → update_first p (λ _. f x) xs ≡ update_first p f xs
update_first-find p f [] {x} h = cc
update_first-find p f (y ∷ ys) {x} h = elim (Bool-cases (p y)) [
  | inl e ↦
      let found : some y ≡ some x = sym (rw e refl) ∙ h in
      let same : x ≡ y = cc in rw e (ap (λ z. f z ∷ ys) same)
  | inr e ↦
      let later : find p ys ≡ some x = sym (rw e refl) ∙ h in
      rw e (ap (◌∷◌ y) (update_first-find p f ys later))
]

pub given-Has {ℓ} : {A : Type ℓ} (o : Option A) (absent : A) → Has o (given o absent)
given-Has none absent = tt
given-Has (some v) absent = refl

pub or_text-Replaces : (o : Option Str) (old : Str) → Replaces o old (or_text o old)
or_text-Replaces none old = refl
or_text-Replaces (some []) old = refl
or_text-Replaces (some (c ∷ t)) old = refl

pub or_old-Sets {ℓ} : {A : Type ℓ} (o : Option A) (old : A) → Sets o old (or_old o old)
or_old-Sets none old = refl
or_old-Sets (some v) old = refl

pub apply_update-IsUpdated :
    (req : AgentUpdateRequest) (a : Agent) → IsUpdated req a (apply_update req a)
unfolding apply_update
apply_update-IsUpdated req a = record {
  same_id = refl;
  same_username = refl;
  same_api_key = refl;
  same_created_at = refl;
  active = or_old-Sets req.active a.active;
  display_name = or_text-Replaces req.display_name a.display_name;
  description = or_text-Replaces req.description a.description;
  personality = or_old-Sets req.personality a.personality;
}
