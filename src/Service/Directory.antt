-- ===== src/Service/Directory.antt =====
-- What the backend promises to those who look an agent or a message up by its identifier: two maps,
-- in which the order of the store is forgotten, and what each call that writes does to them.
use trokk.Prelude.{
  ℕ, ◌+◌, ◌≡◌, refl, sym, ap, ◌∙◌, Bool, true, false, List, [], ◌∷◌, ◌++◌, Option, none, some, find,
  update_first, map, length, if◌then◌else◌, arith, Bool-cases, inl, inr, find-append,
}
use trokk.Text.{Str, str, str_eq, str_eq_iff, str_eq_refl}
use trokk.Text.Digits.{decimal, to_radix}
use trokk.Types.{Agent, AgentCreateRequest, AgentUpdateRequest, MessageResponse}
use trokk.Runtime.{Dates, World, after_now}
use trokk.Mock.{Store, is_agent, is_message}

pub record Directory : Type 0 where
  pub agents : Str → Option Agent
  pub messages : Str → Option MessageResponse
  pub size : ℕ

-- The calls that write.
pub data Command : Type 0 where
  creates : AgentCreateRequest → Command
  updates : Str → AgentUpdateRequest → Command
  endorses propagates : Str → Command
  pauses resumes : Command

abbrev pub Map : Type 0 → Type 0
Map A = Str → Option A

abbrev pub change {ℓ} : {A : Type ℓ} → (A → A) → Option A → Option A
change f none = none
change f (some a) = some (f a)

module _ {A : Type 0} where
  abbrev pub change_at : Str → (A → A) → Map A → Map A
  change_at id f m j = if str_eq j id then change f (m j) else m j

  abbrev pub change_all : (A → A) → Map A → Map A
  change_all f m j = change f (m j)

  abbrev pub put : Str → A → Map A → Map A
  put id a m j = if str_eq id j then some a else m j

-- The agent that a creation adds to `n` others.
abbrev pub fresh : Dates → World → ℕ → AgentCreateRequest → Agent
fresh d w n req = record {
  id = str "a" ++ decimal (n + 1);
  username = req.username;
  display_name = req.display_name;
  description = req.description;
  personality = req.personality;
  api_key = some (str "trk_" ++ to_radix 36 (w.clock 0));
  created_at = d.to_iso ((after_now w).clock 0);
  active = true;
}

-- A text that is given and not empty, or the old one; and what is given, or the old one.
abbrev pub new_text : Option Str → Str → Str
new_text none old = old
new_text (some []) old = old
new_text (some (c ∷ s)) old = c ∷ s

abbrev pub new_or : {A : Type 0} → Option A → A → A
new_or none old = old
new_or (some new) old = new

abbrev pub updated : AgentUpdateRequest → Agent → Agent
updated req a = record a {
  active = new_or req.active a.active;
  display_name = new_text req.display_name a.display_name;
  description = new_text req.description a.description;
  personality = new_or req.personality a.personality;
}

abbrev pub with_active : Bool → Agent → Agent
with_active b a = record a { active = b }

abbrev pub endorsed : MessageResponse → MessageResponse
endorsed m = record m { endorsement_count = m.endorsement_count + 1 }

abbrev pub propagated : MessageResponse → MessageResponse
propagated m = record m { propagation_count = m.propagation_count + 1 }

-- What a call does to the directory, at an engine that gives these dates and this world.
abbrev pub does : Dates → World → Command → Directory → Directory
does d w (creates req) t = record t {
  agents = put (str "a" ++ decimal (t.size + 1)) (fresh d w t.size req) t.agents;
  size = t.size + 1;
}
does d w (updates id req) t = record t { agents = change_at id (updated req) t.agents }
does d w (endorses id) t = record t { messages = change_at id endorsed t.messages }
does d w (propagates id) t = record t { messages = change_at id propagated t.messages }
does d w pauses t = record t { agents = change_all (with_active false) t.agents }
does d w resumes t = record t { agents = change_all (with_active true) t.agents }

abbrev pub directory : Store → Directory
directory s = record {
  agents = λ id. find (is_agent id) s.agents;
  messages = λ id. find (is_message id) s.messages;
  size = length s.agents;
}

module _ {A : Type 0} (key : A → Str) (f : A → A) (same : (a : A) → key (f a) ≡ key a) where
  abbrev at : Str → List A → Option A
  at id xs = find (λ x. str_eq (key x) id) xs

  pub find-update_first :
      (id j : Str) (xs : List A)
      → at j (update_first (λ x. str_eq (key x) id) f xs) ≡ change_at id f (λ k. at k xs) j
  find-update_first id j [] = ground arith
  find-update_first id j (x ∷ xs) = ground (
    arith,
    find-update_first id j xs,
    same x,
    str_eq_iff (key x) id,
    str_eq_iff (key x) j,
    str_eq_iff j id,
  )

  pub find-map : (j : Str) (xs : List A) → at j (map f xs) ≡ change_all f (λ k. at k xs) j
  find-map j [] = refl
  find-map j (x ∷ xs) = ground (arith, find-map j xs, same x)

pub update_first-none :
    {A : Type 0} (p : A → Bool) (f : A → A) (xs : List A)
    → find p xs ≡ none
    → update_first p f xs ≡ xs
update_first-none p f [] h = refl
update_first-none p f (x ∷ xs) h = ground (arith, update_first-none p f xs)

find-append_other :
    (j : Str) (a : Agent) (as_ : List Agent)
    → str_eq a.id j ≡ false
    → find (is_agent j) (as_ ++ a ∷ []) ≡ find (is_agent j) as_
find-append_other j a [] h = rw h
find-append_other j a (b ∷ as_) h = ground (arith, find-append_other j a as_ h)

-- An agent with an identifier of its own is put into the map.
pub find-append_new :
    (j : Str) (a : Agent) (as_ : List Agent)
    → find (is_agent a.id) as_ ≡ none
    → find (is_agent j) (as_ ++ a ∷ []) ≡ put a.id a (λ k. find (is_agent k) as_) j
find-append_new j a as_ h = elim (Bool-cases (str_eq a.id j)) [
  | inl e ↦ rw e (
      ap (λ k. find (is_agent k) (as_ ++ a ∷ [])) (sym ((str_eq_iff a.id j).0 e))
      ∙ find-append (is_agent a.id) as_ (a ∷ []) h
      ∙ rw (str_eq_refl a.id))
  | inr e ↦ rw (e, find-append_other j a as_ e)
]
