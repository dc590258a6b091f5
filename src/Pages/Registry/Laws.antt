-- ===== src/Pages/Registry/Laws.antt =====
-- The registry's form together with the mock backend.
use trokk.Prelude.{
  ◌≡◌, refl, sym, ◌∙◌, ap, Bool, true, false, not, List, [], ◌∷◌, Option, none, some, find,
  update_first, if◌then◌else◌, arith, Bool-cases, inl, inr,
}
use trokk.Text.{Str, str_eq, truthy}
use trokk.Types.{Agent, AgentUpdateRequest}
use trokk.Http.{ok}
use trokk.Mock.{Store, is_agent}
use trokk.Mock.Paths.{IsSegment}
use trokk.Mock.Routes.Agents.{apply_update, as_update}
use trokk.Client.{Env}
use trokk.Service.Laws.{IsMock}
use trokk.Service.Agents.{update_agent-found, find-update_first_self, apply_update-id}
use trokk.Pages.Registry.{
  Page, Request, perform, updates, start_edit, form_of, is_blank, submit, after_submit,
  after_request, toggle_active,
}

-- A change of the first agent found that gives back the agent itself changes nothing.
update_first_id :
    (id : Str) (f : Agent → Agent) (as_ : List Agent) (a : Agent)
    → find (is_agent id) as_ ≡ some a
    → f a ≡ a
    → update_first (is_agent id) f as_ ≡ as_
update_first_id id f [] a h e = refl
update_first_id id f (b ∷ as_) a h e = elim (Bool-cases (str_eq b.id id)) [
  | inl same ↦ rw same (ap (λ c. c ∷ as_) (fixed (some-inj (rw same at h))))
  | inr other ↦ rw other (ap (◌∷◌ b) (update_first_id id f as_ a (rw other at h) e))
]
  where
    some-inj : ◌≡◌ {A = Option Agent} (some b) (some a) → b ≡ a
    some-inj p = cc

    fixed : b ≡ a → f b ≡ b
    fixed p = ap f p ∙ e ∙ sym p

-- Two changes of the first agent found, the second of which undoes the first.
update_first_twice :
    (id : Str) (f g : Agent → Agent) (as_ : List Agent) (a : Agent)
    → find (is_agent id) as_ ≡ some a
    → ((b : Agent) → (f b).id ≡ b.id)
    → g (f a) ≡ a
    → update_first (is_agent id) g (update_first (is_agent id) f as_) ≡ as_
update_first_twice id f g [] a h keeps e = refl
update_first_twice id f g (b ∷ as_) a h keeps e = elim (Bool-cases (str_eq b.id id)) [
  | inl same ↦
      rw (same, ap (λ i. str_eq i id) (keeps b), same)
        (ap (λ c. c ∷ as_) (undone (some-inj (rw same at h))))
  | inr other ↦
      rw (other, other) (ap (◌∷◌ b) (update_first_twice id f g as_ a (rw other at h) keeps e))
]
  where
    some-inj : ◌≡◌ {A = Option Agent} (some b) (some a) → b ≡ a
    some-inj p = cc

    undone : b ≡ a → g (f b) ≡ b
    undone p = ap (λ c. g (f c)) p ∙ e ∙ sym p

kept_text : (x : Str) → (if truthy x then x else x) ≡ x
kept_text x = ground arith

apply_update-form_of : (a : Agent) → apply_update (as_update (form_of a)) a ≡ a
unfolding apply_update
apply_update-form_of a = rw (kept_text a.display_name, kept_text a.description) refl

submit-start_edit :
    (p : Page) (a : Agent)
    → IsSegment a.id
    → is_blank (form_of a) ≡ false
    → submit (start_edit a p) ≡ some (updates a.id (as_update (form_of a)))
unfolding submit start_edit
submit-start_edit p a seg filled = rw (filled, seg.0) refl

-- In mock mode, for an agent of the store whose identifier a path can carry and whose texts are not
-- blank, opening the form on it and submitting the form unchanged makes an update that answers with
-- the agent and leaves the store as it was; and the form stays open on the agent, whatever the
-- update returns.
pub perform-start_edit :
    (e : Env) (p : Page) (a : Agent) (s : Store) (result : Option Agent)
    → IsMock e
    → IsSegment a.id
    → find (is_agent a.id) s.agents ≡ some a
    → is_blank (form_of a) ≡ false
    → (r : Request) × (submit (start_edit a p) ≡ some r)
      × (perform e r s ≡ (ok a, s))
      × (after_submit result (start_edit a p) ≡ start_edit a p)
      × ((start_edit a p).show_form ≡ true)
unfolding submit start_edit after_submit
perform-start_edit e p a s result h seg found filled = (
  updates a.id (as_update (form_of a)),
  submit-start_edit p a seg filled,
  update_agent-found e a.id (as_update (form_of a)) s a h seg found
      ∙ rw (
        apply_update-form_of a,
        update_first_id a.id (apply_update (as_update (form_of a))) s.agents a found
            (apply_update-form_of a),
      ),
  ap (λ o. elim o [ none ↦ start_edit a p | some r ↦ after_request r result (start_edit a p) ])
      (submit-start_edit p a seg filled),
  refl,
)

abbrev switch : Agent → AgentUpdateRequest
switch a = record {
  active = some (not a.active);
  display_name = none;
  description = none;
  personality = none;
}

not-not : (b : Bool) → not (not b) ≡ b
not-not true = refl
not-not false = refl

switched_back :
    (a : Agent) → apply_update (switch (apply_update (switch a) a)) (apply_update (switch a) a) ≡ a
unfolding apply_update
switched_back a = ap (λ b. record a { active = b }) (not-not a.active)

-- In mock mode, for an agent of the store whose identifier a path can carry, toggling it answers
-- with the agent with its activity switched; toggling the answer gives the agent and the store back.
perform-toggle_active :
    (e : Env) (a : Agent) (s : Store)
    → IsMock e
    → IsSegment a.id
    → find (is_agent a.id) s.agents ≡ some a
    → let b = record a { active = not a.active } in
      (t : Store) × (perform e (toggle_active a) s ≡ (ok b, t))
      × (perform e (toggle_active b) t ≡ (ok a, s))
unfolding toggle_active apply_update
perform-toggle_active e a s h seg found = (
  record s { agents = update_first (is_agent a.id) (apply_update (switch a)) s.agents },
  update_agent-found e a.id (switch a) s a h seg found,
  update_agent-found e a.id (switch b) _ (apply_update (switch a) a) h seg
        (find-update_first_self a.id (switch a) s.agents a found)
      ∙ rw (
        switched_back a,
        update_first_twice a.id (apply_update (switch a)) (apply_update (switch b)) s.agents a found
            (apply_update-id (switch a)) (switched_back a),
      ),
)
  where
    b : Agent
    b = apply_update (switch a) a
