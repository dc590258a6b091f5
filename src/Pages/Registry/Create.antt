-- ===== src/Pages/Registry/Create.antt =====
-- From the form of the registry to its grid: a creation through the hooks, the service and the mock
-- backend, and the request that the page makes after it.
use trokk.Prelude.{
  ◌+◌, ◌≡◌, refl, sym, ap, ◌∙◌, true, false, List, [], ◌∷◌, ◌++◌, none, some, arith, ltb,
}
use mathlib.Core.List.{append-nil, append_assoc}
use trokk.Types.{Agent}
use trokk.Runtime.{after_draw}
use trokk.Http.{Outcome, ok}
use trokk.Mock.{Store}
use trokk.Mock.Routes.Agents.{new_agent}
use trokk.Client.{Env}
use trokk.Service.{get_agents}
use trokk.Service.Laws.{IsMock, create_agent-mock}
use trokk.Polling
use trokk.Hooks.{View, resolved}
use trokk.Hooks.Poller.{Hook, Event, step}
use trokk.Hooks.Stats.{get_agents-mock}
use trokk.Hooks.Views.{use_agents}
use trokk.Ui.{Item, each, Locale}
use trokk.Pages.Registry.{
  Page, creates, submit, is_blank, after_request, request_of, sent, result_of, handle_submit,
  reset_form,
}
use trokk.Pages.Registry.View.{card_items, section_items}

each-append {ℓ} :
    {A : Type ℓ} (f : A → List Item) (xs ys : List A) → each f (xs ++ ys) ≡ each f xs ++ each f ys
each-append f [] ys = refl
each-append f (x ∷ xs) ys =
    ap (◌++◌ (f x)) (each-append f xs ys) ∙ sym (append_assoc (f x) (each f xs) (each f ys))

-- The grid once the answer to a refresh has come in.
refreshed_items :
    (loc : Locale) (q : Polling.Store) (h : Hook (View (List Agent))) (agents : List Agent)
    → section_items loc
        (step use_agents q
          (step use_agents q h Event.refresh)
          (Event.settles (resolved agents))).view
      ≡ each (card_items loc) agents
unfolding section_items step use_agents
refreshed_items loc q h agents =
    let waiting : ltb 0 (h.in_flight + 1) ≡ true = ground arith in rw waiting refl

submit-creates :
    (p : Page) → p.editing_id ≡ none → is_blank p.form ≡ false → submit p ≡ some (creates p.form)
unfolding submit
submit-creates p new filled = rw filled (ap (λ o. some (request_of o p.form)) new)

handle_submit-creates :
    (e : Env) (q : Polling.Store) (p : Page) (h : Hook (View (List Agent))) (s : Store)
    → IsMock e
    → p.editing_id ≡ none
    → is_blank p.form ≡ false
    → let a = new_agent e.dates (after_draw e.world) s p.form in
      handle_submit e q p h s
      ≡ (reset_form p, step use_agents q h Event.refresh, record s { agents = s.agents ++ a ∷ [] })
unfolding handle_submit
handle_submit-creates e q p h s m new filled =
    ap (sent e q p h s) (submit-creates p new filled)
    ∙ ap
        (λ (r : Outcome Agent × Store). (
          after_request (creates p.form) (result_of r.0) p,
          step use_agents q h Event.refresh,
          r.1,
        ))
        (create_agent-mock e p.form s m)

-- In mock mode, submitting the form for a new agent, with no blank text, creates an agent of the form
-- at the end of the store, closes the form with its user name empty again, and asks for the agents
-- once more. That request, whenever it reaches the backend with this store, is answered by the agents
-- of the store; and once the answer is in, whatever the hook showed or waited for before, the grid
-- shows the cards of the agents that there were, in order, and the card of the new one after them.
pub section_items-submit :
    (e later : Env) (loc : Locale) (q : Polling.Store) (h : Hook (View (List Agent))) (p : Page)
    (s : Store)
    → IsMock e
    → IsMock later
    → p.editing_id ≡ none
    → is_blank p.form ≡ false
    → let a = new_agent e.dates (after_draw e.world) s p.form in
      let t = record s { agents = s.agents ++ a ∷ [] } in
      let after = handle_submit e q p h s in
      (after.2 ≡ t)
      × (after.0.show_form ≡ false)
      × (after.0.editing_id ≡ none)
      × (after.0.form.username ≡ [])
      × (after.1.in_flight ≡ h.in_flight + 1)
      × (get_agents later after.2 ≡ (ok t.agents, t))
      × (section_items loc (step use_agents q after.1 (Event.settles (resolved t.agents))).view
          ≡ each (card_items loc) s.agents ++ card_items loc a)
unfolding reset_form step
section_items-submit e later loc q h p s m n new filled =
    let a = new_agent e.dates (after_draw e.world) s p.form in
    rw (handle_submit-creates e q p h s m new filled) (
      refl,
      refl,
      refl,
      refl,
      refl,
      get_agents-mock later _ n,
      refreshed_items loc q h (s.agents ++ a ∷ [])
          ∙ each-append (card_items loc) s.agents (a ∷ [])
          ∙ ap (◌++◌ (each (card_items loc) s.agents)) (append-nil (card_items loc a)),
    )
