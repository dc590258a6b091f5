-- ===== src/Tests/Service.antt =====
-- The service functions over the mock backend on a small store.
use trokk.Prelude.{◌≡◌, ◌≢◌, refl, true, false, List, [], ◌∷◌, none, arith}
use trokk.Text.{str, str_eq_iff}
use trokk.Types.{Agent, SchedulerStatus}
use trokk.Runtime.{IsWorld, after_draw}
use trokk.Http.{ok}
use trokk.Mock.{Store, get_agent_stats}
use trokk.Mock.Routes.Agents.{new_agent, apply_update}
use trokk.Service.{get_agent, create_agent, update_agent, get_scheduler_status}
use trokk.Service.Agents.{no_stats, get_agent-create_agent, get_agent-update_agent}
use trokk.Service.Control.{Rows, get_scheduler_status-Rows}
use trokk.Tests.Data.{ann, bob, store, store-IsValid, env, env-IsMock, new_form, rename}

abbrev cy : Agent
cy = new_agent env.dates (after_draw env.world) store new_form

abbrev grown : Store
grown = record store { agents = ann ∷ bob ∷ cy ∷ [] }

get_agent-create_agent_example :
    (create_agent env new_form store ≡ (ok cy, grown))
    × (get_agent env cy.id grown ≡ (ok (record { agent = cy; stats = no_stats }), grown))
    × (cy.username ≡ str "cy-01")
    × (cy.display_name ≡ str "Cy")
    × (cy.description ≡ str "Third")
    × (cy.personality ≡ new_form.personality)
    × (cy.active ≡ true)
get_agent-create_agent_example = get_agent-create_agent env new_form store env-IsMock store-IsValid

abbrev renamed : Store
renamed = record store { agents = apply_update rename ann ∷ bob ∷ [] }

bob_ne : str "a2" ≢ str "a1"
bob_ne h = let clash : false ≡ true = (str_eq_iff (str "a2") (str "a1")).1 h in cc

get_agent-update_agent_example :
    (update_agent env (str "a1") rename store ≡ (ok (apply_update rename ann), renamed))
    × (get_agent env (str "a1") renamed ≡ (
      ok (record {
        agent = apply_update rename ann;
        stats = get_agent_stats (str "a1") store.messages;
      }),
      renamed,
    ))
    × ((get_agent env (str "a2") renamed).0 ≡ (get_agent env (str "a2") store).0)
    × ((apply_update rename ann).id ≡ str "a1")
    × ((apply_update rename ann).username ≡ str "ann-01")
    × ((apply_update rename ann).api_key ≡ none)
    × ((apply_update rename ann).created_at ≡ ann.created_at)
get_agent-update_agent_example =
    get_agent-update_agent env (str "a1") (str "a2") rename store ann env-IsMock (refl, refl)
      (refl, refl) bob_ne refl

env-IsWorld : IsWorld env.world
env-IsWorld k = omega arith

get_scheduler_status-Rows_example :
    (rows : List SchedulerStatus) × (get_scheduler_status env store ≡ (ok rows, store))
    × Rows env.dates (after_draw env.world) store.agents rows
get_scheduler_status-Rows_example = get_scheduler_status-Rows env store env-IsMock env-IsWorld
