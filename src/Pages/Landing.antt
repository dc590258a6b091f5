-- ===== src/Pages/Landing.antt =====
-- ferr/src/app/page.tsx: the landing page, which sends a question to the dashboard.
pub mod Laws
use trokk.Prelude.{
  Bool, true, false, ◌&&◌, ◌||◌, not, List, [], ◌∷◌, ◌++◌, Option, none, some, ◌≡◌, refl,
  if◌then◌else◌,
}
use trokk.Text.{Str, str, str_eq, trim, truthy}
use trokk.Ui.{Item, heading, text, link, end_link, button, field, each}

-- What the program takes from the browser: `encodeURIComponent`, which throws on a lone surrogate,
-- and the parameter `q` of an address, as `useSearchParams().get("q")` reads it.
pub record Url : Type 0 where
  pub encode : Str → Option Str
  pub get_q : Str → Option Str
  pub get_q-encode : (s e : Str) → encode s ≡ some e → get_q (str "/dashboard?q=" ++ e) ≡ some s

pub record Template : Type 0 where
  pub id : Str
  pub label : Str
  pub placeholder : Str

abbrev template : Str → Str → Str → Template
template i l p = record { id = i; label = l; placeholder = p }

unfoldable pub templates : List Template
templates =
    template (str "company") (str "Company Research")
      (str "Research a company's products, team, market position, and competitors...")
    ∷ template (str "startup") (str "Startup Due Diligence")
        (str "Evaluate a startup's funding, team, traction, and market opportunity...")
    ∷ template (str "crypto") (str "Crypto Analysis")
        (str "Analyze a token's tokenomics, on-chain metrics, and protocol security...")
    ∷ template (str "security") (str "Security Investigation")
        (str "Investigate a domain, IP, or security incident...")
    ∷ template (str "competitor") (str "Competitor Analysis")
        (str "Compare features, pricing, and market positioning between competitors...")
    ∷ []

pub record Landing : Type 0 where
  pub question : Str
  pub loading : Bool

unfoldable pub init : Landing
init = record { question = []; loading = false }

-- The `onChange` of the text area.
unfoldable pub set_question : Str → Landing → Landing
set_question q p = record p { question = q }

-- `router.push` of `/dashboard?q=…`, or nothing if the encoding throws.
abbrev pub push : Option Str → Option Str
push none = none
push (some e) = some (str "/dashboard?q=" ++ e)

module _ (url : Url) where
  -- The page after `handleSubmit`, and the address that it pushes.
  unfoldable pub handle_submit : Landing → Landing × Option Str
  handle_submit p =
      if truthy (trim p.question)
      then (record p { loading = true }, push (url.encode (trim p.question)))
      else (p, none)

  unfoldable pub pick_template : Str → Option Str
  pick_template placeholder = push (url.encode placeholder)

  -- The handler of the text area's keys.
  unfoldable pub handle_key_down : Str → Bool → Landing → Landing × Option Str
  unfolding handle_submit
  handle_key_down key shift p =
      if str_eq key (str "Enter") && not shift then handle_submit p else (p, none)

unfoldable pub page_items : Landing → List Item
unfolding templates
page_items p =
    text (str "Trokk")
    ∷ link (str "/investigations")
    ∷ text (str "Investigations →")
    ∷ end_link
    ∷ heading (str "One Question. Many Expert Agents.")
    ∷ text (str "Evidence. Reasoning. Consensus.")
    ∷ field (str "What do you want to investigate?") p.question false
    ∷ button (if p.loading then str "Starting..." else str "Investigate →")
        (not (truthy (trim p.question)) || p.loading)
    ∷ text (str "Investigation Templates")
    ∷ (each (λ t. button t.label false ∷ []) templates
        ++ (text (str "Trokk — AI Intelligence Operating System") ∷ []))
