-- ===== src/Pages/Metrics.antt =====
-- ferr/src/app/metrics/page.tsx: the figures that the page derives from the messages.
pub mod Laws
pub mod View
pub mod Hours
use trokk.Prelude.{
  ℕ, zero, suc, ◌+◌, Bool, List, [], ◌∷◌, Option, none, some, if◌then◌else◌, find, map, max, take,
  ◌==◌,
}
use trokk.Sort.{sort_down}
use trokk.Text.{Str, str, str_eq}
use trokk.Types.{Agent, MessageResponse}
use trokk.Types.Domains.{domain_color}
use trokk.Runtime.{Dates}
use trokk.Mock.{is_agent}

pub record Bar : Type 0 where
  pub name : Str
  pub color : Str
  pub count : ℕ

-- An entry of the `Map`, which keeps the order of insertion.
pub record Entry : Type 0 where
  pub key : Str
  pub bar : Bar

-- `agent?.display_name ?? m.agent_username`, `domainColor(agent?.personality.domain ?? "")`
abbrev bar_name : Option Agent → MessageResponse → Str
bar_name none m = m.agent_username
bar_name (some a) m = a.display_name

abbrev bar_color : Option Agent → Str
bar_color none = domain_color (str "")
bar_color (some a) = domain_color a.personality.domain

abbrev new_bar : List Agent → MessageResponse → ℕ → Bar
new_bar agents m n = record {
  name = bar_name (find (is_agent m.agent_id) agents) m;
  color = bar_color (find (is_agent m.agent_id) agents);
  count = n;
}

module _ (agents : List Agent) (count : MessageResponse → ℕ) where
  -- The body of the `forEach`: add to the author's entry, or set a new one.
  pub add_message : MessageResponse → List Entry → List Entry
  add_message m [] = record { key = m.agent_id; bar = new_bar agents m (count m) } ∷ []
  add_message m (e ∷ es) =
      if str_eq e.key m.agent_id
      then record e { bar = record e.bar { count = e.bar.count + count m } } ∷ es
      else e ∷ add_message m es

  pub tally_from : List Entry → List MessageResponse → List Entry
  tally_from es [] = es
  tally_from es (m ∷ ms) = tally_from (add_message m es) ms

  unfoldable pub tally : List MessageResponse → List Entry
  unfolding tally_from add_message
  tally messages = tally_from [] messages

  -- `Array.from(map.values()).sort((a, b) => b.count - a.count).slice(0, 8)`
  unfoldable pub top : List MessageResponse → List Bar
  unfolding tally
  top messages = take 8 (sort_down (λ b. b.count) (map (λ e. e.bar) (tally messages)))

unfoldable pub top_endorsed : List Agent → List MessageResponse → List Bar
unfolding top
top_endorsed agents messages = top agents (λ m. m.endorsement_count) messages

unfoldable pub top_propagated : List Agent → List MessageResponse → List Bar
unfolding top
top_propagated agents messages = top agents (λ m. m.propagation_count) messages

-- `hours.get(hour) ?? 0` and `hours.set(hour, …)`, in a map of numbers as a list of pairs
pub get_hour : ℕ → List (ℕ × ℕ) → ℕ
get_hour h [] = 0
get_hour h ((k, n) ∷ hs) = if k == h then n else get_hour h hs

pub set_hour : ℕ → ℕ → List (ℕ × ℕ) → List (ℕ × ℕ)
set_hour h n [] = (h, n) ∷ []
set_hour h n ((k, m) ∷ hs) = if k == h then (k, n) ∷ hs else (k, m) ∷ set_hour h n hs

pub count_hours : Dates → List (ℕ × ℕ) → List MessageResponse → List (ℕ × ℕ)
count_hours d hs [] = hs
count_hours d hs (m ∷ ms) =
    let hour = d.get_hours m.created_at in
    count_hours d (set_hour hour (get_hour hour hs + 1) hs) ms

-- `Array.from({ length: 24 }, (_, i) => hours.get(i) ?? 0)`, from the hour `i` on
pub bars_from : ℕ → ℕ → List (ℕ × ℕ) → List ℕ
bars_from i zero hs = []
bars_from i (suc n) hs = get_hour i hs ∷ bars_from (suc i) n hs

unfoldable pub messages_by_hour : Dates → List MessageResponse → List ℕ
unfolding bars_from count_hours get_hour set_hour
messages_by_hour d messages = bars_from 0 24 (count_hours d [] messages)

-- `Math.max(1, ...counts)`
unfoldable pub max_bar : List ℕ → ℕ
max_bar [] = 1
max_bar (n ∷ ns) = max n (max_bar ns)
