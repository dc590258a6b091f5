-- ===== src/Pages/Metrics/Laws.antt =====
-- What the figures of ferr/src/app/metrics/page.tsx count.
use trokk.Prelude.{
  ℕ, ◌+◌, ◌≡◌, refl, ◌∙◌, ap, Bool, true, false, List, [], ◌∷◌, ◌++◌, if◌then◌else◌, map, min,
  length, length-take, length-map, sum_by, filter, arith,
}
use mathlib.Core.List.{Perm}
use trokk.Sort.{
  sort_down, IsDown, sort_down-IsDown, sort_down-perm, length-sort_down, drop, take-append-drop,
}
use trokk.Text.{Str, str_eq, str_eq_iff}
use trokk.Types.{Agent, MessageResponse}
use trokk.Mock.{by_agent}
use trokk.Pages.Metrics.{Bar, Entry, add_message, tally_from, tally, top}

-- The count of an agent's entry, 0 if it has none.
abbrev pub count_of : Str → List Entry → ℕ
count_of id [] = 0
count_of id (e ∷ es) = if str_eq e.key id then e.bar.count else count_of id es

abbrev pub has_key : Str → List Entry → Bool
has_key id [] = false
has_key id (e ∷ es) = if str_eq e.key id then true else has_key id es

abbrev pub HasDistinctKeys : List Entry → Type 0
HasDistinctKeys [] = Unit
HasDistinctKeys (e ∷ es) = (has_key e.key es ≡ false) × HasDistinctKeys es

abbrev pub total : List Entry → ℕ
total = sum_by (λ e. e.bar.count)

module _ (agents : List Agent) (count : MessageResponse → ℕ) where
  count_of-add_message :
      (id : Str) (m : MessageResponse) (es : List Entry)
      → count_of id (add_message agents count m es)
        ≡ count_of id es + (if by_agent id m then count m else 0)
  unfolding add_message
  count_of-add_message id m [] = ground arith
  count_of-add_message id m (e ∷ es) = ground (
    arith,
    count_of-add_message id m es,
    str_eq_iff e.key id,
    str_eq_iff e.key m.agent_id,
    str_eq_iff m.agent_id id,
  )

  total-add_message :
      (m : MessageResponse) (es : List Entry)
      → total (add_message agents count m es) ≡ total es + count m
  unfolding add_message
  total-add_message m [] = ground arith
  total-add_message m (e ∷ es) = ground (arith, total-add_message m es)

  has_key-add_message :
      (id : Str) (m : MessageResponse) (es : List Entry)
      → has_key id es ≡ false
      → str_eq m.agent_id id ≡ false
      → has_key id (add_message agents count m es) ≡ false
  unfolding add_message
  has_key-add_message id m [] h k = ground arith
  has_key-add_message id m (e ∷ es) h k = ground (arith, has_key-add_message id m es)

  add_message-HasDistinctKeys :
      (m : MessageResponse) (es : List Entry)
      → HasDistinctKeys es
      → HasDistinctKeys (add_message agents count m es)
  unfolding add_message
  add_message-HasDistinctKeys m [] h = (refl, tt)
  add_message-HasDistinctKeys m (e ∷ es) h = ground (
    arith,
    add_message-HasDistinctKeys m es h.1,
    has_key-add_message e.key m es h.0,
    str_eq_iff e.key m.agent_id,
    str_eq_iff m.agent_id e.key,
  )

  tally_from-lem :
      (id : Str) (es : List Entry) (ms : List MessageResponse)
      → HasDistinctKeys es
      → (count_of id (tally_from agents count es ms)
          ≡ count_of id es + sum_by count (filter (by_agent id) ms))
        × (total (tally_from agents count es ms) ≡ total es + sum_by count ms)
        × HasDistinctKeys (tally_from agents count es ms)
  unfolding tally_from
  tally_from-lem id es [] h = (omega arith, omega arith, h)
  tally_from-lem id es (m ∷ ms) h =
      let (c, t, d) =
        tally_from-lem id (add_message agents count m es) ms (add_message-HasDistinctKeys m es h) in
      (ground (arith, c, count_of-add_message id m es), omega (arith, t, total-add_message m es), d)

  -- The tally has one entry for an agent at most, whose count is the sum over that agent's messages,
  -- and all of the counts together are the sum over all of the messages.
  pub tally_counts :
      (id : Str) (messages : List MessageResponse)
      → HasDistinctKeys (tally agents count messages)
        × (count_of id (tally agents count messages) ≡ sum_by count (filter (by_agent id) messages))
        × (total (tally agents count messages) ≡ sum_by count messages)
  unfolding tally
  tally_counts id messages =
      let (c, t, d) = tally_from-lem id [] messages tt in (d, omega (arith, c), omega (arith, t))

  -- The page shows at most eight bars, by falling count, and none that is left out has a larger
  -- count: with the bars left out they are a permutation of the tally's in order.
  pub top-IsDown :
      (messages : List MessageResponse)
      → (rest : List Bar) × Perm
          (top agents count messages ++ rest)
          (map (λ e. e.bar) (tally agents count messages))
        × IsDown (λ b. b.count) (top agents count messages ++ rest)
        × (length (top agents count messages) ≡ min 8 (length (tally agents count messages)))
  unfolding top
  top-IsDown messages =
      let bars = map (λ e. e.bar) (tally agents count messages) in
      let sorted = sort_down (λ b. b.count) bars in
      (
        drop 8 sorted,
        rw (take-append-drop 8 sorted) (sort_down-perm (λ b. b.count) bars),
        rw (take-append-drop 8 sorted) (sort_down-IsDown (λ b. b.count) bars),
        length-take 8 sorted
            ∙ ap (min 8) (
                length-sort_down (λ b. b.count) bars
                ∙ length-map (λ e. e.bar) (tally agents count messages)),
      )
