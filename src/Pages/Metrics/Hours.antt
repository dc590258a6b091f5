-- ===== src/Pages/Metrics/Hours.antt =====
-- The activity by hour of ferr/src/app/metrics/page.tsx.
use trokk.Prelude.{
  ℕ, zero, suc, ◌+◌, ◌≤◌, ◌<◌, ◌≡◌, refl, ◌∙◌, ap, Bool, ◌&&◌, List, [], ◌∷◌, if◌then◌else◌, ◌==◌,
  leb, ltb, length, sum_by, filter, All, arith, get_elem?, some,
}
use trokk.Types.{MessageResponse}
use trokk.Runtime.{Dates}
use trokk.Pages.Metrics.{get_hour, set_hour, count_hours, bars_from, messages_by_hour, max_bar}

get_hour-set_hour :
    (h k n : ℕ) (hs : List (ℕ × ℕ))
    → get_hour h (set_hour k n hs) ≡ (if k == h then n else get_hour h hs)
unfolding get_hour set_hour
get_hour-set_hour h k n [] = refl
get_hour-set_hour h k n ((j, m) ∷ hs) = ground (arith, get_hour-set_hour h k n hs)

abbrev pub at_hour : Dates → ℕ → MessageResponse → Bool
at_hour d h m = d.get_hours m.created_at == h

get_hour-count_hours :
    (d : Dates) (h : ℕ) (hs : List (ℕ × ℕ)) (ms : List MessageResponse)
    → get_hour h (count_hours d hs ms) ≡ get_hour h hs + length (filter (at_hour d h) ms)
unfolding count_hours
get_hour-count_hours d h hs [] = omega arith
get_hour-count_hours d h hs (m ∷ ms) =
    let k = d.get_hours m.created_at in
    ground (
      arith,
      get_hour-count_hours d h (set_hour k (get_hour k hs + 1) hs) ms,
      get_hour-set_hour h k (get_hour k hs + 1) hs,
    )

-- The sum over a range of hours grows by one when one of them is counted.
sum-bars_from :
    (i n k : ℕ) (hs : List (ℕ × ℕ))
    → sum_by (λ c. c) (bars_from i n (set_hour k (get_hour k hs + 1) hs))
      ≡ sum_by (λ c. c) (bars_from i n hs) + (if leb i k && ltb k (i + n) then 1 else 0)
unfolding bars_from
sum-bars_from i zero k hs = ground arith
sum-bars_from i (suc n) k hs =
    ground (arith, sum-bars_from (suc i) n k hs, get_hour-set_hour i k (get_hour k hs + 1) hs)

-- The message has an hour: the text of its time is a date.
abbrev pub has_hour : Dates → MessageResponse → Bool
has_hour d m = ltb (d.get_hours m.created_at) 24

sum-count_hours :
    (d : Dates) (hs : List (ℕ × ℕ)) (ms : List MessageResponse)
    → sum_by (λ c. c) (bars_from 0 24 (count_hours d hs ms))
      ≡ sum_by (λ c. c) (bars_from 0 24 hs) + length (filter (has_hour d) ms)
unfolding count_hours
sum-count_hours d hs [] = omega arith
sum-count_hours d hs (m ∷ ms) =
    let k = d.get_hours m.created_at in
    ground
      (arith, sum-count_hours d (set_hour k (get_hour k hs + 1) hs) ms, sum-bars_from 0 24 k hs)

get_elem?-bars_from :
    (i n h : ℕ) (hs : List (ℕ × ℕ))
    → h < n
    → get_elem? (bars_from i n hs) h ≡ some (get_hour (i + h) hs)
unfolding bars_from
get_elem?-bars_from i zero h hs lt = elim lt [ ]
get_elem?-bars_from i (suc n) zero hs lt = ground arith
get_elem?-bars_from i (suc n) (suc h) hs lt =
    ground (arith, get_elem?-bars_from (suc i) n h hs, shifted)
  where
    shifted : get_hour (suc i + h) hs ≡ get_hour (i + suc h) hs
    shifted = λ j. get_hour (same j) hs
      where
        same : suc i + h ≡ i + suc h
        same = omega arith

le-max_bar : (ns : List ℕ) (k : ℕ) → max_bar ns ≤ k → All (λ n. n ≤ k) ns
unfolding max_bar
le-max_bar [] k h = tt
le-max_bar (n ∷ ns) k h = (omega arith, le-max_bar ns k (omega arith))

max_bar_pos : (ns : List ℕ) → 1 ≤ max_bar ns
unfolding max_bar
max_bar_pos [] = omega arith
max_bar_pos (n ∷ ns) = omega (arith, max_bar_pos ns)

counted_hour :
    (d : Dates) (messages : List MessageResponse) (h : ℕ)
    → get_hour (0 + h) (count_hours d [] messages) ≡ length (filter (at_hour d h) messages)
unfolding get_hour
counted_hour d messages h =
    ap (λ k. get_hour k (count_hours d [] messages)) (omega arith)
    ∙ get_hour-count_hours d h [] messages
    ∙ omega arith

no_hours : sum_by (λ c. c) (bars_from 0 24 []) ≡ 0
unfolding bars_from get_hour
no_hours = refl

-- Each of the hours 0 to 23 has a bar that counts the messages of that hour, all of the bars
-- together count the messages whose time is a valid date, and no bar is larger than the maximum by
-- which the page divides, which is not zero.
pub messages_by_hour_counts :
    (d : Dates) (messages : List MessageResponse) (h : ℕ)
    → h < 24
    → (get_elem? (messages_by_hour d messages) h ≡ some (length (filter (at_hour d h) messages)))
      × (sum_by (λ c. c) (messages_by_hour d messages) ≡ length (filter (has_hour d) messages))
      × All (λ c. c ≤ max_bar (messages_by_hour d messages)) (messages_by_hour d messages)
      × (1 ≤ max_bar (messages_by_hour d messages))
unfolding messages_by_hour
messages_by_hour_counts d messages h lt = (
  get_elem?-bars_from 0 24 h _ lt ∙ ap some (counted_hour d messages h),
  sum-count_hours d [] messages ∙ omega (arith, no_hours),
  le-max_bar (messages_by_hour d messages) (max_bar (messages_by_hour d messages)) (omega arith),
  max_bar_pos _,
)
