-- ===== src/Pages/Metrics/View.antt =====
-- ferr/src/app/metrics/page.tsx: what the metrics page shows. `print` is `JSON.stringify`.
use trokk.Prelude.{ℕ, suc, false, List, [], ◌∷◌, ◌++◌, map, max, take, length}
use trokk.Text.{Str, str}
use trokk.Text.Digits.{decimal}
use trokk.Types.{Agent, MessageResponse}
use trokk.Runtime.{Dates}
use trokk.Ui.{Item, heading, text, icon, swatch, button, bar, show_if, each, is_empty}
use trokk.Pages.Metrics.{Bar, top_endorsed, top_propagated, messages_by_hour, max_bar}

-- `Math.max(1, ...bars.map((b) => b.count))`
abbrev pub max_count : List Bar → ℕ
max_count bars = max_bar (map (λ b. b.count) bars)

-- `Math.max(...counts)` of 24 counts
abbrev pub peak : List ℕ → ℕ
peak [] = 0
peak (n ∷ ns) = max n (peak ns)

-- The columns of the hours from `hour` on. `bar` has the height as a part of `max_bar`.
abbrev pub hour_items : ℕ → ℕ → List ℕ → List Item
hour_items highest hour [] = []
hour_items highest hour (n ∷ ns) =
    bar n highest ∷ text (decimal hour) ∷ hour_items highest (suc hour) ns

abbrev pub bar_items : ℕ → Bar → List Item
bar_items highest b =
    text b.name ∷ text (decimal b.count) ∷ bar b.count highest ∷ swatch b.color ∷ []

abbrev pub distribution_items : Str → Str → List Bar → List Item
distribution_items title nothing bars =
    (heading title ∷ each (bar_items (max_count bars)) bars)
    ++ show_if (is_empty bars) (text nothing ∷ [])

unfoldable pub page_items :
    Dates → (List MessageResponse → Str) → List Agent → List MessageResponse → List Item
unfolding top_endorsed top_propagated messages_by_hour max_bar
page_items d print agents messages =
    let hours = messages_by_hour d messages in
    (heading (str "Metrics & Analysis")
      ∷ text (str "Post-experiment analysis and data exploration")
      ∷ icon (str "export")
      ∷ button (str "Export JSON") false
      ∷ heading (str "Activity Heatmap (Messages by Hour)")
      ∷ hour_items (max_bar hours) 0 hours)
    ++ (text (str "Total: " ++ decimal (length messages) ++ str " messages")
        ∷ text (str "Peak: " ++ decimal (peak hours) ++ str " at hour")
        ∷ [])
    ++ distribution_items (str "Endorsement Distribution") (str "No endorsement data yet")
        (top_endorsed agents messages)
    ++ distribution_items (str "Propagation Distribution") (str "No propagation data yet")
        (top_propagated agents messages)
    ++ (heading (str "Raw Log Viewer")
        ∷ text (decimal (length messages) ++ str " entries")
        ∷ text (print (take 50 messages))
        ∷ [])
