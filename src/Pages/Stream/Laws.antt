-- ===== src/Pages/Stream/Laws.antt =====
-- The counter of the stream page.
use trokk.Prelude.{ℕ, ◌+◌, ◌≤◌, ◌≡◌, refl, sym, ap, ◌∙◌, subst, false, List, [], ◌∷◌, arith}
use trokk.Pages.Stream.{Stream, length_effect, lengths_seen}

-- The lengths never fall, from `n` on; and the last of them.
IsRising : ℕ → List ℕ → Type 0
IsRising n [] = Unit
IsRising n (m ∷ ms) = (n ≤ m) × IsRising m ms

last_of : ℕ → List ℕ → ℕ
last_of n [] = n
last_of n (m ∷ ms) = last_of m ms

length_effect-off :
    (n : ℕ) (p : Stream)
    → p.auto_scroll ≡ false
    → p.prev_len ≤ n
    → ((length_effect n p).new_count + p.prev_len ≡ p.new_count + n)
      × ((length_effect n p).prev_len ≡ n)
      × ((length_effect n p).auto_scroll ≡ false)
unfolding length_effect
length_effect-off n p off h = ground arith

-- With auto-scroll off, while the list of messages does not shrink, the counter grows by exactly
-- the number of messages that were added since the last length seen, which becomes the new one.
lengths_seen-new_count :
    (ns : List ℕ) (p : Stream)
    → p.auto_scroll ≡ false
    → IsRising p.prev_len ns
    → ((lengths_seen ns p).new_count + p.prev_len ≡ p.new_count + last_of p.prev_len ns)
      × ((lengths_seen ns p).prev_len ≡ last_of p.prev_len ns)
unfolding lengths_seen IsRising last_of
lengths_seen-new_count [] p off h = (refl, refl)
lengths_seen-new_count (n ∷ ns) p off h =
    let now = length_effect-off n p off h.0 in
    let q = length_effect n p in
    let rest = lengths_seen-new_count ns q now.2 (subst (λ k. IsRising k ns) (sym now.1) h.1) in
    let same = ap (λ k. last_of k ns) now.1 in
    (omega (arith, rest.0, now.0, now.1, same), rest.1 ∙ same)
