-- ===== src/Pages/Stream.antt =====
-- ferr/src/app/stream/page.tsx: the message stream's filter, its counter of new messages and the
-- message that is expanded.
pub mod Laws
pub mod View
pub mod Live
pub mod Counter
use trokk.Prelude.{
  ℕ, ◌+◌, ◌-◌, Bool, true, false, ◌&&◌, not, List, [], ◌∷◌, Option, none, some, filter, ltb,
  if◌then◌else◌,
}
use trokk.Text.{Str, str_eq, truthy}
use trokk.Types.{MessageResponse}
use trokk.Mock.{by_agent}

-- `prev_len` is the ref `prevLen`.
pub record Stream : Type 0 where
  pub filter_agent_id : Str
  pub expanded_id : Option Str
  pub new_count : ℕ
  pub auto_scroll : Bool
  pub prev_len : ℕ

-- At the first render, with the messages that there are.
unfoldable pub init : ℕ → Stream
init messages_length = record {
  filter_agent_id = [];
  expanded_id = none;
  new_count = 0;
  auto_scroll = true;
  prev_len = messages_length;
}

unfoldable pub filtered_messages : List MessageResponse → Stream → List MessageResponse
filtered_messages messages p =
    if truthy p.filter_agent_id then filter (by_agent p.filter_agent_id) messages else messages

-- The `onChange` of the filter.
unfoldable pub set_filter : Str → Stream → Stream
set_filter id p = record p { filter_agent_id = id }

-- The observer of the element at the end, which is there if there is more: `load` is `loadMore`.
unfoldable pub sentinel {ℓ} : {M : Type ℓ} → (M → M) → (M → Bool) → Bool → M → M
sentinel load has_more is_intersecting v = if has_more v && is_intersecting then load v else v

-- The effect on `messages.length` and `autoScroll`.
unfoldable pub length_effect : ℕ → Stream → Stream
length_effect messages_length p =
    if ltb p.prev_len messages_length && not p.auto_scroll
    then record p {
      new_count = p.new_count + (messages_length - p.prev_len);
      prev_len = messages_length;
    }
    else record p { prev_len = messages_length }

-- The button "Auto-scroll".
unfoldable pub toggle_auto_scroll : Stream → Stream
toggle_auto_scroll p = record p { auto_scroll = not p.auto_scroll }

-- The button of the new messages.
unfoldable pub reset_new_count : Stream → Stream
reset_new_count p = record p { new_count = 0 }

abbrev pub is_expanded : Option Str → Str → Bool
is_expanded none id = false
is_expanded (some expanded) id = str_eq expanded id

-- `onToggleExpand`
unfoldable pub toggle_expand : Str → Stream → Stream
toggle_expand id p = record p {
  expanded_id = if is_expanded p.expanded_id id then none else some id;
}

-- The effect at each length in turn.
unfoldable pub lengths_seen : List ℕ → Stream → Stream
unfolding length_effect
lengths_seen [] p = p
lengths_seen (n ∷ ns) p = lengths_seen ns (length_effect n p)
