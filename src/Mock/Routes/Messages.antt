-- ===== src/Mock/Routes/Messages.antt =====
-- ferr/src/lib/api/mock.ts: the routes of `/messages`.
use trokk.Prelude.{
  ℕ, ◌+◌, Bool, true, false, ◌&&◌, List, Option, none, some, if◌then◌else◌, length, find, filter,
  update_first, take, get_elem?, ltb,
}
use trokk.Text.{Str, str, str_eq}
use trokk.Sort.{sort_down}
use trokk.Types.{MessageResponse, CursorPaginatedMessages}
use trokk.Runtime.{Dates}
use trokk.Http.{Method, method_eq, message_page, message_detail, endorsement, propagation}
use trokk.Mock.{Store, is_message}
use trokk.Mock.Paths.{match_rest, match_between}
use trokk.Mock.Routes.Agents.{Reply, respond, not_found, when, on_match}

abbrev pub time_of : Dates → MessageResponse → ℕ
time_of d m = d.get_time m.created_at

abbrev pub id_at : ℕ → List MessageResponse → Option Str
id_at i ms = elim (get_elem? ms i) [ none ↦ none | some m ↦ some m.id ]

unfoldable pub first_page : List MessageResponse → CursorPaginatedMessages
first_page sorted = record {
  messages = take 20 sorted;
  next_cursor = if ltb 20 (length sorted) then id_at 19 sorted else none;
  has_more = ltb 20 (length sorted);
}

unfoldable pub get_messages : Dates → Method → Str → Store → Option Reply
unfolding first_page
get_messages d m path s =
    when (method_eq m Method.get && str_eq path (str "/messages"))
      (some (respond (message_page (first_page (sort_down (time_of d) s.messages))) 200 s))

-- `m.parent_msg_id === message.id`
abbrev pub answers : Str → MessageResponse → Bool
answers id m = elim m.parent_msg_id [ none ↦ false | some parent ↦ str_eq parent id ]

abbrev pub message_found : Store → Option MessageResponse → Reply
message_found s none = not_found (str "Message not found") s
message_found s (some m) =
    respond (message_detail (record { message = m; responses = filter (answers m.id) s.messages }))
      200 s

unfoldable pub get_message : Method → Str → Store → Option Reply
get_message m path s = when (method_eq m Method.get) (
    on_match (match_rest (str "/messages/") path)
      (λ id. message_found s (find (is_message id) s.messages)))

abbrev pub endorse : MessageResponse → MessageResponse
endorse m = record m { endorsement_count = m.endorsement_count + 1 }

abbrev pub endorse_found : Str → Store → Option MessageResponse → Reply
endorse_found id s none = not_found (str "Message not found") s
endorse_found id s (some m) =
    respond (endorsement (record { endorsed = true; endorsement_count = m.endorsement_count + 1 }))
      200 (record s { messages = update_first (is_message id) endorse s.messages })

unfoldable pub post_endorse : Method → Str → Store → Option Reply
post_endorse m path s = when (method_eq m Method.post) (
    on_match (match_between (str "/messages/") (str "/endorse") path)
      (λ id. endorse_found id s (find (is_message id) s.messages)))

abbrev pub propagate : MessageResponse → MessageResponse
propagate m = record m { propagation_count = m.propagation_count + 1 }

abbrev pub propagate_found : Str → Store → Option MessageResponse → Reply
propagate_found id s none = not_found (str "Message not found") s
propagate_found id s (some m) =
    respond
      (propagation (record { propagated = true; propagation_count = m.propagation_count + 1 })) 200
      (record s { messages = update_first (is_message id) propagate s.messages })

unfoldable pub post_propagate : Method → Str → Store → Option Reply
post_propagate m path s = when (method_eq m Method.post) (
    on_match (match_between (str "/messages/") (str "/propagate") path)
      (λ id. propagate_found id s (find (is_message id) s.messages)))
