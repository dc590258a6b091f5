-- ===== src/Service/Messages/Reactions.antt =====
-- Endorsements and propagations through the service functions, over the mock backend.
use trokk.Prelude.{
  ℕ, ◌+◌, ◌≡◌, refl, ◌∙◌, ap, Bool, true, List, [], ◌∷◌, ◌++◌, some, length, find, find_sound,
  filter, update_first, sum_by, arith, if◌then◌else◌, ◌&&◌,
}
use trokk.Text.{Str, str, str_eq_iff}
use trokk.Types.{MessageResponse}
use trokk.Http.{Method, undefined, ok}
use trokk.Mock.{Store, is_message, by_agent, has_parent, get_agent_stats}
use trokk.Mock.Paths.{IsSegment}
use trokk.Mock.Calls.{post_endorse-call, post_propagate-call, get_message-call}
use trokk.Mock.Routes.Messages.{endorse, propagate, answers}
use trokk.Client.{Env}
use trokk.Service.{
  reading, as_endorsement, as_propagation, as_message_detail, get_message, endorse_message,
  propagate_message,
}
use trokk.Service.Laws.{IsMock, request-mock}

module _ (p q : MessageResponse → Bool) (f : MessageResponse → MessageResponse)
    (same : (m : MessageResponse) → p (f m) ≡ p m) where
  -- What the update of one element adds to a sum over the elements that pass a test.
  sum-update_first :
      (g : MessageResponse → ℕ) (k : ℕ) (ms : List MessageResponse) (m : MessageResponse)
      → ((x : MessageResponse) → g (f x) ≡ g x + k)
      → find q ms ≡ some m
      → sum_by g (filter p (update_first q f ms)) ≡ sum_by g (filter p ms) + (if p m then k else 0)
  sum-update_first g k [] m up h = ground arith
  sum-update_first g k (x ∷ ms) m up h = ground (arith, sum-update_first g k ms m up, same x, up x)

  length-filter-update_first :
      (ms : List MessageResponse) → length (filter p (update_first q f ms)) ≡ length (filter p ms)
  length-filter-update_first [] = refl
  length-filter-update_first (x ∷ ms) = ground (arith, length-filter-update_first ms, same x)

module _ (f : MessageResponse → MessageResponse)
    (same : (m : MessageResponse) → (f m).id ≡ m.id) where
  find-update_first_self :
      (id : Str) (ms : List MessageResponse) (m : MessageResponse)
      → find (is_message id) ms ≡ some m
      → find (is_message id) (update_first (is_message id) f ms) ≡ some (f m)
  find-update_first_self id [] m h = ground arith
  find-update_first_self id (x ∷ ms) m h = ground (arith, find-update_first_self id ms m, same x)

found_id :
    (id : Str) (ms : List MessageResponse) (m : MessageResponse)
    → find (is_message id) ms ≡ some m
    → m.id ≡ id
found_id id ms m h = (str_eq_iff m.id id).0 (find_sound (is_message id) ms h)

get_message-mock :
    (e : Env) (id : Str) (s : Store) (m : MessageResponse)
    → IsMock e
    → IsSegment id
    → find (is_message id) s.messages ≡ some m
    → m.id ≡ id
    → get_message e id s
      ≡ (ok (record { message = m; responses = filter (answers id) s.messages }), s)
unfolding get_message
get_message-mock e id s m h seg found same =
    ap (reading as_message_detail) (
      request-mock e Method.get (str "/messages/" ++ id) undefined s h
      ∙ get_message-call e.dates e.world undefined s id seg)
    ∙ rw (found, same)

endorse-stats :
    (id a : Str) (ms : List MessageResponse) (m : MessageResponse)
    → find (is_message id) ms ≡ some m
    → get_agent_stats a (update_first (is_message id) endorse ms) ≡ (
        let old = get_agent_stats a ms in
        record old {
          endorsements_received = old.endorsements_received + (if by_agent a m then 1 else 0);
        })
unfolding get_agent_stats
endorse-stats id a ms m h = ground (
  arith,
  sum-update_first (by_agent a) (is_message id) endorse (λ _. refl) (λ k. k.endorsement_count) 1 ms
      m (λ _. refl) h,
  sum-update_first (by_agent a) (is_message id) endorse (λ _. refl) (λ k. k.propagation_count) 0 ms
      m (λ _. omega arith) h,
  length-filter-update_first (by_agent a) (is_message id) endorse (λ _. refl) ms,
  length-filter-update_first (λ k. has_parent k && by_agent a k) (is_message id) endorse (λ _. refl)
      ms,
)

-- In mock mode, for an identifier that a path can carry, endorsing a message that the store has
-- answers with its endorsement count plus one;
-- reading the message back gives it with that count; and of the statistics of any agent only the
-- endorsements received change, by one, and only for the message's author.
pub get_message-endorse_message :
    (e : Env) (id a : Str) (s : Store) (m : MessageResponse)
    → IsMock e
    → IsSegment id
    → find (is_message id) s.messages ≡ some m
    → let t = record s { messages = update_first (is_message id) endorse s.messages } in
      (endorse_message e id s
        ≡ (ok (record { endorsed = true; endorsement_count = m.endorsement_count + 1 }), t))
      × (get_message e id t
          ≡ (ok (record { message = endorse m; responses = filter (answers id) t.messages }), t))
      × (get_agent_stats a t.messages ≡ (
          let old = get_agent_stats a s.messages in
          record old {
            endorsements_received = old.endorsements_received + (if by_agent a m then 1 else 0);
          }))
unfolding endorse_message
get_message-endorse_message e id a s m h seg found = (
  ap (reading as_endorsement) (
        request-mock e Method.post (str "/messages/" ++ (id ++ str "/endorse")) undefined s h
        ∙ post_endorse-call e.dates e.world undefined s id seg)
      ∙ rw found,
  get_message-mock e id _ (endorse m) h seg
      (find-update_first_self endorse (λ _. refl) id s.messages m found)
      (found_id id s.messages m found),
  endorse-stats id a s.messages m found,
)

propagate-stats :
    (id a : Str) (ms : List MessageResponse) (m : MessageResponse)
    → find (is_message id) ms ≡ some m
    → get_agent_stats a (update_first (is_message id) propagate ms) ≡ (
        let old = get_agent_stats a ms in
        record old {
          propagations_received = old.propagations_received + (if by_agent a m then 1 else 0);
        })
unfolding get_agent_stats
propagate-stats id a ms m h = ground (
  arith,
  sum-update_first (by_agent a) (is_message id) propagate (λ _. refl) (λ k. k.endorsement_count) 0
      ms m (λ _. omega arith) h,
  sum-update_first (by_agent a) (is_message id) propagate (λ _. refl) (λ k. k.propagation_count) 1
      ms m (λ _. refl) h,
  length-filter-update_first (by_agent a) (is_message id) propagate (λ _. refl) ms,
  length-filter-update_first (λ k. has_parent k && by_agent a k) (is_message id) propagate
      (λ _. refl) ms,
)

-- In mock mode, for an identifier that a path can carry, propagating a message that the store has
-- answers with its propagation count plus one;
-- reading the message back gives it with that count; and of the statistics of any agent only the
-- propagations received change, by one, and only for the message's author.
get_message-propagate_message :
    (e : Env) (id a : Str) (s : Store) (m : MessageResponse)
    → IsMock e
    → IsSegment id
    → find (is_message id) s.messages ≡ some m
    → let t = record s { messages = update_first (is_message id) propagate s.messages } in
      (propagate_message e id s
        ≡ (ok (record { propagated = true; propagation_count = m.propagation_count + 1 }), t))
      × (get_message e id t
          ≡ (ok (record { message = propagate m; responses = filter (answers id) t.messages }), t))
      × (get_agent_stats a t.messages ≡ (
          let old = get_agent_stats a s.messages in
          record old {
            propagations_received = old.propagations_received + (if by_agent a m then 1 else 0);
          }))
unfolding propagate_message
get_message-propagate_message e id a s m h seg found = (
  ap (reading as_propagation) (
        request-mock e Method.post (str "/messages/" ++ (id ++ str "/propagate")) undefined s h
        ∙ post_propagate-call e.dates e.world undefined s id seg)
      ∙ rw found,
  get_message-mock e id _ (propagate m) h seg
      (find-update_first_self propagate (λ _. refl) id s.messages m found)
      (found_id id s.messages m found),
  propagate-stats id a s.messages m found,
)
