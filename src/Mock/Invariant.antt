-- ===== src/Mock/Invariant.antt =====
-- What holds of the mock's store between two requests.
use trokk.Prelude.{
  ℕ, zero, suc, ◌+◌, ◌<◌, ◌≤◌, ◌⊎◌, ◌≡◌, ◌≢◌, refl, sym, subst, ◌∙◌, ap, Bool, true, false, ◌||◌,
  List, [], ◌∷◌, ◌++◌, none, some, length, length-append, length-map, length-update_first, find,
  update_first, map, All, arith, Bool-cases, inl, inr,
}
use trokk.Text.{Str, str, str_eq, str_eq_iff}
use trokk.Text.Digits.{decimal, decimal-injective}
use trokk.Types.{Agent, MessageResponse}
use trokk.Runtime.{Dates, World}
use trokk.Http.{Method, Body, undefined, create, update}
use trokk.Mock.{Store, is_agent, is_message}
use trokk.Mock.Routes.{handle_request}
use trokk.Mock.Routes.Agents.{Reply}
use trokk.Mock.Routes.Control.{set_active}
use trokk.Mock.Effects.{handle_request-Effect}
use trokk.Mock.Effects.Moves.{
  IsUpdatedBy, Effect, missing, unreadable, reads, ticks, creates, patches, endorses, propagates,
  pauses, resumes,
}

abbrev pub ids : List Agent → List Str
ids = map (λ a. a.id)

-- `a${i}`, `a${i + 1}`, … for `n` agents
abbrev pub numbered : ℕ → ℕ → List Str
numbered i zero = []
numbered i (suc n) = (str "a" ++ decimal i) ∷ numbered (suc i) n

abbrev pub has : Str → List Str → Bool
has id [] = false
has id (j ∷ js) = str_eq j id || has id js

-- The agents are `a1`, `a2`, … in order, and every message has its author among them.
pub record IsValid (s : Store) : Type 0 where
  pub in_order : ids s.agents ≡ numbered 1 (length s.agents)
  pub authored : All (λ m. has m.agent_id (ids s.agents) ≡ true) s.messages

ids-append : (xs ys : List Agent) → ids (xs ++ ys) ≡ ids xs ++ ids ys
ids-append [] ys = refl
ids-append (x ∷ xs) ys = ap (◌∷◌ x.id) (ids-append xs ys)

-- A list in which the first element that passes a test is replaced by one like it.
update_first-like {ℓ κ} :
    {A : Type ℓ} {B : Type κ} (k : A → B) (p : A → Bool) (xs : List A) (x y : A)
    → find p xs ≡ some x
    → k y ≡ k x
    → map k (update_first p (λ _. y) xs) ≡ map k xs
update_first-like k p [] x y h e = refl
update_first-like k p (z ∷ zs) x y h e = elim (Bool-cases (p z)) [
  | inl t ↦
      let found : some z ≡ some x = sym (rw t refl) ∙ h in
      let same : x ≡ z = cc in rw t (ap (λ b. b ∷ map k zs) (e ∙ ap k same))
  | inr f ↦
      let later : find p zs ≡ some x = sym (rw f refl) ∙ h in
      rw f (ap (◌∷◌ (k z)) (update_first-like k p zs x y later e))
]

ids-set_active : (b : Bool) (as_ : List Agent) → ids (map (set_active b) as_) ≡ ids as_
ids-set_active b [] = refl
ids-set_active b (a ∷ as_) = ap (◌∷◌ a.id) (ids-set_active b as_)

numbered-suc : (i n : ℕ) → numbered i n ++ (str "a" ++ decimal (n + i)) ∷ [] ≡ numbered i (suc n)
numbered-suc i zero = ap (λ k. (str "a" ++ decimal k) ∷ []) (omega arith)
numbered-suc i (suc n) = ap (◌∷◌ (str "a" ++ decimal i)) (
    ap (λ k. numbered (suc i) n ++ (str "a" ++ decimal k) ∷ []) (omega arith)
    ∙ numbered-suc (suc i) n)

has-append : (id : Str) (xs ys : List Str) → has id xs ≡ true → has id (xs ++ ys) ≡ true
has-append id [] ys h = ground arith
has-append id (x ∷ xs) ys h = ground (arith, has-append id xs ys)

keeping :
    (s : Store) (as_ : List Agent) (ms : List MessageResponse)
    → ids as_ ≡ ids s.agents
    → length as_ ≡ length s.agents
    → All (λ m. has m.agent_id (ids s.agents) ≡ true) ms
    → IsValid s
    → IsValid (record { agents = as_; messages = ms })
keeping s as_ ms same count authored v = record {
  in_order = same ∙ v.in_order ∙ ap (numbered 1) (sym count);
  authored = rw same authored;
}

-- Messages by the same authors.
authored-map :
    (P : Str → Type 0) (ms ns : List MessageResponse)
    → map (λ m. m.agent_id) ns ≡ map (λ m. m.agent_id) ms
    → All (λ m. P m.agent_id) ms
    → All (λ m. P m.agent_id) ns
authored-map P ms [] e h = tt
authored-map P [] (n ∷ ns) e h = cc
authored-map P (m ∷ ms) (n ∷ ns) e h =
    let first : m.agent_id ≡ n.agent_id = cc in
    let rest : map (λ (x : MessageResponse). x.agent_id) ns
        ≡ map (λ (x : MessageResponse). x.agent_id) ms =
      cc in
    (subst P first h.0, authored-map P ms ns rest h.1)

authored-append :
    (more : List Str) (known : List Str) (ms : List MessageResponse)
    → All (λ m. has m.agent_id known ≡ true) ms
    → All (λ m. has m.agent_id (known ++ more) ≡ true) ms
authored-append more known [] h = tt
authored-append more known (m ∷ ms) h =
    (has-append m.agent_id known more h.0, authored-append more known ms h.1)

creates-IsValid :
    (s : Store) (a : Agent)
    → a.id ≡ str "a" ++ decimal (length s.agents + 1)
    → IsValid s
    → IsValid (record s { agents = s.agents ++ a ∷ [] })
creates-IsValid s a e v = record {
  in_order =
      ids-append s.agents (a ∷ [])
      ∙ ap (λ l. l ++ a.id ∷ []) v.in_order
      ∙ ap (λ t. numbered 1 (length s.agents) ++ t ∷ []) e
      ∙ numbered-suc 1 (length s.agents)
      ∙ ap (numbered 1) count;
  authored =
      rw (ids-append s.agents (a ∷ []))
        (authored-append (a.id ∷ []) (ids s.agents) s.messages v.authored);
}
  where
    count : suc (length s.agents) ≡ length (s.agents ++ a ∷ [])
    count = omega (arith, length-append {0} s.agents (a ∷ []))

updated_id : (body : Body) (a b : Agent) → IsUpdatedBy body a b → b.id ≡ a.id
updated_id undefined a b u = elim u [ ]
updated_id (create req) a b u = u.same_id
updated_id (update req) a b u = u.same_id

Effect-IsValid :
    {m : Method} {path : Str} {body : Body} {s : Store} {r : Reply}
    → IsValid s
    → Effect m path body s r
    → IsValid r.1
Effect-IsValid v (missing _) = v
Effect-IsValid v (unreadable _) = v
Effect-IsValid v (reads _ _) = v
Effect-IsValid v (ticks _ _ _ _ _) = v
Effect-IsValid {s = s} v (creates a _ _ _ e _) = creates-IsValid s a e v
Effect-IsValid {body = body} {s = s} v (patches id a b _ _ e u) =
    keeping s _ s.messages
      (update_first-like (λ x. x.id) (is_agent id) s.agents a b e (updated_id body a b u))
      (length-update_first (is_agent id) (λ _. b) s.agents) v.authored v
Effect-IsValid {s = s} v (endorses id x _ _ e) =
    keeping s s.agents _ refl refl
      (authored-map (λ a. has a (ids s.agents) ≡ true) s.messages _
        (update_first-like (λ y. y.agent_id) (is_message id) s.messages x _ e refl) v.authored)
      v
Effect-IsValid {s = s} v (propagates id x _ _ e) =
    keeping s s.agents _ refl refl
      (authored-map (λ a. has a (ids s.agents) ≡ true) s.messages _
        (update_first-like (λ y. y.agent_id) (is_message id) s.messages x _ e refl) v.authored)
      v
Effect-IsValid {s = s} v (pauses _ _) =
    keeping s _ s.messages (ids-set_active false s.agents) (length-map (set_active false) s.agents)
      v.authored v
Effect-IsValid {s = s} v (resumes _ _) =
    keeping s _ s.messages (ids-set_active true s.agents) (length-map (set_active true) s.agents)
      v.authored v

-- Every request, with any method, path and body, keeps the store valid.
pub handle_request-IsValid :
    (d : Dates) (w : World) (m : Method) (path : Str) (body : Body) (s : Store)
    → IsValid s
    → IsValid (handle_request d w m path body s).1
handle_request-IsValid d w m path body s v =
    Effect-IsValid v (handle_request-Effect d w m path body s)

-- The identifiers differ.
abbrev pub IsDistinct : List Str → Type 0
IsDistinct [] = Unit
IsDistinct (id ∷ rest) = (has id rest ≡ false) × IsDistinct rest

ids_ne : (i j : ℕ) → i ≢ j → str_eq (str "a" ++ decimal i) (str "a" ++ decimal j) ≡ false
ids_ne i j h = elim (Bool-cases (str_eq (decimal i) (decimal j))) [
  | inl same ↦ absurd (h (decimal-injective i j ((str_eq_iff (decimal i) (decimal j)).0 same)))
  | inr other ↦ ground arith
]

-- An identifier outside the range is not among the numbered ones.
has-numbered :
    (j i n : ℕ) → (j < i) ⊎ (i + n ≤ j) → has (str "a" ++ decimal j) (numbered i n) ≡ false
has-numbered j i zero h = refl
has-numbered j i (suc n) h =
    ground (arith, ids_ne i j (omega arith), has-numbered j (suc i) n (omega arith))

numbered-IsDistinct : (i n : ℕ) → IsDistinct (numbered i n)
numbered-IsDistinct i zero = tt
numbered-IsDistinct i (suc n) =
    (has-numbered i (suc i) n (omega arith), numbered-IsDistinct (suc i) n)

-- In a valid store no two agents have the same identifier.
pub ids-IsDistinct : (s : Store) → IsValid s → IsDistinct (ids s.agents)
ids-IsDistinct s v = rw v.in_order (numbered-IsDistinct 1 (length s.agents))

find-has : (id : Str) (as_ : List Agent) → has id (ids as_) ≡ false → find (is_agent id) as_ ≡ none
find-has id [] h = refl
find-has id (a ∷ as_) h = ground (arith, find-has id as_)

-- In a valid store the next identifier is not taken.
pub has-next_id :
    (s : Store) → IsValid s → has (str "a" ++ decimal (length s.agents + 1)) (ids s.agents) ≡ false
has-next_id s v =
    rw v.in_order (has-numbered (length s.agents + 1) 1 (length s.agents) (omega arith))

pub find-next_id :
    (s : Store)
    → IsValid s
    → find (is_agent (str "a" ++ decimal (length s.agents + 1))) s.agents ≡ none
find-next_id s v = find-has _ s.agents (has-next_id s v)
