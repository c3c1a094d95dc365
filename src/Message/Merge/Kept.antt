-- ===== src/Message/Merge/Kept.antt =====
-- The tool calls, the tool results and the images under the merging of message.go.
use mathlib.Core.List
use text.Mathlib.Text.{◌==◌ as str_eq}
use llm_go_sdk.Base.{
  Bool-cases, List, Option, [], ap, arith, false, if◌then◌else◌, inl, inr, list_cases, none, not,
  refl, some, sym, true, ◌&&◌, ◌++◌, ◌||◌, ◌∙◌, ◌∷◌, ◌≡◌,
}
use llm_go_sdk.Message.{
  ContentPart, Message, ToolCall, is_system, is_text, is_tool, new_text_part, same_role,
}
use llm_go_sdk.Message.Merge.{
  add_content, consolidate_system_messages, content_to_part, flush, has_parts,
  merge_consecutive_messages, merge_from, merge_message, merged_system, non_system_messages,
  system_messages,
}
use llm_go_sdk.Message.Merge.Settled.{is_boundary, merge_from_cases, merge_message-keeps}

module _ {X : Type 0} where
  -- What the messages hold, one after the other.
  abbrev pub gather : (Message → List X) → List Message → List X
  gather f [] = []
  gather f (m ∷ ms) = f m ++ gather f ms

  gather-append :
      (f : Message → List X) (xs ys : List Message)
      → gather f (xs ++ ys) ≡ gather f xs ++ gather f ys
  gather-append f [] ys = refl
  gather-append f (x ∷ xs) ys =
      ap (◌++◌ (f x)) (gather-append f xs ys)
      ∙ sym (List.append_assoc (f x) (gather f xs) (gather f ys))

  -- What a merge of two messages of one role puts together, and system messages do not have.
  Additive : (Message → List X) → Type 0
  Additive f =
      (c m : Message)
      → is_boundary m ≡ false
      → same_role c.role m.role ≡ true
      → f (merge_message c m) ≡ f c ++ f m

  one : (f : Message → List X) (m : Message) (xs : List X) → gather f (m ∷ []) ++ xs ≡ f m ++ xs
  one f m xs = ap (λ x. x ++ xs) (List.append-nil (f m))

  merge_from-gather :
      (f : Message → List X) (cur : Option Message) (ms : List Message)
      → Additive f
      → gather f (merge_from cur ms) ≡ gather f (flush cur) ++ gather f ms
  unfolding merge_from Additive
  merge_from-gather f cur [] h = sym (List.append-nil (gather f (flush cur)))
  merge_from-gather f cur (m ∷ ms) h = elim (merge_from_cases cur m ms) [
    | inl (b, e) ↦ rw e (
        gather-append f (flush cur) (m ∷ merge_from none ms)
        ∙ ap (λ x. gather f (flush cur) ++ (f m ++ x)) (merge_from-gather f none ms h))
    | inr (inl (b, n, e)) ↦ rw e (
        gather-append f (flush cur) (merge_from (some m) ms)
        ∙ ap (λ x. gather f (flush cur) ++ x)
            (merge_from-gather f (some m) ms h ∙ one f m (gather f ms)))
    | inr (inr (b, (c, q, s, r, r', e))) ↦
        rw (e, q)
          (merge_from-gather f (some (merge_message c m)) ms h
            ∙ (one f (merge_message c m) (gather f ms)
                ∙ ap (λ x. x ++ gather f ms) (h c m b s)
                ∙ List.append_assoc (f c) (f m) (gather f ms)
                ∙ sym (one f c (f m ++ gather f ms))))
  ]

  -- Consolidation keeps what only other messages than system messages hold.
  non_system_messages-gather :
      (f : Message → List X) (ms : List Message)
      → ((m : Message) → is_system m ≡ true → f m ≡ [])
      → gather f (non_system_messages ms) ≡ gather f ms
  non_system_messages-gather f [] h = refl
  non_system_messages-gather f (m ∷ ms) h = elim (Bool-cases (is_system m)) [
    | inl t ↦ rw (t, h m t) (non_system_messages-gather f ms h)
    | inr n ↦ rw n (ap (λ x. f m ++ x) (non_system_messages-gather f ms h))
  ]

  consolidate-gather :
      (f : Message → List X) (ms : List Message)
      → ((m : Message) → is_system m ≡ true → f m ≡ [])
      → gather f (consolidate_system_messages ms) ≡ gather f ms
  unfolding consolidate_system_messages merged_system
  consolidate-gather f ms h = elim (list_cases (system_messages ms)) [
    | inl n ↦ rw (n, consolidate_system_messages)
    | inr (x, xs, n) ↦
        rw (n, consolidate_system_messages)
          (ap (λ y. y ++ gather f (non_system_messages ms)) (h (merged_system (x ∷ xs)) refl)
            ∙ non_system_messages-gather f ms h)
  ]

  merge_consecutive_messages-gather :
      (f : Message → List X) (ms : List Message)
      → ((m : Message) → is_system m ≡ true → f m ≡ [])
      → Additive f
      → gather f (merge_consecutive_messages ms) ≡ gather f ms
  unfolding merge_consecutive_messages
  merge_consecutive_messages-gather f [] h k = refl
  merge_consecutive_messages-gather f (m ∷ []) h k = refl
  merge_consecutive_messages-gather f (m ∷ n ∷ ms) h k =
      merge_from-gather f none (consolidate_system_messages (m ∷ n ∷ ms)) k
      ∙ consolidate-gather f (m ∷ n ∷ ms) h

-- The tool calls of a message, the message itself if it is a tool result, and its parts that are no
-- texts.
abbrev pub calls_of : Message → List ToolCall
calls_of m = if is_system m then [] else m.tool_calls

abbrev pub result_of : Message → List Message
result_of m = if is_tool m then m ∷ [] else []

abbrev pub images_in : List ContentPart → List ContentPart
images_in [] = []
images_in (p ∷ ps) = if is_text p.part_type then images_in ps else p ∷ images_in ps

abbrev pub images_of : Message → List ContentPart
images_of m = if is_system m then [] else images_in m.parts

images_in-append : (ps qs : List ContentPart) → images_in (ps ++ qs) ≡ images_in ps ++ images_in qs
images_in-append [] qs = refl
images_in-append (p ∷ ps) qs = elim (Bool-cases (is_text p.part_type)) [
  | inl t ↦ rw t (images_in-append ps qs)
  | inr f ↦ rw f (ap (◌∷◌ p) (images_in-append ps qs))
]

roles :
    (c m : Message)
    → is_boundary m ≡ false
    → same_role c.role m.role ≡ true
    → (is_system c ≡ false) × (is_tool c ≡ false) × (is_system m ≡ false) × (is_tool m ≡ false)
roles c m b s = ground arith

content_to_part-keeps :
    (c m : Message)
    → ((content_to_part c m).tool_calls ≡ c.tool_calls)
      × (images_in (content_to_part c m).parts ≡ images_in c.parts)
unfolding content_to_part
content_to_part-keeps c m =
    elim (Bool-cases (not (str_eq c.content "") && (has_parts c || has_parts m))) [
      | inl t ↦ rw (t, content_to_part) (refl, refl)
      | inr f ↦ rw (f, content_to_part) (refl, refl)
    ]

add_content-keeps :
    (c m : Message)
    → ((add_content c m).tool_calls ≡ c.tool_calls)
      × (images_in (add_content c m).parts ≡ images_in c.parts)
unfolding add_content
add_content-keeps c m = elim (Bool-cases (str_eq m.content "")) [
  | inl t ↦ rw (t, add_content) (refl, refl)
  | inr f ↦ elim (Bool-cases (has_parts c)) [
    | inl p ↦
        rw (f, p, add_content)
          (
            refl,
            images_in-append c.parts (new_text_part m.content ∷ [])
                ∙ List.append-nil (images_in c.parts),
          )
    | inr p ↦ elim (Bool-cases (not (str_eq c.content ""))) [
      | inl q ↦ rw (f, p, q, add_content) (refl, refl)
      | inr q ↦ rw (f, p, q, add_content) (refl, refl)
    ]
  ]
]

calls_of-Additive : Additive calls_of
unfolding Additive merge_message
calls_of-Additive c m b s =
    let r = roles c m b s in
    let role : is_system (merge_message c m) ≡ false = rw ((merge_message-keeps c m).0) (r.0) in
    let c' = content_to_part c m in
    rw (role, r.0, r.2)
      (ap (λ x. x ++ m.tool_calls) ((add_content-keeps c' m).0 ∙ (content_to_part-keeps c m).0))

images_of-Additive : Additive images_of
unfolding Additive merge_message
images_of-Additive c m b s =
    let r = roles c m b s in
    let role : is_system (merge_message c m) ≡ false = rw ((merge_message-keeps c m).0) (r.0) in
    let c' = content_to_part c m in
    rw (role, r.0, r.2)
      (images_in-append (add_content c' m).parts m.parts
        ∙ ap (λ x. x ++ images_in m.parts)
            ((add_content-keeps c' m).1 ∙ (content_to_part-keeps c m).1))

result_of-Additive : Additive result_of
unfolding Additive
result_of-Additive c m b s =
    let r = roles c m b s in
    let role : is_tool (merge_message c m) ≡ false = rw ((merge_message-keeps c m).0) (r.1) in
    rw (role, r.1, r.3) refl

-- The merging keeps, in their order, the tool calls and the images of all messages but system
-- messages, and every tool result as it is.
pub merge_consecutive_messages-keeps :
    (ms : List Message)
    → (gather calls_of (merge_consecutive_messages ms) ≡ gather calls_of ms)
      × (gather result_of (merge_consecutive_messages ms) ≡ gather result_of ms)
      × (gather images_of (merge_consecutive_messages ms) ≡ gather images_of ms)
merge_consecutive_messages-keeps ms = (
  merge_consecutive_messages-gather calls_of ms (λ m t. rw t) calls_of-Additive,
  merge_consecutive_messages-gather result_of ms (λ m t. ground arith) result_of-Additive,
  merge_consecutive_messages-gather images_of ms (λ m t. rw t) images_of-Additive,
)
