-- ===== src/Message/Merge/Accepts.antt =====
-- The merging of message.go and the validation after it.
use mathlib.Core.Option
use llm_go_sdk.Base.{
  Bool, Bool-cases, List, Option, Option-cases, [], ap, arith, false, if◌then◌else◌, inl, inr,
  list_cases, none, refl, some, sym, true, true≢false, ◌&&◌, ◌++◌, ◌∙◌, ◌∷◌, ◌≡◌,
}
use llm_go_sdk.Message.{Message, Role, is_system, same_role}
use llm_go_sdk.Message.Validate.{MessagesError, is_valid_role, validate_messages}
use llm_go_sdk.Message.Accepted.{
  accepted, all_valid, is_nil, starts_well, validate_messages-accepted,
}
use llm_go_sdk.Message.Merge.{
  consolidate_system_messages, flush, merge_consecutive_messages, merge_from, merge_message,
  merged_system, non_system_messages, prepare_messages, system_messages,
}
use llm_go_sdk.Message.Merge.Settled.{is_boundary, merge_from_cases, merge_message-keeps}

merge_from_nil : (cur : Option Message) → merge_from cur [] ≡ flush cur
unfolding merge_from
merge_from_nil cur = refl

-- A current message is written out with its role, before everything else.
merge_from-head :
    (c : Message) (ms : List Message)
    → (d : Message) × (rest : List Message) × (merge_from (some c) ms ≡ d ∷ rest)
      × (d.role ≡ c.role)
merge_from-head c [] = (c, [], merge_from_nil (some c), refl)
merge_from-head c (m ∷ ms) = elim (merge_from_cases (some c) m ms) [
  | inl (b, e) ↦ (c, m ∷ merge_from none ms, e, refl)
  | inr (inl (b, n, e)) ↦ (c, merge_from (some m) ms, e, refl)
  | inr (inr (b, (c', q, s, r, r', e))) ↦
      let (d, rest, e', k) = merge_from-head (merge_message c' m) ms in
      let role = ap (λ x. x.role) (sym (Option.some_inj.0 q)) in
      (d, rest, e ∙ e', k ∙ (merge_message-keeps c' m).0 ∙ role)
]

all_valid-append : (xs ys : List Message) → all_valid (xs ++ ys) ≡ all_valid xs && all_valid ys
all_valid-append [] ys = refl
all_valid-append (x ∷ xs) ys = rw (all_valid-append xs ys) (ground arith)

same_role-valid : (r s : Role) → same_role r s ≡ true → is_valid_role r ≡ is_valid_role s
same_role-valid r s h = ground arith

merge_from-all_valid :
    (cur : Option Message) (ms : List Message)
    → all_valid (merge_from cur ms) ≡ all_valid (flush cur) && all_valid ms
merge_from-all_valid cur [] = rw (merge_from_nil cur) (ground arith)
merge_from-all_valid cur (m ∷ ms) = elim (merge_from_cases cur m ms) [
  | inl (b, e) ↦
      let h = merge_from-all_valid none ms in
      rw (e, all_valid-append (flush cur) (m ∷ merge_from none ms), h) refl
  | inr (inl (b, n, e)) ↦
      let h = merge_from-all_valid (some m) ms in
      rw (e, all_valid-append (flush cur) (merge_from (some m) ms), h) (ground arith)
  | inr (inr (b, (c, q, s, r, r', e))) ↦
      let h = merge_from-all_valid (some (merge_message c m)) ms in
      let k = (merge_message-keeps c m).0 in
      let v = same_role-valid c.role m.role s in rw (e, h, k, q, v) (ground arith)
]

starts_some :
    (c : Message) (ms : List Message)
    → is_boundary c ≡ false
    → starts_well (merge_from (some c) ms) ≡ true
starts_some c ms b = let (d, rest, e, k) = merge_from-head c ms in rw (e, k) (ground arith)

merge_from-starts_well : (ms : List Message) → starts_well (merge_from none ms) ≡ starts_well ms
merge_from-starts_well [] = rw (merge_from_nil none) refl
merge_from-starts_well (m ∷ ms) = elim (merge_from_cases none m ms) [
  | inl (b, e) ↦ rw (e, merge_from-starts_well ms) refl
  | inr (inl (b, n, e)) ↦ rw (e, starts_some m ms b) (ground arith)
  | inr (inr (b, (c, q, s, r, r', e))) ↦ absurd (Option.none-ne-some c q)
]

merge_from-is_nil : (m : Message) (ms : List Message) → is_nil (merge_from none (m ∷ ms)) ≡ false
merge_from-is_nil m ms = elim (merge_from_cases none m ms) [
  | inl (b, e) ↦ rw e refl
  | inr (inl (b, n, e)) ↦ let (d, rest, e', k) = merge_from-head m ms in rw (e, e') refl
  | inr (inr (b, (c, q, s, r, r', e))) ↦ absurd (Option.none-ne-some c q)
]

merge_from-accepted : (ms : List Message) → accepted (merge_from none ms) ≡ accepted ms
merge_from-accepted [] = rw (merge_from_nil none) refl
merge_from-accepted (m ∷ ms) =
    rw (merge_from-is_nil m ms, merge_from-all_valid none (m ∷ ms), merge_from-starts_well (m ∷ ms))
      refl

non_system-all_valid : (ms : List Message) → all_valid (non_system_messages ms) ≡ all_valid ms
non_system-all_valid [] = refl
non_system-all_valid (m ∷ ms) = elim (Bool-cases (is_system m)) [
  | inl s ↦
      let v : is_valid_role m.role ≡ true = ground arith in rw (s, v) (non_system-all_valid ms)
  | inr s ↦ rw (s, non_system-all_valid ms) refl
]

non_system-starts_well : (ms : List Message) → starts_well (non_system_messages ms) ≡ starts_well ms
non_system-starts_well [] = refl
non_system-starts_well (m ∷ ms) = elim (Bool-cases (is_system m)) [
  | inl s ↦ rw s (non_system-starts_well ms)
  | inr s ↦ rw s (rw s refl)
]

consolidate-accepted : (ms : List Message) → accepted (consolidate_system_messages ms) ≡ accepted ms
unfolding consolidate_system_messages merged_system
consolidate-accepted [] = refl
consolidate-accepted (m ∷ ms) = elim (list_cases (system_messages (m ∷ ms))) [
  | inl n ↦ rw (n, consolidate_system_messages) refl
  | inr (s, ss, n) ↦
      rw (n, consolidate_system_messages)
        (rw (non_system-all_valid (m ∷ ms), non_system-starts_well (m ∷ ms)) refl)
]

merge_consecutive_messages-accepted :
    (ms : List Message) → accepted (merge_consecutive_messages ms) ≡ accepted ms
unfolding merge_consecutive_messages
merge_consecutive_messages-accepted [] = refl
merge_consecutive_messages-accepted (m ∷ []) = refl
merge_consecutive_messages-accepted (m ∷ n ∷ ms) =
    merge_from-accepted (consolidate_system_messages (m ∷ n ∷ ms))
    ∙ consolidate-accepted (m ∷ n ∷ ms)

processed-accepted :
    (disabled : Bool) (ms : List Message)
    → accepted (if disabled then ms else merge_consecutive_messages ms) ≡ accepted ms
processed-accepted true ms = refl
processed-accepted false ms = merge_consecutive_messages-accepted ms

-- Whether messages are prepared without an error depends on the messages alone, and not on
-- whether they are merged first: the list is not empty, every role is known, and the first message
-- that is no system prompt is no tool result.
pub prepare_messages-accepts :
    (disabled : Bool) (ms : List Message)
    → (accepted ms ≡ true
        → prepare_messages disabled ms
          ≡ inr (if disabled then ms else merge_consecutive_messages ms))
      × (accepted ms ≡ false → (e : MessagesError) × (prepare_messages disabled ms ≡ inl e))
unfolding prepare_messages
prepare_messages-accepts disabled ms =
    let processed = if disabled then ms else merge_consecutive_messages ms in
    let same = processed-accepted disabled ms in
    let v = validate_messages-accepted processed in
    (
      λ h. rw (prepare_messages, v.1 (same ∙ h)) refl,
      λ h. elim (Option-cases (validate_messages processed)) [
        | inl n ↦ absurd (true≢false (sym (v.0 n) ∙ same ∙ h))
        | inr (e, n) ↦ (e, rw (prepare_messages, n) refl)
      ],
    )
