-- ===== src/Message/Merge/Settled.antt =====
-- The merging of message.go and its rounds: which neighbours in its result could still be joined.
use mathlib.Core.List
use llm_go_sdk.Base.{
  Bool, Bool-cases, List, Option, [], arith, false, inl, inr, none, not, refl, some, sym, true,
  true≢false, ◌&&◌, ◌++◌, ◌||◌, ◌∙◌, ◌∷◌, ◌≡◌, ◌⊎◌,
}
use llm_go_sdk.Message.{Message, is_system, is_tool, same_role}
use llm_go_sdk.Message.Merge.{
  add_content, consolidate_system_messages, content_to_part, flush, has_reasoning,
  merge_consecutive_messages, merge_from, merge_message, merge_step,
}

abbrev pub stands_alone : Message → Bool
stands_alone m = (is_tool m || is_system m) || has_reasoning m

-- Two neighbours that the merging would join.
abbrev pub clash : Option Message → Message → Bool
clash none m = false
clash (some p) m = not (stands_alone p) && (not (stands_alone m) && same_role p.role m.role)

-- No message could be joined to the one before it; the first one follows `prev`.
abbrev pub SettledAfter : Option Message → List Message → Type 0
SettledAfter prev [] = Unit {0}
SettledAfter prev (m ∷ ms) = (clash prev m ≡ false) × SettledAfter (some m) ms

-- The message before the current one, and the current one.
Fits : Option Message → Option Message → Type 0
Fits none none = Unit {0}
Fits (some p) none = stands_alone p ≡ true
Fits prev (some c) = (clash prev c ≡ false) × ((is_tool c || is_system c) ≡ false)

pub merge_message-keeps :
    (c m : Message)
    → ((merge_message c m).role ≡ c.role) × ((merge_message c m).reasoning ≡ c.reasoning)
unfolding merge_message content_to_part add_content
merge_message-keeps c m = ground arith

clash_none : (p m : Message) → stands_alone p ≡ true → clash (some p) m ≡ false
clash_none p m h = ground arith

-- The message before what comes once the current one is written out.
after : Option Message → Option Message → Option Message
after prev none = prev
after prev (some c) = some c

flush-SettledAfter :
    (prev cur : Option Message) (out : List Message)
    → Fits prev cur
    → SettledAfter (after prev cur) out
    → SettledAfter prev (flush cur ++ out)
unfolding Fits after
flush-SettledAfter none none out f h = h
flush-SettledAfter (some p) none out f h = h
flush-SettledAfter none (some c) out f h = (f.0, h)
flush-SettledAfter (some p) (some c) out f h = (f.0, h)

abbrev pub is_boundary : Message → Bool
is_boundary m = is_tool m || is_system m

-- What one round does: the message is a boundary, or starts a new group, or joins the current one.
pub merge_step_cases :
    (cur : Option Message) (m : Message)
    → ((is_boundary m ≡ true) × (merge_step cur m ≡ (flush cur ++ (m ∷ []), none)))
      ⊎ ((is_boundary m ≡ false) × (clash cur m ≡ false) × (merge_step cur m ≡ (flush cur, some m)))
      ⊎ ((is_boundary m ≡ false)
          × ((c : Message) × (cur ≡ some c)
              × (same_role c.role m.role ≡ true)
              × (has_reasoning c ≡ false)
              × (has_reasoning m ≡ false)
              × (merge_step cur m ≡ ([], some (merge_message c m)))))
unfolding merge_step
merge_step_cases none m = elim (Bool-cases (is_boundary m)) [
  | inl t ↦ inl (t, rw t)
  | inr f ↦
      inr (
        inl
          (f, refl, elim (Bool-cases (has_reasoning m)) [ inl r ↦ rw (f, r) | inr r ↦ rw (f, r) ]))
]
merge_step_cases (some c) m = elim (Bool-cases (is_boundary m)) [
  | inl t ↦ inl (t, rw t)
  | inr f ↦ elim (Bool-cases (has_reasoning m || has_reasoning c)) [
    | inl r ↦ inr (inl (f, ground arith, rw (f, r)))
    | inr r ↦ elim (Bool-cases (same_role c.role m.role)) [
      | inl s ↦ inr (inr (f, (c, refl, s, ground arith, ground arith, rw (f, r, s))))
      | inr s ↦ inr (inl (f, ground arith, rw (f, r, s)))
    ]
  ]
]

-- The same of the loop.
pub merge_from_cases :
    (cur : Option Message) (m : Message) (ms : List Message)
    → ((is_boundary m ≡ true) × (merge_from cur (m ∷ ms) ≡ flush cur ++ (m ∷ merge_from none ms)))
      ⊎ ((is_boundary m ≡ false)
          × (clash cur m ≡ false)
          × (merge_from cur (m ∷ ms) ≡ flush cur ++ merge_from (some m) ms))
      ⊎ ((is_boundary m ≡ false)
          × ((c : Message) × (cur ≡ some c)
              × (same_role c.role m.role ≡ true)
              × (has_reasoning c ≡ false)
              × (has_reasoning m ≡ false)
              × (merge_from cur (m ∷ ms) ≡ merge_from (some (merge_message c m)) ms)))
unfolding merge_from
merge_from_cases cur m ms = elim (merge_step_cases cur m) [
  | inl (b, e) ↦
      inl (b, rw (e, merge_from) (List.append_assoc (flush cur) (m ∷ []) (merge_from none ms)))
  | inr (inl (b, f, e)) ↦ inr (inl (b, f, rw (e, merge_from)))
  | inr (inr (b, (c, h, s, r, r', e))) ↦ inr (inr (b, (c, h, s, r, r', rw (e, merge_from))))
]

-- The merge of two messages fits where the first one did.
merge_message-Fits :
    (prev : Option Message) (c m : Message)
    → Fits prev (some c)
    → Fits prev (some (merge_message c m))
unfolding Fits
merge_message-Fits none c m f = let k = merge_message-keeps c m in ground (arith, k)
merge_message-Fits (some p) c m f = let k = merge_message-keeps c m in ground (arith, k)

Fits-start :
    (prev : Option Message) (m : Message)
    → Fits prev none
    → is_boundary m ≡ false
    → Fits prev (some m)
unfolding Fits
Fits-start none m f b = (refl, b)
Fits-start (some p) m f b = (clash_none p m f, b)

Fits-boundary : (m : Message) → is_boundary m ≡ true → Fits (some m) none
unfolding Fits
Fits-boundary m b = ground arith

clash_boundary : (prev : Option Message) (m : Message) → is_boundary m ≡ true → clash prev m ≡ false
clash_boundary none m b = refl
clash_boundary (some p) m b = ground arith

Fits-after :
    (prev cur : Option Message) (m : Message)
    → Fits prev cur
    → is_boundary m ≡ false
    → clash cur m ≡ false
    → Fits (after prev cur) (some m)
unfolding Fits after
Fits-after prev none m f b n = Fits-start prev m f b
Fits-after prev (some c) m f b n = (n, b)

merge_from-SettledAfter :
    (prev cur : Option Message) (ms : List Message)
    → Fits prev cur
    → SettledAfter prev (merge_from cur ms)
unfolding merge_from Fits
merge_from-SettledAfter prev none [] f = tt
merge_from-SettledAfter none (some c) [] f = (f.0, tt)
merge_from-SettledAfter (some p) (some c) [] f = (f.0, tt)
merge_from-SettledAfter prev cur (m ∷ ms) f = elim (merge_from_cases cur m ms) [
  | inl (b, e) ↦ rw e (
      flush-SettledAfter prev cur (m ∷ merge_from none ms) f (
        clash_boundary (after prev cur) m b,
        merge_from-SettledAfter (some m) none ms (Fits-boundary m b),
      ))
  | inr (inl (b, n, e)) ↦ rw e (
      flush-SettledAfter prev cur (merge_from (some m) ms) f
        (merge_from-SettledAfter (after prev cur) (some m) ms (Fits-after prev cur m f b n)))
  | inr (inr (b, (c, h, s, r, r', e))) ↦ rw e (
      merge_from-SettledAfter prev (some (merge_message c m)) ms
        (merge_message-Fits prev c m (rw h at f)))
]

-- A list in which nothing can be joined goes through the loop unchanged.
pub clash_first :
    (m : Message) (ms : List Message) (p : Option Message)
    → SettledAfter p ms
    → SettledAfter none ms
clash_first m [] p h = tt
clash_first m (x ∷ ms) p h = (refl, h.1)

unfoldable pub IsCurrent : Option Message → Type 0
IsCurrent none = Unit {0}
IsCurrent (some c) = is_boundary c ≡ false

pub merge_from-fixed :
    (cur : Option Message) (ms : List Message)
    → SettledAfter cur ms
    → IsCurrent cur
    → merge_from cur ms ≡ flush cur ++ ms
unfolding merge_from IsCurrent
merge_from-fixed none [] h k = refl
merge_from-fixed (some c) [] h k = refl
merge_from-fixed cur (m ∷ ms) h k = elim (merge_from_cases cur m ms) [
  | inl (b, e) ↦ rw (e, merge_from-fixed none ms (clash_first m ms (some m) h.1) tt)
  | inr (inl (b, n, e)) ↦ rw (e, merge_from-fixed (some m) ms h.1 b)
  | inr (inr (b, (c, q, s, r, r', e))) ↦
      (let k' : is_boundary c ≡ false = rw q at k in
        let n : clash (some c) m ≡ false = rw q at h.0 in
        let y : clash (some c) m ≡ true = ground arith in absurd (true≢false (sym y ∙ n)))
]

-- After the merging no message could be joined to the one before it.
pub merge_consecutive_messages-SettledAfter :
    (ms : List Message) → SettledAfter none (merge_consecutive_messages ms)
unfolding merge_consecutive_messages Fits
merge_consecutive_messages-SettledAfter [] = tt
merge_consecutive_messages-SettledAfter (m ∷ []) = (refl, tt)
merge_consecutive_messages-SettledAfter (m ∷ n ∷ ms) =
    merge_from-SettledAfter none none (consolidate_system_messages (m ∷ n ∷ ms)) tt
