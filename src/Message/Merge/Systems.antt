-- ===== src/Message/Merge/Systems.antt =====
-- The consolidation of system messages in message.go: its result, and doing it again.
use mathlib.Core.List
use Prim.Native.String.{String}
use text.Mathlib.Text.{◌==◌ as str_eq}
use text.Mathlib.TextEquality.{eq_iff}
use llm_go_sdk.Base.{
  Bool-cases, List, Option, Option-cases, [], ap, false, inl, inr, list_cases, none, refl, sym,
  true≢false, ◌++◌, ◌∙◌, ◌∷◌, ◌≡◌, ◌⊎◌,
}
use llm_go_sdk.Message.{CacheControl, ContentPart, Message, is_system, role_system}
use llm_go_sdk.Message.Merge.{
  all_system_parts, all_text, consolidate_system_messages, merge_system_content, merged_system,
  non_system_messages, system_cache_control, system_messages,
}
use llm_go_sdk.Message.Merge.Settled.{}

abbrev pub NoSystem : List Message → Type 0
NoSystem [] = Unit {0}
NoSystem (m ∷ ms) = (is_system m ≡ false) × NoSystem ms

NoSystem-non_system_messages : (ms : List Message) → NoSystem (non_system_messages ms)
NoSystem-non_system_messages [] = tt
NoSystem-non_system_messages (m ∷ ms) = elim (Bool-cases (is_system m)) [
  | inl t ↦ rw t (NoSystem-non_system_messages ms)
  | inr f ↦ rw f (f, NoSystem-non_system_messages ms)
]

NoSystem-system_messages : (ms : List Message) → system_messages ms ≡ [] → NoSystem ms
NoSystem-system_messages [] h = tt
NoSystem-system_messages (m ∷ ms) h = elim (Bool-cases (is_system m)) [
  | inl t ↦ absurd (List.nil≢cons (sym (rw t at h)))
  | inr f ↦ (f, NoSystem-system_messages ms (rw f at h))
]

system_messages_nil : (ms : List Message) → NoSystem ms → system_messages ms ≡ []
system_messages_nil [] h = refl
system_messages_nil (m ∷ ms) h = rw h.0 (system_messages_nil ms h.1)

non_system_messages_all : (ms : List Message) → NoSystem ms → non_system_messages ms ≡ ms
non_system_messages_all [] h = refl
non_system_messages_all (m ∷ ms) h = rw h.0 (ap (◌∷◌ m) (non_system_messages_all ms h.1))

-- One merged system message and no other, or no system message.
abbrev pub IsConsolidated : List Message → Type 0
IsConsolidated ms =
    NoSystem ms
    ⊎ ((s : Message) × (ss : List Message) × (rest : List Message) × (ms
          ≡ merged_system (s ∷ ss) ∷ rest)
        × NoSystem rest)

pub consolidate_system_messages-IsConsolidated :
    (ms : List Message) → IsConsolidated (consolidate_system_messages ms)
unfolding consolidate_system_messages
consolidate_system_messages-IsConsolidated ms = elim (list_cases (system_messages ms)) [
  | inl n ↦ rw (n, consolidate_system_messages) (inl (NoSystem-system_messages ms n))
  | inr (s, ss, n) ↦
      rw (n, consolidate_system_messages)
        (inr (s, ss, non_system_messages ms, refl, NoSystem-non_system_messages ms))
]

append_nil : (ps : List ContentPart) → ps ++ [] ≡ ps
append_nil [] = refl
append_nil (p ∷ ps) = ap (◌∷◌ p) (append_nil ps)

-- A message that holds only a text, and one that holds only parts that are not all texts.
text_once : (m : Message) → m.parts ≡ [] → merge_system_content (m ∷ []) ≡ (m.content, [])
unfolding merge_system_content
text_once m h = elim (Bool-cases (str_eq m.content "")) [
  | inl t ↦
      (let e : m.content ≡ "" = (eq_iff m.content "").0 t in rw (h, t, e, merge_system_content))
  | inr f ↦ rw (h, f, merge_system_content)
]

parts_once :
    (m : Message) → all_text m.parts ≡ false → merge_system_content (m ∷ []) ≡ ("", m.parts)
unfolding merge_system_content
parts_once m h = elim (list_cases m.parts) [
  | inl n ↦ absurd (true≢false (rw n at h))
  | inr (p, ps, n) ↦
      (let f : all_text (p ∷ ps) ≡ false = rw n at h in
        rw (n, append_nil ps, f, merge_system_content))
]

content_cases :
    (ms : List Message)
    → ((merge_system_content ms).1 ≡ [])
      ⊎ ((all_text (merge_system_content ms).1 ≡ false) × ((merge_system_content ms).0 ≡ ""))
unfolding merge_system_content
content_cases ms = elim (Bool-cases (all_text (all_system_parts ms))) [
  | inl t ↦ rw (t, merge_system_content) (inl refl)
  | inr f ↦ rw (f, merge_system_content) (inr (f, refl))
]

cache_once : (m : Message) → system_cache_control (m ∷ []) ≡ m.cache_control
cache_once m = elim (Option-cases m.cache_control) [ inl n ↦ rw n refl | inr (c, n) ↦ rw n refl ]

system_message : String × List ContentPart → Option CacheControl → Message
system_message x cache = record {
  role = role_system;
  content = x.0;
  parts = x.1;
  tool_calls = [];
  tool_call_id = "";
  name = "";
  cache_control = cache;
  reasoning = none;
}

-- A merged system message, merged again alone, is the same.
merged_system_once : (ms : List Message) → merged_system (merged_system ms ∷ []) ≡ merged_system ms
unfolding merged_system system_message
merged_system_once ms =
    let m = merged_system ms in
    let same : merge_system_content (m ∷ []) ≡ (m.content, m.parts) = elim (content_cases ms) [
      | inl n ↦ text_once m n ∙ (rw n refl)
      | inr (f, z) ↦ parts_once m f ∙ (rw z refl)
    ] in
    let cache : system_cache_control (m ∷ []) ≡ m.cache_control = cache_once m in
    ap (λ x. system_message x (system_cache_control (m ∷ []))) same
    ∙ ap (system_message (m.content, m.parts)) cache

consolidate_some :
    (ms : List Message) (s : Message) (ss : List Message)
    → system_messages ms ≡ s ∷ ss
    → consolidate_system_messages ms ≡ merged_system (s ∷ ss) ∷ non_system_messages ms
unfolding consolidate_system_messages
consolidate_some ms s ss n = rw (n, consolidate_system_messages)

front_system :
    (xs rest : List Message)
    → NoSystem rest
    → (system_messages (merged_system xs ∷ rest) ≡ merged_system xs ∷ [])
      × (non_system_messages (merged_system xs ∷ rest) ≡ rest)
unfolding merged_system
front_system xs rest n =
    (ap (◌∷◌ (merged_system xs)) (system_messages_nil rest n), non_system_messages_all rest n)

-- Consolidated once, a list stays as it is.
pub consolidate_system_messages-fixed :
    (ms : List Message) → IsConsolidated ms → consolidate_system_messages ms ≡ ms
unfolding consolidate_system_messages
consolidate_system_messages-fixed ms (inl n) =
    let e = system_messages_nil ms n in rw (e, consolidate_system_messages)
consolidate_system_messages-fixed ms (inr (s, ss, rest, e, n)) =
    let m = merged_system (s ∷ ss) in
    let f = front_system (s ∷ ss) rest n in
    rw e (
      consolidate_some (m ∷ rest) m [] f.0
      ∙ ap (λ x. x ∷ non_system_messages (m ∷ rest)) (merged_system_once (s ∷ ss))
      ∙ ap (◌∷◌ m) f.1)
