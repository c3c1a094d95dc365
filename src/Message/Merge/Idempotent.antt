-- ===== src/Message/Merge/Idempotent.antt =====
-- The merging of message.go done twice.
use llm_go_sdk.Base.{
  List, Option, [], ap, false, inl, inr, none, refl, some, subst, ◌++◌, ◌∙◌, ◌∷◌, ◌≡◌,
}
use llm_go_sdk.Message.{Message, is_system}
use llm_go_sdk.Message.Merge.{
  consolidate_system_messages, flush, merge_consecutive_messages, merge_from, merge_message,
  merge_step, merged_system,
}
use llm_go_sdk.Message.Merge.Settled.{
  IsCurrent, SettledAfter, merge_consecutive_messages-SettledAfter, merge_from-fixed,
  merge_from_cases, merge_message-keeps,
}
use llm_go_sdk.Message.Merge.Systems.{
  IsConsolidated, NoSystem, consolidate_system_messages-IsConsolidated,
  consolidate_system_messages-fixed,
}

NoSystem-append : (xs ys : List Message) → NoSystem xs → NoSystem ys → NoSystem (xs ++ ys)
NoSystem-append [] ys h k = k
NoSystem-append (x ∷ xs) ys h k = (h.0, NoSystem-append xs ys h.1 k)

system_of_role : (m n : Message) → m.role ≡ n.role → is_system n ≡ false → is_system m ≡ false
system_of_role m n e h = rw e h

-- The loop makes no system message.
merge_from-NoSystem :
    (cur : Option Message) (ms : List Message)
    → NoSystem (flush cur)
    → NoSystem ms
    → NoSystem (merge_from cur ms)
unfolding merge_from
merge_from-NoSystem cur [] h k = h
merge_from-NoSystem cur (m ∷ ms) h k = elim (merge_from_cases cur m ms) [
  | inl (b, e) ↦ rw e (
      NoSystem-append (flush cur) (m ∷ merge_from none ms) h
        (k.0, merge_from-NoSystem none ms tt k.1))
  | inr (inl (b, n, e)) ↦ rw e (
      NoSystem-append (flush cur) (merge_from (some m) ms) h
        (merge_from-NoSystem (some m) ms (k.0, tt) k.1))
  | inr (inr (b, (c, q, s, r, r', e))) ↦
      (let h' : NoSystem (flush (some c)) = subst (λ x. NoSystem (flush x)) q h in
        rw e (
          merge_from-NoSystem (some (merge_message c m)) ms
            (system_of_role (merge_message c m) c (merge_message-keeps c m).0 h'.0, tt) k.1))
]

merge_from_system :
    (xs rest : List Message)
    → merge_from none (merged_system xs ∷ rest) ≡ merged_system xs ∷ merge_from none rest
unfolding merge_from merge_step merged_system
merge_from_system xs rest = refl

merge_from-IsConsolidated :
    (ms : List Message) → IsConsolidated ms → IsConsolidated (merge_from none ms)
merge_from-IsConsolidated ms (inl n) = inl (merge_from-NoSystem none ms tt n)
merge_from-IsConsolidated ms (inr (s, ss, rest, e, n)) =
    let front : merge_from none (merged_system (s ∷ ss) ∷ rest)
        ≡ merged_system (s ∷ ss) ∷ merge_from none rest =
      merge_from_system (s ∷ ss) rest in
    rw e (inr (s, ss, merge_from none rest, front, merge_from-NoSystem none rest tt n))

again :
    (ms : List Message)
    → SettledAfter none ms
    → IsConsolidated ms
    → merge_consecutive_messages ms ≡ ms
unfolding merge_consecutive_messages IsCurrent
again [] h k = refl
again (m ∷ []) h k = refl
again (m ∷ n ∷ ms) h k =
    let e : consolidate_system_messages (m ∷ n ∷ ms) ≡ m ∷ n ∷ ms =
      consolidate_system_messages-fixed (m ∷ n ∷ ms) k in
    ap (merge_from none) e ∙ merge_from-fixed none (m ∷ n ∷ ms) h tt

-- Once merged, a list can be merged again and stays the same, the system message included.
pub merge_consecutive_messages_idem :
    (ms : List Message)
    → merge_consecutive_messages (merge_consecutive_messages ms) ≡ merge_consecutive_messages ms
unfolding merge_consecutive_messages IsCurrent
merge_consecutive_messages_idem [] = refl
merge_consecutive_messages_idem (m ∷ []) = refl
merge_consecutive_messages_idem (m ∷ n ∷ ms) =
    let out = merge_consecutive_messages (m ∷ n ∷ ms) in
    again out (merge_consecutive_messages-SettledAfter (m ∷ n ∷ ms)) (
      merge_from-IsConsolidated (consolidate_system_messages (m ∷ n ∷ ms))
        (consolidate_system_messages-IsConsolidated (m ∷ n ∷ ms)))
