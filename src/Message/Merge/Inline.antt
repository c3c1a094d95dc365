-- ===== src/Message/Merge/Inline.antt =====
-- Consolidated system messages, in message.go, under the validation of inline system messages.
use llm_go_sdk.Base.{Bool, List, [], ap, false, inl, inr, none, refl, true, ℕ, ◌+◌, ◌∷◌, ◌≡◌}
use llm_go_sdk.Message.{Message}
use llm_go_sdk.Message.Validate.{collected, inline_system_errors, validate_inline_system}
use llm_go_sdk.Message.Merge.{consolidate_system_messages, merged_system}
use llm_go_sdk.Message.Merge.Systems.{
  IsConsolidated, NoSystem, consolidate_system_messages-IsConsolidated,
}

inline_system_errors_none :
    (seen : Bool) (i : ℕ) (ms : List Message) → NoSystem ms → inline_system_errors seen i ms ≡ []
unfolding inline_system_errors
inline_system_errors_none seen i [] n = refl
inline_system_errors_none seen i (m ∷ ms) n =
    rw (n.0) (inline_system_errors_none seen (i + 1) ms n.1)

inline_errors_consolidated :
    (ms : List Message) → IsConsolidated ms → inline_system_errors false 0 ms ≡ []
unfolding inline_system_errors merged_system
inline_errors_consolidated ms (inl n) = inline_system_errors_none false 0 ms n
inline_errors_consolidated ms (inr (s, ss, rest, e, n)) =
    rw e (inline_system_errors_none true 1 rest n)

-- Consolidated messages always pass `ValidateInlineSystem`.
pub validate_inline_system-consolidated :
    (ms : List Message) → validate_inline_system (consolidate_system_messages ms) ≡ none
unfolding validate_inline_system
validate_inline_system-consolidated ms = ap collected (
    inline_errors_consolidated (consolidate_system_messages ms)
      (consolidate_system_messages-IsConsolidated ms))
