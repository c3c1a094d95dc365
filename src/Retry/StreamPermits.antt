-- ===== src/Retry/StreamPermits.antt =====
-- The permit of a stream of `ResilientClient` in resilience.go.
use llm_go_sdk.Breaker.{Permit}
use llm_go_sdk.Retry.{Execution, LoopState}
use llm_go_sdk.Retry.Rule.{}
use llm_go_sdk.Retry.Permits.{HoldsOne, IsIdle}
use llm_go_sdk.Retry.Stream.{StreamNext, stream_again, stream_failed, stream_opened}

-- What a round leads to.
data RoundKept : StreamNext → Type 0 where
  failed_kept : (x : Execution) → IsIdle x.breaker → RoundKept (stream_failed x)
  again_kept : (st : LoopState) → IsIdle st.breaker → RoundKept (stream_again st)
  opened_kept :
      (p : Permit) (st : LoopState) → HoldsOne p st.breaker → RoundKept (stream_opened p st)
