-- ===== src/Retry/Classify.antt =====
-- Which failures are retried and count against the breaker.
use llm_go_sdk.Base.{Option, arith, false, inr, none, refl, some, true, ◌≡◌, ◌⊎◌}
use llm_go_sdk.Errors.{
  Error, as_net_error, canceled, circuit_open, connection_failed, connection_refused,
  connection_reset, deadline_exceeded, eof, is, is_temporary, joined, sentinel, stream_interrupted,
  unexpected_eof,
}
use llm_go_sdk.Retry.{is_transient_provider_error, refusal}

-- An error that carries a cancellation, an expired deadline or a refusal by a breaker is neither
-- retried nor counted, whatever API error or transient sentinel stands beside it.
pub caller_side_not_transient :
    (e : Error)
    → (is e canceled ≡ true) ⊎ ((is e deadline_exceeded ≡ true) ⊎ (is e circuit_open ≡ true))
    → is_transient_provider_error e ≡ false
unfolding is_transient_provider_error
caller_side_not_transient e h = ground arith

-- The error of a run that the breaker refused is neither retried nor counted by a layer above.
pub refusal_not_transient :
    (last : Option Error) → is_transient_provider_error (refusal last) ≡ false
unfolding refusal is
refusal_not_transient none = caller_side_not_transient (sentinel circuit_open) (inr (inr refl))
refusal_not_transient (some e) =
    caller_side_not_transient (joined (sentinel circuit_open) e) (inr (inr refl))

-- An error that the core package calls temporary is transient to the middleware, unless it carries a
-- refusal by a breaker, a failed connection or an interrupted stream.
pub transient_of_temporary :
    (e : Error)
    → is_temporary e ≡ true
    → is e circuit_open ≡ false
    → is e connection_failed ≡ false
    → is e stream_interrupted ≡ false
    → is_transient_provider_error e ≡ true
unfolding is_temporary is_transient_provider_error
transient_of_temporary e t c n s = ground arith

-- What the middleware counts as transient is temporary to the core package, but for the network errors
-- that only the middleware knows.
pub temporary_of_transient :
    (e : Error)
    → is_transient_provider_error e ≡ true
    → is e eof ≡ false
    → is e unexpected_eof ≡ false
    → is e connection_refused ≡ false
    → is e connection_reset ≡ false
    → as_net_error e ≡ none
    → is_temporary e ≡ true
unfolding is_temporary is_transient_provider_error
temporary_of_transient e t a b c d n = ground arith
