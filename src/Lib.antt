-- ===== src/Lib.antt =====
-- Verification of the core of the LLM SDK for Go: the middleware that stands between a caller and a
-- provider's client, the classification of errors that it acts on, the preparation of messages, the
-- tool-calling loop and the response cache.
--
-- The parts, and how they interact. A provider's failure is an error value; errors.go says what it is
-- (an API error with a status, a sentinel, a wrapper) and whether it is temporary. ResilientClient
-- (pkg/middleware/resilience/resilience.go) calls the client in a loop: it asks the circuit breaker
-- for a permit, calls, and gives the permit back as a success, as a failure of the provider or
-- unused; between attempts it waits. FallbackChain (fallback.go beside it) tries several clients in
-- order and puts one that fails for its provider's reasons into a cooldown. RateLimiter
-- (ratelimit.go beside it) keeps accounts of tokens that were reserved, used and owed. The sliding
-- window (pkg/observability/metrics_sliding_window.go) counts outcomes for the success rate. A client
-- prepares the messages of a call (message.go) before they are sent. RunTools (runtools.go) calls a
-- client in turns, and does the tool calls that the model asks for through a ToolRegistry (tools.go).
-- CachedClient (caching_middleware.go) answers a repeated request from a cache, and ProcessBatch
-- (batch.go) runs many requests on a few workers.
--
-- The files:
--   Base        shared names, tests on numbers, lists, integers.
--   Errors      errors.go: Error, ApiError, is_retryable (IsRetryable), is (errors.Is), is_temporary
--               (IsTemporary), wrap_http_error (WrapHTTPError), root_cause (rootCause).
--   Breaker     pkg/middleware/resilience/resilience_circuit_breaker.go: CircuitBreaker with one
--               function per method, named as the method is. Every method holds the lock throughout,
--               so it is one atomic step from a record to a record; the clock is an argument.
--   Retry       pkg/middleware/resilience/resilience.go and resilience_retry.go: execute is the loop,
--               attempt its body, attempts_of its bound. Retry/Options has NewResilientClient, and
--               Retry/Stream the Stream method, its own loop and finalizer. During a run of either
--               nobody else changes the breaker.
--   Fallback    pkg/middleware/resilience/fallback.go: FallbackChain and its methods; Loop has
--               executeWithFallback. What other goroutines do while a client is called is an argument.
--               Fallback/Weighted has the chain with weights.
--   RateLimit   pkg/middleware/resilience/ratelimit.go: settle_token_debt (settleTokenDebt);
--               RateLimit/Acquire has try_acquire (tryAcquire, with its two readings of the clock),
--               RateLimit/Usage record_tokens (recordTokens), RateLimit/Generations the runs of
--               calls, RateLimit/Options NewRateLimiter and the shared limiters. Each call runs alone.
--   Window      pkg/observability/metrics_sliding_window.go: record_outcome (Record), cleanup_locked
--               (cleanupLocked), success_rate (SuccessRate).
--   Message     message.go: Message and its parts; Message/Validate has validate_messages
--               (ValidateMessages) and the other validations, Message/Merge
--               merge_consecutive_messages (MergeConsecutiveMessages), consolidate_system_messages
--               (ConsolidateSystemMessages) and prepare_messages (PrepareMessages), Message/Turn
--               current_turn_start (CurrentTurnStart of turn.go).
--   Tool        tools.go: the tool results and the look-up of calls; Tool/Registry has ToolRegistry
--               with one function per method, Tool/Loop run_tools (RunTools of runtools.go), and
--               Tool/Calls the steps of runToolCalls and of its goroutines.
--   Cache       caching_middleware.go: MemoryResponseCache with get (Get), set (Set) and evict_locked
--               (evictLocked); Cache/Client has generate_content (GenerateContent of CachedClient)
--               over any cache that keeps to CacheLaws.
--   Batch       batch.go: the options, the ids of requests and the BatchBuilder; Batch/Process has the
--               steps of the workers of ProcessBatch: the record of a result, the cancellation and the
--               report of the progress are separate steps, as their locks are.
-- The modules below each of these hold its proofs, named for what they prove; its Examples has runs on
-- concrete inputs.
--
-- Bounds and fuel. No definition needs fuel beyond the source's own bounds: the retry loop runs at
-- most attempts_of times, the settling and charging loops at most max_token_installments times,
-- RunTools takes at most the turns that its options allow, and the loops over lists end with the
-- list. The loop that evicts from a cache takes the number of entries as fuel, since each round
-- removes one. Times and durations are natural numbers of nanoseconds. The generations wrap around
-- at 2^64 as in the source; the other counters are taken not to overflow, except the token debt,
-- whose sum is cut at the largest int as in the source.
--
-- Parameters. What a client returns, the clock, the jitter and the growth of the delay (float64),
-- the end of a context, and the buckets of golang.org/x/time/rate, of which the theorems assume,
-- by name, that a granted reservation is charged and a refused one is not (Charges), that CancelAt
-- at the time of a reservation reverses it (Refunds), and where they say so that a reservation
-- within the burst is granted and leaves the burst as it is. What a tool's handler returns,
-- json.Marshal and the quoting of fmt are a Host, on which a handler's answer depends on the
-- handler and the arguments only, throughout a run; what the model answers and when a context ends
-- are a World; the sum of two costs (float64) is a function; the order in which the runtime visits
-- a map is an argument, of which the theorems on evictions assume that it visits only the map's
-- entries and as many (VisitsEntries), or each of them once (VisitsOnce); the key of a request is
-- a function.
--
-- Not modelled: the goroutines that forward a stream (streaming.go) and FallbackChain.Stream, the
-- blocking wait of the rate limiter, the texts of most errors, the default key of a request (JSON
-- and SHA-256), the schemas and the typed arguments of tools; the copies that keep a caller from
-- changing stored values, which are values here; and the rest of the SDK (costs, the providers'
-- wire formats, MCP, exporters), which does not take part in these decisions.
pub mod Base
pub mod Errors
pub mod Breaker
pub mod Retry
pub mod Fallback
pub mod RateLimit
pub mod Window
pub mod Message
pub mod Tool
pub mod Cache
pub mod Batch
