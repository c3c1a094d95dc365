-- ===== src/Errors/Examples.antt =====
-- An overloaded provider, and a cancellation that stands beside its error.
use Prim.Native.String.{}
use llm_go_sdk.Base.{◌||◌, ◌≡◌}
use llm_go_sdk.Errors.{
  ApiError, Error, api_error, canceled, is, is_retryable, is_temporary, joined, rate_limited,
  request_timeout, sentinel, server_error, service_unavailable, wrap_http_error, wrapped,
}
use llm_go_sdk.Errors.Classify.{is_retryable_matches}
use llm_go_sdk.Errors.Wrapping.{is_temporary-wrap_http_error}

abbrev overloaded : ApiError
overloaded = record {
  status_code = 529;
  type_name = "overloaded_error";
  code = "";
  retry_after = 2;
  provider = "anthropic";
}

abbrev canceled_call : Error
canceled_call = joined (sentinel canceled) (wrapped (api_error overloaded))

is_retryable_matches_example : is_retryable overloaded ≡ (
    is (api_error overloaded) rate_limited
    || (is (api_error overloaded) server_error
        || (is (api_error overloaded) service_unavailable
            || is (api_error overloaded) request_timeout)))
is_retryable_matches_example = is_retryable_matches overloaded

is_temporary-wrap_http_error_example :
    is_temporary (wrap_http_error "anthropic" (wrapped (api_error overloaded)))
    ≡ is_temporary (wrapped (api_error overloaded))
is_temporary-wrap_http_error_example =
    is_temporary-wrap_http_error "anthropic" (wrapped (api_error overloaded))
