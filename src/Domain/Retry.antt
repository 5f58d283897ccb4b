-- ===== src/Domain/Retry.antt =====
-- src/agent_runtime/domain/retry.py: the retry contract that is stored with each run. A number of
-- seconds is kept in microseconds, the resolution of Python's `timedelta`.
pub mod Bounds
use Prim.Native.Char.{code}
use agent_reliability_runtim.Prelude.{
  ℕ, zero, suc, ◌+◌, ◌-◌, ◌*◌, ◌^◌, min, max, String, Bool, true, false, not, ◌&&◌, ◌||◌, Option,
  none, some, List, [], ◌∷◌, ltb, leb, ◌==◌, str_eq, if◌then◌else◌,
}
use agent_reliability_runtim.Prelude.Result.{
  Result, ok, raise, value_error, overflow_error, ◌>>=◌, ◌>>◌,
}
use agent_reliability_runtim.Json.{
  ℤ, pos, negsuc, Float, finite, infinite, nan, Json, null, boolean, int, float, str, arr, obj,
  Items, nil, cons, Fields, end, field, get_or,
}

pub data ExecutionErrorCode : Type 0 where
  provider_timeout provider_rate_limited provider_unavailable : ExecutionErrorCode
  provider_server_error provider_auth_failed provider_bad_request : ExecutionErrorCode
  execution_error execution_lease_expired resource_quota_exceeded : ExecutionErrorCode

-- The value of a member, as it is stored.
unfoldable pub value : ExecutionErrorCode → String
value provider_timeout = "PROVIDER_TIMEOUT"
value provider_rate_limited = "PROVIDER_RATE_LIMITED"
value provider_unavailable = "PROVIDER_UNAVAILABLE"
value provider_server_error = "PROVIDER_SERVER_ERROR"
value provider_auth_failed = "PROVIDER_AUTH_FAILED"
value provider_bad_request = "PROVIDER_BAD_REQUEST"
value execution_error = "EXECUTION_ERROR"
value execution_lease_expired = "EXECUTION_LEASE_EXPIRED"
value resource_quota_exceeded = "RESOURCE_QUOTA_EXCEEDED"

abbrev all_error_codes : List ExecutionErrorCode
all_error_codes =
    provider_timeout ∷ provider_rate_limited ∷ provider_unavailable ∷ provider_server_error
    ∷ provider_auth_failed ∷ provider_bad_request ∷ execution_error ∷ execution_lease_expired
    ∷ resource_quota_exceeded ∷ []

member_of : List ExecutionErrorCode → String → Option ExecutionErrorCode
unfolding value
member_of [] s = none
member_of (c ∷ rest) s = if str_eq (value c) s then some c else member_of rest s

-- `ExecutionErrorCode(error_code)`; `none` where it raises `ValueError`.
unfoldable pub of_value : String → Option ExecutionErrorCode
unfolding member_of
of_value s = member_of all_error_codes s

-- Membership of `RETRYABLE_ERROR_CODES`.
unfoldable pub is_retryable_code : ExecutionErrorCode → Bool
is_retryable_code provider_timeout = true
is_retryable_code provider_rate_limited = true
is_retryable_code provider_unavailable = true
is_retryable_code provider_server_error = true
is_retryable_code execution_error = true
is_retryable_code execution_lease_expired = true
is_retryable_code provider_auth_failed = false
is_retryable_code provider_bad_request = false
is_retryable_code resource_quota_exceeded = false

unfoldable pub is_retryable_error : String → Bool
is_retryable_error error_code = elim (of_value error_code) [
  | none ↦ false
  | some c ↦ is_retryable_code c
]

-- What `classify_exception` can see of an exception: its class, and its `status_code` if it has one.
pub data ProviderException : Type 0 where
  quota_exceeded_error timeout_error : ProviderException
  other_error : Option ℕ → ProviderException

classify_status : ℕ → ExecutionErrorCode
classify_status code =
    if code == 429
    then provider_rate_limited
    else if code == 401 || code == 403
    then provider_auth_failed
    else if leb 500 code && leb code 599
    then provider_server_error
    else if leb 400 code && leb code 499
    then provider_bad_request
    else execution_error

unfoldable pub classify_exception : ProviderException → ExecutionErrorCode
unfolding classify_status
classify_exception quota_exceeded_error = resource_quota_exceeded
classify_exception timeout_error = provider_timeout
classify_exception (other_error none) = execution_error
classify_exception (other_error (some code)) = classify_status code

-- The durations are in microseconds.
pub record RetryPolicy : Type 0 where
  pub max_attempts : ℕ
  pub attempt_timeout : ℕ
  pub initial_backoff : ℕ
  pub max_backoff : ℕ
  pub provider_order : List String

abbrev pub second : ℕ
second = 1_000_000

-- The code points that `str.strip` removes.
is_space : ℕ → Bool
is_space c =
    (leb 9 c && leb c 13)
    || (leb 28 c && leb c 32)
    || c == 133
    || c == 160
    || c == 5760
    || (leb 8192 c && leb c 8202)
    || c == 8232
    || c == 8233
    || c == 8239
    || c == 8287
    || c == 12288

-- `not text.strip()`
unfoldable pub is_blank : String → Bool
unfolding is_space
is_blank String.[] = true
is_blank (String.◌∷◌ c s) = is_space (code c) && is_blank s

unfoldable pub any_blank : List String → Bool
unfolding is_blank
any_blank [] = false
any_blank (p ∷ rest) = is_blank p || any_blank rest

is_nil : List String → Bool
is_nil [] = true
is_nil (_ ∷ _) = false

-- `RetryPolicy.__post_init__`; a natural number of microseconds is finite and not negative.
unfoldable pub post_init : RetryPolicy → Result RetryPolicy
unfolding is_nil
post_init p =
    if not (leb 1 p.max_attempts && leb p.max_attempts 20)
    then raise value_error
    else if p.attempt_timeout == 0
    then raise value_error
    else if p.initial_backoff == 0
    then raise value_error
    else if ltb p.max_backoff p.initial_backoff
    then raise value_error
    else if is_nil p.provider_order || any_blank p.provider_order
    then raise value_error
    else ok p

unfoldable pub delay_after_attempt : RetryPolicy → ℕ → Result ℕ
delay_after_attempt p attempt_number =
    if ltb attempt_number 1
    then raise value_error
    else ok (max second (min p.max_backoff (p.initial_backoff * 2 ^ min (attempt_number - 1) 20)))

unfoldable pub positive_int : Json → Result ℕ
positive_int (int (pos (suc n))) = ok (suc n)
positive_int _ = raise value_error

-- The least integer that rounds to no float: `math.isfinite` raises `OverflowError` from there on.
unfoldable pub float_limit : ℕ
float_limit = 2 ^ 1024 - 2 ^ 970

unfoldable pub is_huge : ℕ → Bool
unfolding float_limit
is_huge n = leb float_limit n

unfoldable pub positive_float : Json → Result ℕ
positive_float (int (pos n)) =
    if is_huge n
    then raise overflow_error
    else if n == 0
    then raise value_error
    else ok (n * second)
positive_float (int (negsuc n)) =
    if is_huge (suc n) then raise overflow_error else raise value_error
positive_float (float (finite (pos (suc n)))) = ok (suc n)
positive_float _ = raise value_error

-- `isinstance(value, list) and all(isinstance(provider, str) …)`
unfoldable pub strings : Items → Result (List String)
strings nil = ok []
strings (cons (str s) rest) = strings rest >>= λ ss. ok (s ∷ ss)
strings (cons _ rest) = raise value_error

unfoldable pub string_list : Json → Result (List String)
unfolding strings
string_list (arr items) = strings items
string_list _ = raise value_error

unfoldable pub from_snapshot : Fields → Result RetryPolicy
from_snapshot d = do
  provider_order ← string_list (get_or "provider_order" (arr (cons (str "deterministic") nil)) d)
  max_attempts ← positive_int (get_or "max_attempts" (int (pos 3)) d)
  attempt_timeout ← positive_float (get_or "attempt_timeout_seconds" (int (pos 60)) d)
  initial_backoff ← positive_float (get_or "initial_backoff_seconds" (int (pos 1)) d)
  max_backoff ← positive_float (get_or "max_backoff_seconds" (int (pos 60)) d)
  post_init (record {
    max_attempts = min 20 max_attempts;
    attempt_timeout = attempt_timeout;
    initial_backoff = initial_backoff;
    max_backoff = max_backoff;
    provider_order = provider_order;
  })

unfoldable pub snapshot_items : List String → Items
snapshot_items [] = nil
snapshot_items (s ∷ rest) = cons (str s) (snapshot_items rest)

-- `as_snapshot`; the numbers of seconds are floats.
unfoldable pub as_snapshot : RetryPolicy → Fields
unfolding snapshot_items
as_snapshot p = field "max_attempts" (int (pos p.max_attempts)) (
    field "attempt_timeout_seconds" (float (finite (pos p.attempt_timeout))) (
      field "initial_backoff_seconds" (float (finite (pos p.initial_backoff))) (
        field "max_backoff_seconds" (float (finite (pos p.max_backoff)))
          (field "provider_order" (arr (snapshot_items p.provider_order)) end))))
