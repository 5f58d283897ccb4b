-- ===== src/Domain/Retry/Bounds.antt =====
-- Proofs about src/agent_runtime/domain/retry.py: bounds of the backoff delay, the contract of a policy
-- that has been read back, and the round trips of error codes and snapshots.
use native.Mathlib.Nat.{pow-le-pow_right}
use mathlib.Core.Bool.{false≢true}
use agent_reliability_runtim.Prelude.{
  ℕ, zero, suc, ◌-◌, ◌*◌, ◌^◌, ◌≤◌, ◌<◌, min, max, String, ◌≡◌, refl, ◌∙◌, subst, ◌↔◌, true, false,
  some, List, [], ◌∷◌, arith, length, inl, inr, Option-cases, eq_iff,
}
use agent_reliability_runtim.Prelude.Result.{ok, >>=-eq-ok}
use agent_reliability_runtim.Json.{int, float, finite, pos, get_or, Fields}
use agent_reliability_runtim.Domain.Retry.{
  ExecutionErrorCode, provider_timeout, value, of_value, all_error_codes, member_of,
  is_retryable_code, is_retryable_error, RetryPolicy, second, any_blank, post_init,
  delay_after_attempt, positive_int, positive_float, strings, string_list, from_snapshot,
  snapshot_items, as_snapshot,
}

-- A policy that satisfies its contract.
pub record IsValid (p : RetryPolicy) : Type 0 where
  pub attempts_min : 1 ≤ p.max_attempts
  pub attempts_max : p.max_attempts ≤ 20
  pub timeout_positive : 0 < p.attempt_timeout
  pub backoff_positive : 0 < p.initial_backoff
  pub backoff_ordered : p.initial_backoff ≤ p.max_backoff
  pub provider_given : 0 < length p.provider_order
  pub providers_named : any_blank p.provider_order ≡ false

pub post_init-IsValid : (p q : RetryPolicy) → post_init p ≡ ok q → (q ≡ p) × IsValid p
unfolding post_init
post_init-IsValid p q h = ground arith

-- A stored snapshot that is accepted yields a policy within its contract: one to twenty attempts,
-- positive durations, an initial backoff within the maximum, and named providers.
pub from_snapshot-IsValid : (d : Fields) (p : RetryPolicy) → from_snapshot d ≡ ok p → IsValid p
unfolding from_snapshot
from_snapshot-IsValid d p h =
    let (order, _, h₁) = >>=-eq-ok (string_list (get_or "provider_order" _ d)) _ h in
    let (n, _, h₂) = >>=-eq-ok (positive_int (get_or "max_attempts" _ d)) _ h₁ in
    let (t, _, h₃) = >>=-eq-ok (positive_float (get_or "attempt_timeout_seconds" _ d)) _ h₂ in
    let (i, _, h₄) = >>=-eq-ok (positive_float (get_or "initial_backoff_seconds" _ d)) _ h₃ in
    let (m, _, h₅) = >>=-eq-ok (positive_float (get_or "max_backoff_seconds" _ d)) _ h₄ in
    let (same, valid) = post_init-IsValid _ p h₅ in rw same valid

-- For attempt one or later the delay is defined, at least a second, and at most the larger of a
-- second and the policy's maximum.
pub delay_bounds :
    (p : RetryPolicy) (n : ℕ)
    → 1 ≤ n
    → (d : ℕ) × (delay_after_attempt p n ≡ ok d) × (second ≤ d) × (d ≤ max second p.max_backoff)
unfolding delay_after_attempt
delay_bounds p n h = (
  max second (min p.max_backoff (p.initial_backoff * 2 ^ min (n - 1) 20)),
  ground arith,
  omega arith,
  omega arith,
)

doubling_mono : (m n : ℕ) → m ≤ n → 2 ^ min (m - 1) 20 ≤ 2 ^ min (n - 1) 20
doubling_mono m n h = pow-le-pow_right (omega arith) (omega arith)

-- A later attempt never waits less than an earlier one.
pub delay_mono :
    (p : RetryPolicy) (m n d e : ℕ)
    → m ≤ n
    → delay_after_attempt p m ≡ ok d
    → delay_after_attempt p n ≡ ok e
    → d ≤ e
unfolding delay_after_attempt
delay_mono p m n d e h hd he =
    let grows : p.initial_backoff * 2 ^ min (m - 1) 20 ≤ p.initial_backoff * 2 ^ min (n - 1) 20 =
      grind (arith, doubling_mono m n h) in
    ground arith

-- Every member is read back from its stored value.
pub of_value-value : (c : ExecutionErrorCode) → of_value (value c) ≡ some c
unfolding of_value
of_value-value provider_timeout = refl
of_value-value _ = refl

value-member_of :
    (cs : List ExecutionErrorCode) (s : String) (c : ExecutionErrorCode)
    → member_of cs s ≡ some c
    → value c ≡ s
unfolding member_of
value-member_of [] s c h = cc
value-member_of (d ∷ cs) s c h = ground (arith, value-member_of cs s c, eq_iff (value d) s)

value-of_value : (s : String) (c : ExecutionErrorCode) → of_value s ≡ some c → value c ≡ s
unfolding of_value
value-of_value s c h = value-member_of all_error_codes s c h

is_retryable_error-value :
    (c : ExecutionErrorCode) → is_retryable_error (value c) ≡ is_retryable_code c
unfolding is_retryable_error of_value
is_retryable_error-value provider_timeout = refl
is_retryable_error-value _ = refl

-- A stored error code is retryable exactly when it is the value of a retryable member of
-- ExecutionErrorCode.
pub is_retryable_error_iff :
    (s : String)
    → (is_retryable_error s ≡ true)
      ↔ ((c : ExecutionErrorCode) × (value c ≡ s) × (is_retryable_code c ≡ true))
unfolding is_retryable_error
is_retryable_error_iff s = (
  forth,
  λ (c, e, r). subst (λ t. is_retryable_error t ≡ true) e (is_retryable_error-value c ∙ r),
)
  where
    forth :
        is_retryable_error s ≡ true
        → (c : ExecutionErrorCode) × (value c ≡ s) × (is_retryable_code c ≡ true)
    forth h = elim (Option-cases (of_value s)) [
      | inl unknown ↦ absurd (false≢true (rw (unknown, is_retryable_error) at h))
      | inr (c, e) ↦ (c, value-of_value s c e, rw (e, is_retryable_error) at h)
    ]

positive_int-pos : (n : ℕ) → 0 < n → positive_int (int (pos n)) ≡ ok n
unfolding positive_int
positive_int-pos zero h = absurd (omega arith)
positive_int-pos (suc n) h = refl

positive_float-pos : (n : ℕ) → 0 < n → positive_float (float (finite (pos n))) ≡ ok n
unfolding positive_float
positive_float-pos zero h = absurd (omega arith)
positive_float-pos (suc n) h = refl

strings-snapshot_items : (ss : List String) → strings (snapshot_items ss) ≡ ok ss
unfolding strings snapshot_items
strings-snapshot_items [] = refl
strings-snapshot_items (s ∷ ss) = rw (strings-snapshot_items ss)

post_init_of_IsValid : (p : RetryPolicy) → IsValid p → post_init p ≡ ok p
unfolding post_init
post_init_of_IsValid p v = ground arith

-- A policy within its contract is read back from its snapshot unchanged.
pub from_snapshot-as_snapshot : (p : RetryPolicy) → IsValid p → from_snapshot (as_snapshot p) ≡ ok p
unfolding from_snapshot as_snapshot get_or string_list
from_snapshot-as_snapshot p v =
    let capped : min 20 p.max_attempts ≡ p.max_attempts = omega arith in
    simp
      (
        strings-snapshot_items,
        positive_int-pos p.max_attempts v.attempts_min,
        positive_float-pos p.attempt_timeout v.timeout_positive,
        positive_float-pos p.initial_backoff v.backoff_positive,
        positive_float-pos p.max_backoff (omega arith),
        capped,
      )
      (post_init_of_IsValid p v)

-- A retry policy is read from some stored snapshot exactly where it is within its contract: one to
-- twenty attempts, positive durations, an initial backoff within the maximum, and named providers.
pub from_snapshot_iff : (p : RetryPolicy) → IsValid p ↔ ((d : Fields) × (from_snapshot d ≡ ok p))
from_snapshot_iff p = (
  λ v. (as_snapshot p, from_snapshot-as_snapshot p v),
  λ read. from_snapshot-IsValid read.0 p read.1,
)
