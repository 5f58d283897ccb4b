-- ===== src/Domain/Policy/Limits.antt =====
-- A snapshot that `build_policy_snapshot` (src/agent_runtime/domain/retry.py) returns is a policy within
-- its contract and within the limits of the service.
use agent_reliability_runtim.Prelude.{
  ℕ, zero, suc, ◌≤◌, String, ◌≡◌, ap, ◌∙◌, Option, some, List, ltb, arith, if◌then◌else◌,
}
use agent_reliability_runtim.Prelude.Result.{ok, raise, value_error, >>=-eq-ok}
use agent_reliability_runtim.Json.{
  Json, nil, cons, int, str, arr, pos, Fields, get, get_or, get-put,
}
use agent_reliability_runtim.Domain.Retry.{
  RetryPolicy, positive_int, positive_float, string_list, from_snapshot, as_snapshot,
}
use agent_reliability_runtim.Domain.Retry.Bounds.{
  IsValid, post_init-IsValid, from_snapshot-IsValid, from_snapshot-as_snapshot,
}
use agent_reliability_runtim.Domain.Routing.Decisions.{NumberFormat, Decision, resolve}
use agent_reliability_runtim.Domain.Routing.Scores.{default_provider_catalog}
use agent_reliability_runtim.Domain.Policy.{
  RunPolicyRequest, PolicyDefaults, model_validate, or_else, attempts_of, timeout_of, initial_of,
  longest_of, seconds_json, merged, routed, merge, build_policy_snapshot,
}

get_or_same :
    (key : String) (default : Json) (d e : Fields)
    → get key d ≡ get key e
    → get_or key default d ≡ get_or key default e
unfolding get_or
get_or_same key default d e h = rw (h, get_or)

-- What a stored policy reads back as depends on five entries alone.
from_snapshot_same :
    (d e : Fields)
    → get "provider_order" d ≡ get "provider_order" e
    → get "max_attempts" d ≡ get "max_attempts" e
    → get "attempt_timeout_seconds" d ≡ get "attempt_timeout_seconds" e
    → get "initial_backoff_seconds" d ≡ get "initial_backoff_seconds" e
    → get "max_backoff_seconds" d ≡ get "max_backoff_seconds" e
    → from_snapshot d ≡ from_snapshot e
unfolding from_snapshot
from_snapshot_same d e o a t i m = simp (
  get_or_same "provider_order" (arr (cons (str "deterministic") nil)) d e o,
  get_or_same "max_attempts" (int (pos 3)) d e a,
  get_or_same "attempt_timeout_seconds" (int (pos 60)) d e t,
  get_or_same "initial_backoff_seconds" (int (pos 1)) d e i,
  get_or_same "max_backoff_seconds" (int (pos 60)) d e m,
)

-- The entries of a policy win over those of the snapshot that it is merged into.
merge-as_snapshot :
    (d : Fields) (p : RetryPolicy)
    → from_snapshot (merge d (as_snapshot p)) ≡ from_snapshot (as_snapshot p)
unfolding merge as_snapshot get
merge-as_snapshot d p =
    from_snapshot_same _ _ (simp get-put) (simp get-put) (simp get-put) (simp get-put)
      (simp get-put)

-- What the snapshot holds under the keys of the numbers.
module _ (format : NumberFormat) (decision : Decision) (r : RunPolicyRequest)
    (s : PolicyDefaults) where
  attempts_read :
      get "max_attempts" (routed format decision (merged r s)) ≡ some (int (pos (attempts_of r s)))
  unfolding routed merged
  attempts_read = simp get-put

  timeout_read :
      get "attempt_timeout_seconds" (routed format decision (merged r s))
      ≡ some (seconds_json (timeout_of r s))
  unfolding routed merged
  timeout_read = simp get-put

  initial_read :
      get "initial_backoff_seconds" (routed format decision (merged r s))
      ≡ some (seconds_json (initial_of r s))
  unfolding routed merged
  initial_read = simp get-put

  longest_read :
      get "max_backoff_seconds" (routed format decision (merged r s))
      ≡ some (seconds_json (longest_of r s))
  unfolding routed merged
  longest_read = simp get-put

positive_float-seconds_json : (m n : ℕ) → positive_float (seconds_json m) ≡ ok n → n ≡ m
unfolding positive_float seconds_json
positive_float-seconds_json zero n h = cc
positive_float-seconds_json (suc m) n h = cc

positive_int-int : (m n : ℕ) → positive_int (int (pos m)) ≡ ok n → n ≡ m
unfolding positive_int
positive_int-int zero n h = cc
positive_int-int (suc m) n h = cc

get_or-some :
    (key : String) (default v : Json) (d : Fields) → get key d ≡ some v → get_or key default d ≡ v
unfolding get_or
get_or-some key default v d h = rw (h, get_or)

seconds_read :
    (key : String) (default : Json) (d : Fields) (m n : ℕ)
    → get key d ≡ some (seconds_json m)
    → positive_float (get_or key default d) ≡ ok n
    → n ≡ m
seconds_read key default d m n h e =
    positive_float-seconds_json m n (rw (get_or-some key default (seconds_json m) d h) at e)

-- A policy that was read back has the numbers that the snapshot holds.
from_snapshot_numbers :
    (d : Fields) (p : RetryPolicy) (a t i m : ℕ)
    → from_snapshot d ≡ ok p
    → get "max_attempts" d ≡ some (int (pos a))
    → get "attempt_timeout_seconds" d ≡ some (seconds_json t)
    → get "initial_backoff_seconds" d ≡ some (seconds_json i)
    → get "max_backoff_seconds" d ≡ some (seconds_json m)
    → (p.max_attempts ≤ a) × (p.attempt_timeout ≡ t) × (p.initial_backoff ≡ i) × (p.max_backoff ≡ m)
unfolding from_snapshot
from_snapshot_numbers d p a t i m h ha ht hi hm =
    let (order, _, h₁) = >>=-eq-ok (string_list (get_or "provider_order" _ d)) _ h in
    let (n, en, h₂) = >>=-eq-ok (positive_int (get_or "max_attempts" _ d)) _ h₁ in
    let (t', et, h₃) = >>=-eq-ok (positive_float (get_or "attempt_timeout_seconds" _ d)) _ h₂ in
    let (i', ei, h₄) = >>=-eq-ok (positive_float (get_or "initial_backoff_seconds" _ d)) _ h₃ in
    let (m', em, h₅) = >>=-eq-ok (positive_float (get_or "max_backoff_seconds" _ d)) _ h₄ in
    let (same, valid) = post_init-IsValid _ p h₅ in
    let n_same =
      positive_int-int a n
        (rw (get_or-some "max_attempts" (int (pos 3)) (int (pos a)) d ha) at en) in
    (
      rw same (omega (arith, n_same)),
      ap (λ (q : RetryPolicy). q.attempt_timeout) same
          ∙ seconds_read "attempt_timeout_seconds" (int (pos 60)) d t t' ht et,
      ap (λ (q : RetryPolicy). q.initial_backoff) same
          ∙ seconds_read "initial_backoff_seconds" (int (pos 1)) d i i' hi ei,
      ap (λ (q : RetryPolicy). q.max_backoff) same
          ∙ seconds_read "max_backoff_seconds" (int (pos 60)) d m m' hm em,
    )

-- A policy that the service may keep.
pub record IsWithin (s : PolicyDefaults) (p : RetryPolicy) : Type 0 where
  pub valid : IsValid p
  pub attempts : p.max_attempts ≤ s.max_attempts
  pub timeout : p.attempt_timeout ≤ s.attempt_timeout_seconds
  pub backoff : p.max_backoff ≤ s.max_backoff_seconds

within :
    (format : NumberFormat) (decision : Decision) (r : RunPolicyRequest) (s : PolicyDefaults)
    (p : RetryPolicy) (snapshot : Fields)
    → from_snapshot (routed format decision (merged r s)) ≡ ok p
    → (ok (merge (routed format decision (merged r s)) (as_snapshot p))) ≡ ok snapshot
    → (q : RetryPolicy) × (from_snapshot snapshot ≡ ok q) × IsWithin s q
unfolding attempts_of timeout_of initial_of longest_of
within format decision r s p snapshot read same =
    let d = routed format decision (merged r s) in
    let e : merge d (as_snapshot p) ≡ snapshot = cc in
    let valid = from_snapshot-IsValid d p read in
    let (attempts, timeout, initial, longest) =
      from_snapshot_numbers d p (attempts_of r s) (timeout_of r s) (initial_of r s) (longest_of r s)
        read (attempts_read format decision r s) (timeout_read format decision r s)
        (initial_read format decision r s) (longest_read format decision r s) in
    (
      p,
      rw (← e) (merge-as_snapshot d p ∙ from_snapshot-as_snapshot p valid),
      record {
        valid = valid;
        attempts = omega (arith, attempts);
        timeout = omega (arith, timeout);
        backoff = omega (arith, longest, initial);
      },
    )

-- Whatever a client requests, a policy snapshot that is built is read back as a policy within its
-- contract, with no more attempts and no longer timeout and backoff than the service allows.
pub build_policy_snapshot-IsWithin :
    (format : NumberFormat) (requested snapshot : Fields) (s : PolicyDefaults)
    (available : Option (List String))
    → build_policy_snapshot format requested s available ≡ ok snapshot
    → (p : RetryPolicy) × (from_snapshot snapshot ≡ ok p) × IsWithin s p
unfolding build_policy_snapshot
build_policy_snapshot-IsWithin format requested snapshot s available h =
    let (r, _, h₁) = >>=-eq-ok (model_validate requested) _ h in
    let (_, _, h₂) =
      >>=-eq-ok
        (if ltb (or_else r.max_backoff_seconds s.max_backoff_seconds)
            (or_else r.initial_backoff_seconds s.initial_backoff_seconds)
          then raise value_error
          else ok tt)
        _ h₁ in
    let (decision, _, h₃) =
      >>=-eq-ok (resolve (merged r s) available default_provider_catalog) _ h₂ in
    let (p, read, same) = >>=-eq-ok (from_snapshot (routed format decision (merged r s))) _ h₃ in
    within format decision r s p snapshot read same
