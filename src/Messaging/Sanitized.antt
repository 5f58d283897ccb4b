-- ===== src/Messaging/Sanitized.antt =====
-- Sanitised trace headers, sanitised again
-- (src/agent_runtime/observability/telemetry.py).
use agent_reliability_runtim.Prelude.{String, ◌≡◌, refl, false, inl, inr, Bool-cases, if◌then◌else◌}
use agent_reliability_runtim.Json.{Json, str, Fields, end, field, get_or}
use agent_reliability_runtim.Evaluation.Safety.{is_one_of}
use agent_reliability_runtim.Messaging.Traces.{
  has_parent_form, headers, is_parent, is_state, kept_headers, sanitize_trace_context, state_header,
}

-- What is read back from headers that were let through.
abbrev again : Fields → Fields
again d =
    headers (get_or "traceparent" (str "") (kept_headers d))
      (get_or "tracestate" (str "") (kept_headers d))

no_parent : is_parent "" ≡ false
unfolding is_parent has_parent_form
no_parent = refl

no_state : is_state "" ≡ false
unfolding is_state
no_state = refl

again-without_state :
    (parent : String)
    → let header = if is_parent parent then field "traceparent" (str parent) end else end in
      again header ≡ header
unfolding headers state_header kept_headers is_one_of get_or
again-without_state parent = elim (Bool-cases (is_parent parent)) [
  | inr bad ↦ rw bad (rw no_parent refl)
  | inl good ↦ rw good (rw (good, no_state) refl)
]

again-headers : (parent state : Json) → again (headers parent state) ≡ headers parent state
unfolding headers state_header kept_headers is_one_of get_or
again-headers (str parent) (str state) = elim (Bool-cases (is_state state)) [
  | inr unfit ↦ rw unfit (again-without_state parent)
  | inl fits ↦ elim (Bool-cases (is_parent parent)) [
    | inr bad ↦ rw bad (rw no_parent refl)
    | inl good ↦ rw (good, fits) (rw (good, fits) refl)
  ]
]
again-headers (str parent) state = again-without_state parent
again-headers parent state = rw no_parent refl

-- The headers that were let through are let through again.
pub sanitize-sanitize :
    (carrier : Fields)
    → sanitize_trace_context (kept_headers (sanitize_trace_context carrier))
      ≡ sanitize_trace_context carrier
unfolding sanitize_trace_context
sanitize-sanitize carrier = again-headers _ _
