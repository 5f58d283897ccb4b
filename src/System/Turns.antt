-- ===== src/System/Turns.antt =====
-- What a change of the tables does to the row of one run, found by its identifier or by its key.
use agent_reliability_runtim.Prelude.{◌≡◌, refl, ap, ◌∙◌, true, ◌⊎◌, inl, inr, arith}
use agent_reliability_runtim.Prelude.Result.{ok}
use agent_reliability_runtim.Domain.States.{
  EvaluationStatus, is_terminal_execution_status, queued, retry_scheduled,
  ensure_execution_transition,
}
use agent_reliability_runtim.Store.{Run}
use agent_reliability_runtim.Execution.Frames.{with_evaluation}
use agent_reliability_runtim.Lifecycle.{Moves}
use agent_reliability_runtim.Lifecycle.Rows.{
  SameRequest, Moves-SameRequest, Moves-live, Moves-allowed,
}

-- One change, seen from one run: it rests, or it makes one move. Its evaluation summary may change
-- in either case.
pub data Turn (r r' : Run) : Type 0 where
  rests : (s : EvaluationStatus) → r' ≡ with_evaluation s r → Turn r r'
  turns : (new : Run) (s : EvaluationStatus) → Moves r new → r' ≡ with_evaluation s new → Turn r r'

-- Any number of changes, seen from one run: what was accepted is kept, and once the run has ended
-- nothing but its evaluation summary changes.
pub record Follows (r r' : Run) : Type 0 where
  pub kept : SameRequest r r'
  pub final :
      is_terminal_execution_status r.execution_status ≡ true
      → (s : EvaluationStatus) × (r' ≡ with_evaluation s r)

SameRequest-blind :
    (r new : Run) (s : EvaluationStatus) → SameRequest r new → SameRequest r (with_evaluation s new)
SameRequest-blind r new s h = record {
  id = h.id;
  client_id = h.client_id;
  principal_id = h.principal_id;
  work_kind = h.work_kind;
  idempotency_key = h.idempotency_key;
  request_hash = h.request_hash;
  input_payload = h.input_payload;
  policy_snapshot = h.policy_snapshot;
  trace_context = h.trace_context;
  created_at = h.created_at;
  replay_of_run_id = h.replay_of_run_id;
}

pub Follows-refl : (r : Run) → Follows r r
Follows-refl r = record {
  kept = record {
    id = refl;
    client_id = refl;
    principal_id = refl;
    work_kind = refl;
    idempotency_key = refl;
    request_hash = refl;
    input_payload = refl;
    policy_snapshot = refl;
    trace_context = refl;
    created_at = refl;
    replay_of_run_id = refl;
  };
  final = λ _. (r.evaluation_status, refl);
}

pub Follows-of_Turn : (r r' : Run) → Turn r r' → Follows r r'
Follows-of_Turn r r' (rests s e) =
    rw e (record { kept = SameRequest-blind r r s (Follows-refl r).kept; final = λ _. (s, refl) })
Follows-of_Turn r r' (turns new s m e) = rw e (record {
  kept = SameRequest-blind r new s (Moves-SameRequest r new m);
  final = λ ended. absurd (ground (arith, Moves-live r new m));
})

SameRequest-trans : (a b c : Run) → SameRequest a b → SameRequest b c → SameRequest a c
SameRequest-trans a b c f g = record {
  id = g.id ∙ f.id;
  client_id = g.client_id ∙ f.client_id;
  principal_id = g.principal_id ∙ f.principal_id;
  work_kind = g.work_kind ∙ f.work_kind;
  idempotency_key = g.idempotency_key ∙ f.idempotency_key;
  request_hash = g.request_hash ∙ f.request_hash;
  input_payload = g.input_payload ∙ f.input_payload;
  policy_snapshot = g.policy_snapshot ∙ f.policy_snapshot;
  trace_context = g.trace_context ∙ f.trace_context;
  created_at = g.created_at ∙ f.created_at;
  replay_of_run_id = g.replay_of_run_id ∙ f.replay_of_run_id;
}

pub Follows-trans : (a b c : Run) → Follows a b → Follows b c → Follows a c
Follows-trans a b c f g = record {
  kept = SameRequest-trans a b c f.kept g.kept;
  final = λ ended.
      let (s, e) = f.final ended in
      let (t, e') =
        g.final (ap (λ (r : Run). is_terminal_execution_status r.execution_status) e ∙ ended) in
      (t, e' ∙ ap (with_evaluation t) e);
}

-- A turn takes no edge of the lifecycle but an allowed one, or the one of a claim without capacity.
pub Turn-allowed :
    (r r' : Run)
    → Turn r r'
    → (r'.execution_status ≡ r.execution_status)
      ⊎ ((ensure_execution_transition r.execution_status r'.execution_status ≡ ok tt)
          ⊎ ((r.execution_status ≡ queued) × (r'.execution_status ≡ retry_scheduled)))
Turn-allowed r r' (rests s e) = inl (ap (λ (x : Run). x.execution_status) e)
Turn-allowed r r' (turns new s m e) = rw e (inr (Moves-allowed r new m))
