-- ===== src/Streams/Jury.antt =====
-- handleMessage of internal/compliance/domain/compliance/pubsub_consumer.go, which forwards the
-- escalations of cases to the jury. The log lines are left out; the circuit breaker and the client of
-- the jury are parameters.
use aocs_compliance_svc.Common.{
  ℕ, Bool, ◌||◌, List, [], ◌∷◌, Option, none, some, is_empty, if◌then◌else◌,
}
use aocs_compliance_svc.Text.{Text}
use aocs_compliance_svc.Propagation.Consumers.{Verdict, ack, nack}
pub mod Laws

-- EscalationMessage.
pub record EscalationMessage : Type 0 where
  pub decision_id : Text
  pub gate_id : Text
  pub tenant_id : Text
  pub agent_id : Text
  pub reason : Text
  pub context_data : Text
  pub timestamp : Text

-- JSON, the escalate function and the circuit breaker's Execute, on their state; true is the nil
-- error.
pub record Services (S : Type 0) : Type 0 where
  pub unmarshal : List ℕ → Option EscalationMessage
  pub escalate : S → EscalationMessage → S × Bool
  pub execute : S → (S → S × Bool) → S × Bool

unfoldable pub is_incomplete : EscalationMessage → Bool
is_incomplete m = is_empty m.tenant_id || is_empty m.agent_id

module _ {S : Type 0} (v : Services S) where
  -- handleMessage.
  unfoldable pub handle_message : S → List ℕ → S × Verdict
  handle_message w data_bytes = elim (v.unmarshal data_bytes) [
    | none ↦ (w, nack)
    | some m ↦
        if is_incomplete m
        then (w, ack)
        else (let (w', went) = v.execute w (λ w. v.escalate w m) in
            (w', if went then ack else nack))
  ]

  -- Messages, one after the other.
  unfoldable pub handle_messages : S → List (List ℕ) → S × List Verdict
  handle_messages w [] = (w, [])
  handle_messages w (m ∷ ms) =
      let (w', verdict) = handle_message w m in
      let (w'', verdicts) = handle_messages w' ms in (w'', verdict ∷ verdicts)
