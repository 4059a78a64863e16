-- ===== src/Streams/Jury/Laws.antt =====
-- Which messages the jury has got, by what the consumer answers.
use aocs_compliance_svc.Common.{
  ℕ, ◌≡◌, ◌⊎◌, Bool, false, List, [], ◌∷◌, ◌++◌, none, some, if◌then◌else◌,
}
use aocs_compliance_svc.Propagation.Consumers.{Verdict, ack, nack}
use aocs_compliance_svc.Streams.Jury.{EscalationMessage, Services, is_incomplete}

-- A jury that has got the messages whose escalation went through, and may have got one whose
-- escalation failed, as where the answer is lost; and a circuit breaker that runs what it is given or
-- refuses, and then fails.
pub record Observed (S : Type 0) (v : Services S) : Type 0 where
  pub sent : S → List EscalationMessage
  pub escalate-sent :
      (w : S) (m : EscalationMessage)
      → let (w', went) = v.escalate w m in
        (sent w' ≡ sent w ++ m ∷ []) ⊎ ((went ≡ false) × (sent w' ≡ sent w))
  pub execute-runs_or_refuses :
      (w : S) (f : S → S × Bool)
      → let (w', went) = v.execute w f in
        ((sent w' ≡ sent (f w).0) × (went ≡ (f w).1)) ⊎ ((sent w' ≡ sent w) × (went ≡ false))

module _ {S : Type 0} (v : Services S) where
  -- The messages that are complete and were acknowledged.
  unfoldable pub acknowledged_of : List ℕ → Verdict → List EscalationMessage
  acknowledged_of data_bytes verdict = elim (v.unmarshal data_bytes) [
    | none ↦ []
    | some m ↦ if is_incomplete m then [] else (elim verdict [ ack ↦ m ∷ [] | nack ↦ [] ])
  ]

  -- What a message with a verdict may have brought to the jury: itself where it was acknowledged,
  -- and itself or nothing where it was refused; nothing at all where it is incomplete.
  unfoldable pub IsPart : List ℕ → Verdict → List EscalationMessage → Type 0
  IsPart data_bytes verdict part =
      (part ≡ acknowledged_of data_bytes verdict)
      ⊎ ((verdict ≡ nack) × (part ≡ acknowledged_of data_bytes ack))

  -- The parts of messages with their verdicts, one after the other.
  pub data Forwarded : List (List ℕ) → List Verdict → List EscalationMessage → Type 0 where
    none_left : Forwarded [] [] []
    one_more :
        {data_bytes : List ℕ} {messages : List (List ℕ)} {verdict : Verdict}
        {verdicts : List Verdict} (part rest : List EscalationMessage)
        → IsPart data_bytes verdict part
        → Forwarded messages verdicts rest
        → Forwarded (data_bytes ∷ messages) (verdict ∷ verdicts) (part ++ rest)
