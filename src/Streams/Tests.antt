-- ===== src/Streams/Tests.antt =====
-- The theorems on the consumers at messages whose bytes are a tenant.
use aocs_compliance_svc.Common.{
  ℕ, not, ◌≡◌, ◌⊎◌, inl, inr, refl, Bool, true, false, List, [], ◌∷◌, ◌++◌, none, some, is_empty,
  length, ltb, Bool-cases, if◌then◌else◌,
}
use aocs_compliance_svc.Text.{Text, codes, eq_text}
use aocs_compliance_svc.Propagation.Consumers.{ack, nack}
use aocs_compliance_svc.Streams.Evidence
use aocs_compliance_svc.Streams.Evidence.{Evidence, row_of, insert_row, insert_evidence}
use aocs_compliance_svc.Streams.Evidence.Laws.{
  IsKeyed, handle_message-IsKeyed, handle_message_redelivered,
}
use aocs_compliance_svc.Streams.Jury
use aocs_compliance_svc.Streams.Jury.{EscalationMessage, is_incomplete, handle_messages}
use aocs_compliance_svc.Streams.Jury.Laws.{Observed}

abbrev evidence : Text → Evidence
evidence tenant = record {
  id = codes "e1";
  type = codes "verdict";
  transaction_id = codes "t1";
  tenant_id = tenant;
  agent_id = [];
  hash = codes "abc";
  payload = codes "{}";
}

abbrev table_on : Evidence.Services
table_on = record { unmarshal = λ bytes. some (evidence bytes); accepts = λ rows r. true }

abbrev acme : Text
acme = codes "acme"

handle_message-IsKeyed_example :
    IsKeyed (Evidence.handle_message table_on acme 5 (row_of (evidence acme) 5 ∷ [])).0
handle_message-IsKeyed_example =
    handle_message-IsKeyed table_on acme 5 (row_of (evidence acme) 5 ∷ []) (tt, tt)

handle_message_redelivered_example :
    let (once, first) = Evidence.handle_message table_on acme 5 [] in
    let (twice, second) = Evidence.handle_message table_on acme 6 once in
    (first ≡ ack) × (second ≡ ack) × (length twice ≡ 2)
unfolding Evidence.handle_message insert_evidence insert_row row_of
handle_message_redelivered_example =
    handle_message_redelivered table_on acme 5 6 [] (evidence acme) refl refl (λ rows r. refl) tt
      (refl, tt)

abbrev escalation : Text → EscalationMessage
escalation tenant = record {
  decision_id = codes "d1";
  gate_id = codes "g";
  tenant_id = tenant;
  agent_id = codes "a1";
  reason = [];
  context_data = [];
  timestamp = [];
}

-- The state is what the jury has got; the circuit breaker lets two messages through; the
-- answer to a message of the tenant "lost" is lost.
abbrev jury : Jury.Services (List EscalationMessage)
jury = record {
  unmarshal = λ bytes. if is_empty bytes then none else some (escalation bytes);
  escalate = λ w m. (w ++ m ∷ [], not (eq_text m.tenant_id (codes "lost")));
  execute = λ w f. if ltb (length w) 2 then f w else (w, false);
}

execute_two :
    (w : List EscalationMessage) (f : List EscalationMessage → List EscalationMessage × Bool)
    → let (w', went) = jury.execute w f in
      ((w' ≡ (f w).0) × (went ≡ (f w).1)) ⊎ ((w' ≡ w) × (went ≡ false))
execute_two w f = elim (Bool-cases (ltb (length w) 2)) [
  | inl few ↦ inl (rw few refl, rw few refl)
  | inr many ↦ inr (rw many refl, rw many refl)
]

unfoldable jury-Observed : Observed (List EscalationMessage) jury
jury-Observed = record {
  sent = λ w. w;
  escalate-sent = λ w m. inl refl;
  execute-runs_or_refuses = execute_two;
}

abbrev four : List (List ℕ)
four = acme ∷ [] ∷ codes "lost" ∷ acme ∷ []

-- The message whose answer is lost is refused, and has reached the jury.
handle_messages-lost :
    handle_messages jury [] four
    ≡ (escalation acme ∷ escalation (codes "lost") ∷ [], ack ∷ nack ∷ nack ∷ nack ∷ [])
unfolding handle_messages Jury.handle_message is_incomplete eq_text
handle_messages-lost = refl
