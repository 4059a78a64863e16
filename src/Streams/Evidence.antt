-- ===== src/Streams/Evidence.antt =====
-- handleMessage, insertEvidence and nullIfEmpty of
-- internal/compliance/domain/compliance/ledger_consumer.go, on the table core_evidence_records, whose
-- statement is in the source. The log lines are left out. A time is in microseconds, as the table
-- keeps it.
use aocs_compliance_svc.Common.{
  ℕ, Bool, ◌&&◌, ◌||◌, ◌==◌, List, [], ◌∷◌, Option, none, some, is_empty, if◌then◌else◌,
}
use aocs_compliance_svc.Text.{Text, codes, eq_text}
use aocs_compliance_svc.Propagation.Consumers.{Verdict, ack, nack}
pub mod Laws

-- What is read of a database.QCoreEvidenceRecord.
pub record Evidence : Type 0 where
  pub id : Text
  pub type : Text
  pub transaction_id : Text
  pub tenant_id : Text
  pub agent_id : Text
  pub hash : Text
  pub payload : Text

pub record EvidenceRow : Type 0 where
  pub id : Text
  pub type : Text
  pub transaction_id : Text
  pub tenant_id : Text
  pub agent_id : Option Text
  pub hash : Text
  pub payload : Text
  pub timestamp : ℕ
  pub created_at : ℕ
  pub created_by : Text

-- What the consumer takes from elsewhere: JSON, and whether a statement goes through.
pub record Services : Type 0 where
  pub unmarshal : List ℕ → Option Evidence
  pub accepts : List EvidenceRow → EvidenceRow → Bool

unfoldable pub null_if_empty : Text → Option Text
null_if_empty t = if is_empty t then none else some t

unfoldable pub row_of : Evidence → ℕ → EvidenceRow
row_of e now = record {
  id = e.id;
  type = e.type;
  transaction_id = e.transaction_id;
  tenant_id = e.tenant_id;
  agent_id = null_if_empty e.agent_id;
  hash = e.hash;
  payload = e.payload;
  timestamp = now;
  created_at = now;
  created_by = if is_empty e.agent_id then codes "ledger.consumer" else e.agent_id;
}

-- ON CONFLICT (id, timestamp).
unfoldable pub conflicts : EvidenceRow → EvidenceRow → Bool
conflicts new old = eq_text new.id old.id && (new.timestamp == old.timestamp)

-- DO UPDATE SET.
unfoldable pub overwrite : EvidenceRow → EvidenceRow → EvidenceRow
overwrite new old = record {
  id = old.id;
  type = old.type;
  transaction_id = old.transaction_id;
  tenant_id = old.tenant_id;
  agent_id = old.agent_id;
  hash = new.hash;
  payload = new.payload;
  timestamp = old.timestamp;
  created_at = new.created_at;
  created_by = new.created_by;
}

-- The statement, on the rows of the table.
unfoldable pub insert_row : EvidenceRow → List EvidenceRow → List EvidenceRow
insert_row new [] = new ∷ []
insert_row new (old ∷ rows) =
    let rest = insert_row new rows in
    if conflicts new old then overwrite new old ∷ rows else old ∷ rest

module _ (s : Services) where
  -- insertEvidence; true is the nil error.
  unfoldable pub insert_evidence : Evidence → ℕ → List EvidenceRow → List EvidenceRow × Bool
  insert_evidence e now rows =
      let new = row_of e now in
      let went = s.accepts rows new in (if went then insert_row new rows else rows, went)

  -- handleMessage.
  unfoldable pub handle_message : List ℕ → ℕ → List EvidenceRow → List EvidenceRow × Verdict
  handle_message data_bytes now rows = elim (s.unmarshal data_bytes) [
    | none ↦ (rows, nack)
    | some e ↦
        if is_empty e.tenant_id || is_empty e.hash
        then (rows, ack)
        else (let (rows', went) = insert_evidence e now rows in (rows', if went then ack else nack))
  ]
