-- ===== src/Ledger/Root.antt =====
-- The root of the ledger in internal/compliance/handlers/compliance/zkp_batch.go: HandleGetLedgerRoot,
-- apart from the headers, the time and the tenant of the reply. Strings are their bytes.
use aocs_compliance_svc.Common.{ℕ, List, [], ◌∷◌, ◌++◌, Option, none, some, length}
use aocs_compliance_svc.Text.{codes}
use aocs_compliance_svc.Text.Hex.{hex_encode}

-- The columns of an evidence record that are read.
pub record EvidenceRecord : Type 0 where
  pub id : List ℕ
  pub record_hash : List ℕ

pub record LedgerRoot : Type 0 where
  pub root_hash : List ℕ
  pub record_count : ℕ

module _ (sha256 : List ℕ → List ℕ) where
  -- What is hashed for a record after a root.
  unfoldable pub link : List ℕ → EvidenceRecord → List ℕ
  link running rec = hex_encode running ++ (rec.record_hash ++ rec.id)

  unfoldable pub chain : List ℕ → List EvidenceRecord → List ℕ
  chain running [] = running
  chain running (rec ∷ records) = chain (sha256 (link running rec)) records

  -- An error of the query reads as no record.
  unfoldable pub get_ledger_root : Option (List EvidenceRecord) → LedgerRoot
  get_ledger_root queried =
      let records : List EvidenceRecord = elim queried [ none ↦ [] | some records ↦ records ] in
      record {
        root_hash = hex_encode (chain (sha256 (codes "genesis")) records);
        record_count = length records;
      }
