-- ===== src/Propagation/Store.antt =====
-- The tables that internal/compliance/propagation/ring_consumers.go reads and writes, through a
-- database (database.DB) that is a parameter.
use aocs_compliance_svc.Common.{◌≡◌, Bool, true, false, List, Option, some, is_empty}
use aocs_compliance_svc.Text.{Text, eq_text}

-- A row of tenant_baselines, of agent_evidence_vault, and of compl_idempotency_log.
pub record Baseline : Type 0 where
  pub tenant_id : Text
  pub enforcement_mode : Text
  pub seeded_at : Text
  pub updated_at : Text

pub record Vault : Type 0 where
  pub tenant_id : Text
  pub agent_id : Text
  pub agent_name : Text
  pub vault_status : Text
  pub seeded_at : Text
  pub updated_at : Text

pub record LogRow : Type 0 where
  pub message_id : Text
  pub topic : Text
  pub tenant_id : Text
  pub agent_id : Text
  pub handler : Text
  pub result : Text
  pub processed_at : Text

-- An update of a column with what it is set to, and the time.
pub record Change : Type 0 where
  pub value : Text
  pub updated_at : Text

-- A write says whether it went through; an upsert is on tenant_id, on agent_id and tenant_id, and on
-- message_id, and an update on tenant_id. The log is read by message_id, none where that fails.
pub record Database (W : Type 0) : Type 0 where
  pub query_log : W → Text → Option (List Text)
  pub upsert_log : W → LogRow → W × Bool
  pub upsert_baseline : W → Baseline → W × Bool
  pub upsert_vault : W → Vault → W × Bool
  pub update_mode : W → Text → Change → W × Bool
  pub update_case_status : W → Text → Change → W × Bool
  pub update_vault_status : W → Text → Change → W × Bool

-- A database through which nobody else writes: the log is read without a failure and has what was
-- written to it, and no other write touches it; a failed write changes nothing.
pub record Observed (W : Type 0) (db : Database W) : Type 0 where
  pub rows : W → Text → List Text
  pub mode : W → Text → Option Text
  pub log-read : (w : W) (id : Text) → db.query_log w id ≡ some (rows w id)
  pub log-here :
      (w : W) (row : LogRow)
      → (db.upsert_log w row).1 ≡ true
      → is_empty (rows (db.upsert_log w row).0 row.message_id) ≡ false
  pub log-others :
      (w : W) (row : LogRow) (id : Text)
      → eq_text row.message_id id ≡ false
      → rows (db.upsert_log w row).0 id ≡ rows w id
  pub log-failed :
      (w : W) (row : LogRow) → (db.upsert_log w row).1 ≡ false → (db.upsert_log w row).0 ≡ w
  pub log-mode : (w : W) (row : LogRow) (t : Text) → mode (db.upsert_log w row).0 t ≡ mode w t
  pub baseline-log :
      (w : W) (row : Baseline) (id : Text) → rows (db.upsert_baseline w row).0 id ≡ rows w id
  pub baseline-mode :
      (w : W) (row : Baseline)
      → (db.upsert_baseline w row).1 ≡ true
      → mode (db.upsert_baseline w row).0 row.tenant_id ≡ some row.enforcement_mode
  pub baseline-failed :
      (w : W) (row : Baseline)
      → (db.upsert_baseline w row).1 ≡ false
      → (db.upsert_baseline w row).0 ≡ w
  pub vault-log : (w : W) (row : Vault) (id : Text) → rows (db.upsert_vault w row).0 id ≡ rows w id
  pub vault-failed :
      (w : W) (row : Vault) → (db.upsert_vault w row).1 ≡ false → (db.upsert_vault w row).0 ≡ w
  pub mode-log :
      (w : W) (t : Text) (c : Change) (id : Text) → rows (db.update_mode w t c).0 id ≡ rows w id
  pub case_status-log :
      (w : W) (t : Text) (c : Change) (id : Text)
      → rows (db.update_case_status w t c).0 id ≡ rows w id
  pub vault_status-log :
      (w : W) (t : Text) (c : Change) (id : Text)
      → rows (db.update_vault_status w t c).0 id ≡ rows w id
