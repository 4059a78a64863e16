-- ===== src/Propagation/Consumers.antt =====
-- The handlers and the callback of internal/compliance/propagation/ring_consumers.go. The log lines
-- are left out.
use aocs_compliance_svc.Common.{
  ℕ, Bool, true, false, not, ◌&&◌, ◌||◌, List, [], Option, none, some, is_empty, if◌then◌else◌,
}
use aocs_compliance_svc.Text.{Text, codes}
use aocs_compliance_svc.Text.Maps.{Map, lookup}
use aocs_compliance_svc.Cases.Store.{Cell, str}
use aocs_compliance_svc.Propagation.Store.{Change, Database}

-- What the consumers take from elsewhere: float64, JSON, a time format and the names of the topics.
pub record Services : Type 1 where
  pub Float : Type 0
  pub unmarshal : List ℕ → Option (Map (Cell Float))
  pub format_time : ℕ → Text
  pub topic_tenant_provisioned : Text
  pub topic_tenant_deleted : Text
  pub topic_agent_registered : Text

pub record Message : Type 0 where
  pub id : Text
  pub data_bytes : List ℕ

pub data Verdict : Type 0 where
  ack nack : Verdict

pub data Topic : Type 0 where
  tenant_provisioned tenant_deleted agent_registered : Topic

-- payload[key].(string), "" where there is no such string.
unfoldable pub string_at : {F : Type 0} → Text → Map (Cell F) → Text
string_at key payload = elim (lookup key payload) [
  | none ↦ []
  | some cell ↦ elim cell [ str t ↦ t | _ ↦ [] ]
]

-- isProcessed: an error of the query reads as no row.
unfoldable pub is_processed : {W : Type 0} → Database W → W → Text → Bool
is_processed db w message_id = elim (db.query_log w message_id) [
  | none ↦ false
  | some rows ↦ not (is_empty rows)
]

-- `messageID != "" && isProcessed(…)`.
unfoldable pub is_redelivered : {W : Type 0} → Database W → W → Text → Bool
is_redelivered db w message_id = not (is_empty message_id) && is_processed db w message_id

module _ (s : Services) (W : Type 0) (db : Database W) where
  open s use {Float, unmarshal, format_time}

  -- markProcessed: an error of the write is dropped.
  unfoldable pub mark_processed : W → Text → Text → Text → Text → Text → ℕ → W
  mark_processed w message_id topic tenant_id agent_id handler now =
      if is_empty message_id
      then w
      else (db.upsert_log w (record {
        message_id = message_id;
        topic = topic;
        tenant_id = tenant_id;
        agent_id = agent_id;
        handler = handler;
        result = codes "OK";
        processed_at = format_time now;
      })).0

  -- The handlers, with the two readings of the clock; true is the nil error.
  unfoldable pub handle_tenant_provisioned : W → Text → Map (Cell Float) → ℕ → ℕ → W × Bool
  handle_tenant_provisioned w message_id payload now later =
      let tenant_id = string_at (codes "tenant_id") payload in
      if is_empty tenant_id || is_redelivered db w message_id
      then (w, true)
      else (let (w', went) = db.upsert_baseline w (record {
        tenant_id = tenant_id;
        enforcement_mode = codes "OBSERVE";
        seeded_at = format_time now;
        updated_at = format_time now;
      }) in
          if went
          then (
            mark_processed w' message_id s.topic_tenant_provisioned tenant_id []
                (codes "tenant_provisioned") later,
            true,
          )
          else (w', false))

  unfoldable pub tombstone : W → Text → ℕ → W
  tombstone w tenant_id now =
      let change : Text → Change =
        λ value. record { value = value; updated_at = format_time now } in
      let w = (db.update_mode w tenant_id (change (codes "AUDIT"))).0 in
      let w = (db.update_case_status w tenant_id (change (codes "CLOSED"))).0 in
      (db.update_vault_status w tenant_id (change (codes "RETIRED"))).0

  unfoldable pub handle_tenant_deleted : W → Text → Map (Cell Float) → ℕ → ℕ → W × Bool
  handle_tenant_deleted w message_id payload now later =
      let tenant_id = string_at (codes "tenant_id") payload in
      if is_empty tenant_id || is_redelivered db w message_id then (w, true) else (
        mark_processed (tombstone w tenant_id now) message_id s.topic_tenant_deleted tenant_id []
            (codes "tenant_deleted") later,
        true,
      )

  unfoldable pub handle_agent_registered : W → Text → Map (Cell Float) → ℕ → ℕ → W × Bool
  handle_agent_registered w message_id payload now later =
      let agent_id = string_at (codes "agent_id") payload in
      let tenant_id = string_at (codes "tenant_id") payload in
      if (is_empty agent_id || is_empty tenant_id) || is_redelivered db w message_id
      then (w, true)
      else (let (w', went) = db.upsert_vault w (record {
        tenant_id = tenant_id;
        agent_id = agent_id;
        agent_name = string_at (codes "agent_name") payload;
        vault_status = codes "ACTIVE";
        seeded_at = format_time now;
        updated_at = format_time now;
      }) in
          if went
          then (
            mark_processed w' message_id s.topic_agent_registered tenant_id agent_id
                (codes "agent_registered") later,
            true,
          )
          else (w', false))

  unfoldable pub handle : Topic → W → Text → Map (Cell Float) → ℕ → ℕ → W × Bool
  handle tenant_provisioned = handle_tenant_provisioned
  handle tenant_deleted = handle_tenant_deleted
  handle agent_registered = handle_agent_registered

  -- The callback of a subscription.
  unfoldable pub consume : Topic → W → Message → ℕ → ℕ → W × Verdict
  consume topic w message now later = elim (unmarshal message.data_bytes) [
    | none ↦ (w, nack)
    | some payload ↦
        let (w', went) = handle topic w message.id payload now later in
        (w', if went then ack else nack)
  ]

  -- The subscriber of the bus in the process, which gives no message id.
  unfoldable pub consume_local : Topic → W → Map (Cell Float) → ℕ → ℕ → W × Bool
  consume_local topic w payload now later = handle topic w [] payload now later
