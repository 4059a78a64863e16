-- ===== src/Propagation/Ring0.antt =====
-- The consumer of the outbox, internal/compliance/propagation/ring0_compliance_consumer.go, which
-- hands its events to the handlers of ring_consumers.go. The poller and the log lines are left out.
use aocs_compliance_svc.Common.{ℕ, Bool, true, Option, none, some, is_empty, if◌then◌else◌}
use aocs_compliance_svc.Text.{Text, codes, eq_text}
use aocs_compliance_svc.Text.Maps.{Map, lookup, insert}
use aocs_compliance_svc.Cases.Store.{Cell, str}
use aocs_compliance_svc.Propagation.Store.{Database}
use aocs_compliance_svc.Propagation.Consumers.{
  Services, Topic, tenant_provisioned, tenant_deleted, agent_registered, handle,
}
pub mod Laws

-- What is read of an eventbus.Ring0OutboxEvent.
pub record OutboxEvent (F : Type 0) : Type 0 where
  pub event_id : Text
  pub event_type : Text
  pub tenant_id : Text
  pub aggregate_id : Text
  pub payload : Map (Cell F)

module _ {F : Type 0} where
  -- A field of the event for a key that the payload lacks, unless the field is empty.
  unfoldable pub fill : Text → Text → Map (Cell F) → Map (Cell F)
  fill key value m = elim (lookup key m) [
    | some cell ↦ m
    | none ↦ if is_empty value then m else insert key (str value) m
  ]

  -- The name of the payload for a key that it lacks, where the name is a string.
  unfoldable pub fill_name : Text → Map (Cell F) → Map (Cell F) → Map (Cell F)
  fill_name key payload m = elim (lookup key m) [
    | some cell ↦ m
    | none ↦ elim (lookup (codes "name") payload) [
      | none ↦ m
      | some cell ↦ elim cell [ str name ↦ insert key (str name) m | _ ↦ m ]
    ]
  ]

  -- mergeEventFields.
  unfoldable pub merge_event_fields : OutboxEvent F → Map (Cell F)
  merge_event_fields evt =
      let with_tenant = fill (codes "tenant_id") evt.tenant_id evt.payload in
      let with_agent = fill (codes "agent_id") evt.aggregate_id with_tenant in
      fill_name (codes "agent_name") evt.payload with_agent

-- The handler of a type of event.
unfoldable pub topic_of : Text → Option Topic
topic_of type =
    if eq_text type (codes "tenant.provisioned")
    then some tenant_provisioned
    else if eq_text type (codes "tenant.deleted")
    then some tenant_deleted
    else if eq_text type (codes "agent.created")
    then some agent_registered
    else if eq_text type (codes "agent.seed_requested")
    then some agent_registered
    else none

module _ (s : Services) (W : Type 0) (db : Database W) where
  open s use {Float}

  -- dispatch; true is the nil error.
  unfoldable pub dispatch : W → OutboxEvent Float → ℕ → ℕ → W × Bool
  dispatch w evt now later = elim (topic_of evt.event_type) [
    | none ↦ (w, true)
    | some topic ↦ handle s W db topic w evt.event_id (merge_event_fields evt) now later
  ]
