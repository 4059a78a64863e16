-- ===== src/Propagation/Tests.antt =====
-- The theorems on the consumers at a database that keeps its log, one mode and nothing else.
use aocs_compliance_svc.Common.{
  ℕ, ◌≡◌, refl, true, false, List, [], ◌∷◌, Option, none, some, is_empty, any, if◌then◌else◌,
}
use aocs_compliance_svc.Text.{Text, codes, eq_text}
use aocs_compliance_svc.Text.Laws.{eq_text_refl, eq_text_comm}
use aocs_compliance_svc.Text.Maps.{lookup, insert}
use aocs_compliance_svc.Cases.Store.{str}
use aocs_compliance_svc.Propagation.Store.{Database, Observed}
use aocs_compliance_svc.Propagation.Consumers.{
  Services, Message, ack, tenant_provisioned, tenant_deleted, string_at, is_processed,
  is_redelivered, mark_processed, handle_tenant_provisioned, handle, consume,
}
use aocs_compliance_svc.Propagation.Refinement.{
  Delivery, deliver, deliver_once, deliver-deliver_once,
}
use aocs_compliance_svc.Propagation.Ring0.{
  OutboxEvent, fill, fill_name, merge_event_fields, topic_of, dispatch,
}
use aocs_compliance_svc.Propagation.Ring0.Laws.{
  or_else, supplied, merge_event_fields-lookup, dispatch_twice,
}
use aocs_compliance_svc.Propagation.Failures.{consume-tenant_deleted_lost}

-- A payload is a tenant id, unless it is empty.
abbrev toy : Services
toy = record {
  Float = ℕ;
  unmarshal = λ bytes. if is_empty bytes then none else some ((codes "tenant_id", str bytes) ∷ []);
  format_time = λ n. [];
  topic_tenant_provisioned = codes "provisioned";
  topic_tenant_deleted = codes "deleted";
  topic_agent_registered = codes "registered";
}

abbrev Tables : Type 0
Tables = List Text × Option Text

-- The updates of a tenant that is deleted do not go through.
abbrev toy_db : Database Tables
toy_db = record {
  query_log = λ w id. some (if any (eq_text id) w.0 then id ∷ [] else []);
  upsert_log = λ w row. ((row.message_id ∷ w.0, w.1), true);
  upsert_baseline = λ w row. ((w.0, some row.enforcement_mode), true);
  upsert_vault = λ w row. (w, true);
  update_mode = λ w t c. (w, false);
  update_case_status = λ w t c. (w, false);
  update_vault_status = λ w t c. (w, false);
}

abbrev toy-Observed : Observed Tables toy_db
toy-Observed = record {
  rows = λ w id. if any (eq_text id) w.0 then id ∷ [] else [];
  mode = λ w t. w.1;
  log-read = λ w id. refl;
  log-here = λ w row h. rw (eq_text_refl row.message_id) refl;
  log-others = λ w row id h. rw (eq_text_comm row.message_id id h) refl;
  log-failed = λ w row h. absurd cc;
  log-mode = λ w row t. refl;
  baseline-log = λ w row id. refl;
  baseline-mode = λ w row h. refl;
  baseline-failed = λ w row h. absurd cc;
  vault-log = λ w row id. refl;
  vault-failed = λ w row h. refl;
  mode-log = λ w t c id. refl;
  case_status-log = λ w t c id. refl;
  vault_status-log = λ w t c id. refl;
}

abbrev m1 : Message
m1 = record { id = codes "1"; data_bytes = codes "acme" }

abbrev bad : Message
bad = record { id = codes "2"; data_bytes = [] }

abbrev enforced : Tables
enforced = ([], some (codes "ENFORCE"))

abbrev twice : List Delivery
twice =
    record { topic = tenant_provisioned; message = m1; now = 0; later = 1 }
    ∷ record { topic = tenant_deleted; message = bad; now = 2; later = 3 }
    ∷ record { topic = tenant_provisioned; message = m1; now = 4; later = 5 }
    ∷ []

deliver-deliver_once_example :
    deliver toy Tables toy_db enforced twice ≡ deliver_once toy Tables toy_db [] enforced twice
deliver-deliver_once_example =
    deliver-deliver_once toy Tables toy_db toy-Observed (λ w row. refl) enforced twice
      (refl, (refl, (refl, tt)))

consume-tenant_deleted_lost_example :
    let (w', verdict) = consume toy Tables toy_db tenant_deleted enforced m1 0 1 in
    (verdict ≡ ack)
    × ((t : Text) → w'.1 ≡ some (codes "ENFORCE"))
    × (consume toy Tables toy_db tenant_deleted w' m1 2 3 ≡ (w', ack))
unfolding is_redelivered is_processed string_at lookup eq_text
consume-tenant_deleted_lost_example =
    consume-tenant_deleted_lost toy Tables toy_db toy-Observed enforced m1 0 1 2 3
      ((codes "tenant_id", str (codes "acme")) ∷ []) refl refl refl refl (λ w t c. refl)
      (λ w t c. refl) (λ w t c. refl) (λ w row. refl)

-- An event that has the tenant beside its payload.
abbrev provisioned : OutboxEvent ℕ
provisioned = record {
  event_id = codes "e1";
  event_type = codes "tenant.provisioned";
  tenant_id = codes "acme";
  aggregate_id = codes "acme";
  payload = (codes "name", str (codes "Acme")) ∷ [];
}

dispatch_once : (dispatch toy Tables toy_db enforced provisioned 0 1).1 ≡ true
unfolding dispatch topic_of eq_text merge_event_fields fill fill_name lookup insert handle
    handle_tenant_provisioned string_at is_redelivered is_processed mark_processed
dispatch_once = refl

dispatch_twice_example :
    let w' = (dispatch toy Tables toy_db enforced provisioned 0 1).0 in
    dispatch toy Tables toy_db w' provisioned 2 3 ≡ (w', true)
dispatch_twice_example =
    dispatch_twice toy Tables toy_db toy-Observed (λ w row. refl) enforced provisioned 0 1 2 3 refl
      dispatch_once

merge_event_fields-lookup_example :
    lookup (codes "tenant_id") (merge_event_fields provisioned)
    ≡ or_else
        (lookup (codes "tenant_id") provisioned.payload)
        (supplied provisioned (codes "tenant_id"))
merge_event_fields-lookup_example = merge_event_fields-lookup provisioned (codes "tenant_id")
