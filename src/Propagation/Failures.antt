-- ===== src/Propagation/Failures.antt =====
-- What the consumers do where a write fails, or where the log does not stop a message.
use aocs_compliance_svc.Common.{
  ℕ, ◌≡◌, refl, ap, ◌∙◌, inl, inr, true, false, some, is_empty, Bool-cases, Option-cases,
}
use aocs_compliance_svc.Text.{Text, codes}
use aocs_compliance_svc.Text.Maps.{Map}
use aocs_compliance_svc.Cases.Store.{Cell}
use aocs_compliance_svc.Propagation.Store.{Baseline, LogRow, Change, Database, Observed}
use aocs_compliance_svc.Propagation.Consumers.{
  Services, Message, ack, nack, Topic, tenant_deleted, string_at, is_redelivered, mark_processed,
  handle_tenant_provisioned, tombstone, handle_tenant_deleted, handle, consume,
}
use aocs_compliance_svc.Propagation.Handlers.{handle-cases}
use aocs_compliance_svc.Propagation.Once.{
  consume-bad, consume-read, consume-Settled, consume-settles,
}

module _ (s : Services) (W : Type 0) (db : Database W) (obs : Observed W db) where
  open s use {Float, unmarshal}
  open obs use {mode}

  -- A message that is not acknowledged has changed nothing, so that it can be delivered again;
  -- where a failed write changes nothing.
  pub consume-nack :
      (topic : Topic) (w : W) (m : Message) (now later : ℕ)
      → let (w', verdict) = consume s W db topic w m now later in verdict ≡ nack → w' ≡ w
  consume-nack topic w m now later h = elim (Option-cases (unmarshal m.data_bytes)) [
    | inl bad ↦ rw (consume-bad s W db obs topic w m now later bad) refl
    | inr (p, read) ↦
        let run = consume-read s W db obs topic w m now later p read in
        elim (handle-cases s W db obs topic w m.id p now later) [
          | inl (same, why) ↦ rw (run, same) refl
          | inr (inl same) ↦ rw (run, same) refl
          | inr (inr (w', t, u, a, hh, same, log)) ↦ absurd (let h = rw (run, same) at h in cc)
        ]
  ]

  mark_processed-mode :
      (w : W) (id topic t a h : Text) (now : ℕ) (tenant : Text)
      → mode (mark_processed s W db w id topic t a h now) tenant ≡ mode w tenant
  unfolding mark_processed
  mark_processed-mode w id topic t a h now tenant = elim (Bool-cases (is_empty id)) [
    | inl unnamed ↦ rw unnamed refl
    | inr named ↦ rw named (obs.log-mode w _ tenant)
  ]

  -- Each time that the log does not stop the message of a new tenant, as on the bus in the process,
  -- which gives no id, and the row is written, the tenant is set to OBSERVE, whatever an
  -- administrator has set it to before.
  pub handle_tenant_provisioned-mode :
      (w : W) (id : Text) (p : Map (Cell Float)) (now later : ℕ)
      → is_redelivered db w id ≡ false
      → is_empty (string_at (codes "tenant_id") p) ≡ false
      → let (w', went) = handle_tenant_provisioned s W db w id p now later in
        went ≡ true → mode w' (string_at (codes "tenant_id") p) ≡ some (codes "OBSERVE")
  unfolding handle_tenant_provisioned
  handle_tenant_provisioned-mode w id p now later fresh named h =
      let row : Baseline = record {
        tenant_id = string_at (codes "tenant_id") p;
        enforcement_mode = codes "OBSERVE";
        seeded_at = s.format_time now;
        updated_at = s.format_time now;
      } in
      elim (Bool-cases (db.upsert_baseline w row).1) [
        | inr lost ↦ absurd (let h = rw (named, fresh, lost) at h in cc)
        | inl went ↦
            rw (named, fresh, went)
              (mark_processed-mode _ id _ _ _ _ later row.tenant_id ∙ obs.baseline-mode w row went)
      ]

  tombstone-lost :
      (w : W) (t : Text) (now : ℕ)
      → ((w : W) (t : Text) (c : Change) → (db.update_mode w t c).0 ≡ w)
      → ((w : W) (t : Text) (c : Change) → (db.update_case_status w t c).0 ≡ w)
      → ((w : W) (t : Text) (c : Change) → (db.update_vault_status w t c).0 ≡ w)
      → tombstone s W db w t now ≡ w
  unfolding tombstone
  tombstone-lost w t now modes statuses vaults = vaults _ _ _ ∙ statuses _ _ _ ∙ modes _ _ _

  -- The message of a tenant that is deleted is acknowledged and never handled again, although none
  -- of the three updates has gone through and the mode of each tenant is what it was; where the
  -- message is new and has an id, a tenant and a payload, failed updates change nothing, no
  -- read of the log fails, and the log's writes go through.
  pub consume-tenant_deleted_lost :
      (w : W) (m : Message) (now later again_now again_later : ℕ) (p : Map (Cell Float))
      → is_empty m.id ≡ false
      → is_redelivered db w m.id ≡ false
      → unmarshal m.data_bytes ≡ some p
      → is_empty (string_at (codes "tenant_id") p) ≡ false
      → ((w : W) (t : Text) (c : Change) → (db.update_mode w t c).0 ≡ w)
      → ((w : W) (t : Text) (c : Change) → (db.update_case_status w t c).0 ≡ w)
      → ((w : W) (t : Text) (c : Change) → (db.update_vault_status w t c).0 ≡ w)
      → ((w : W) (row : LogRow) → (db.upsert_log w row).1 ≡ true)
      → let (w', verdict) = consume s W db tenant_deleted w m now later in
        (verdict ≡ ack)
        × ((t : Text) → mode w' t ≡ mode w t)
        × (consume s W db tenant_deleted w' m again_now again_later ≡ (w', ack))
  unfolding handle handle_tenant_deleted
  consume-tenant_deleted_lost w m now later again_now again_later p named fresh read given modes
        statuses vaults reliable =
      let run = consume-read s W db obs tenant_deleted w m now later p read in
      let acked : (consume s W db tenant_deleted w m now later).1 ≡ ack =
        rw (run, given, fresh) refl in
      (
        acked,
        (λ t.
            rw (run, given, fresh)
              (mark_processed-mode _ m.id _ _ _ _ later t
                ∙ ap (λ w. mode w t) (tombstone-lost w _ now modes statuses vaults))),
        consume-Settled s W db obs tenant_deleted _ m again_now again_later named
            (consume-settles s W db obs reliable tenant_deleted w m now later named acked),
      )
