-- ===== src/Cases/Lifecycle.antt =====
-- CreateCase and TransitionCase of internal/compliance/handlers/compliance/case_lifecycle.go.
--
-- An operation takes the state and returns the new one with its result. The clock and the random
-- numbers of a call are its arguments, times in nanoseconds. The log lines are left out.
pub mod Laws
pub mod Failures
pub mod Deadline
pub mod Audit
use aocs_compliance_svc.Common.{
  ℕ, ◌+◌, Bool, ◌&&◌, ◌||◌, not, List, [], ◌∷◌, ◌++◌, Option, none, some, is_empty, if◌then◌else◌,
}
use aocs_compliance_svc.Text.{Text, codes, eq_text}
use aocs_compliance_svc.Cases.Rows.{
  CaseCreated, CaseError, CreateCaseInput, Draw, Outcome, Services, Task, case_event,
  case_not_found, core_insert_failed, core_read_failed, core_update_failed, created_for, db_is_nil,
  done, draw_id, escalated, failed, insert_failed, new_row, pending, publish_created, push_created,
  push_status, read_failed, sla_breach, status_of, timeout, update_failed, update_for,
}
use aocs_compliance_svc.Cases.Store.{Cells, case_lifecycle, status_transition, Backend}

module _ (s : Services) where
  open s use {Float, format_time}

  module _ (W : Type 0) where
    -- The state: the tables, and the goroutines that were started.
    pub record State : Type 0 where
      pub world : W
      pub tasks : List Task

    -- The services of a call: the core service, where there is one, else the database.
    pub record Target : Type 0 where
      pub db : Option (Backend W Float)
      pub core : Option (Backend W Float)

    -- writeLifecycleEvent, through the service that is used; its failures are only logged.
    unfoldable pub write_lifecycle_event :
        Backend W Float → W → Text → Text → Text → Text → Text → Text → Draw → Draw → W
    write_lifecycle_event b w case_id tenant_id from to reason actor_id first second =
        let event = case_event s case_id tenant_id from to reason actor_id in
        (b.post_event (b.post_event w (event case_lifecycle first)).0
          (event status_transition second)).0

    -- markAlertEscalated.
    unfoldable pub mark_alert_escalated : Backend W Float → W → Text → Text → Text → ℕ → W
    mark_alert_escalated b w alert_id tenant_id case_id now =
        if is_empty alert_id
        then w
        else (b.patch_alert w tenant_id alert_id
            (record { hitl_decision_id = case_id; assigned_at = format_time now })).0

    -- CreateCase behind the insertion.
    unfoldable pub after_insert :
        Backend W Float
        → State
        → W
        → CreateCaseInput Float
        → Bool
        → CaseCreated
        → Draw
        → Draw
        → ℕ
        → State
    after_insert b st w input has_broker created first second alert_at =
        let w₁ =
          write_lifecycle_event b w created.case_id input.tenant_id [] pending input.reason
            (codes "system") first second in
        let w₂ =
          if input.escalated_from_alert && not (is_empty input.alert_id)
          then mark_alert_escalated b w₁ input.alert_id input.tenant_id created.case_id alert_at
          else w₁ in
        record {
          world = w₂;
          tasks =
              st.tasks
              ++ (push_created created ∷ (if has_broker then publish_created created ∷ [] else []));
        }

    -- CreateCase with the service that it uses, and the error that a failed insertion gives.
    unfoldable pub create_with :
        Backend W Float
        → CaseError
        → State
        → CreateCaseInput Float
        → Bool
        → Draw
        → Draw
        → Draw
        → ℕ
        → State × Outcome CaseCreated
    create_with b error st input has_broker id first second alert_at =
        let row = new_row s input (draw_id s id) id.at in
        let created = created_for s input id in
        let (w, went) = b.insert_case st.world row in
        if went
        then (after_insert b st w input has_broker created first second alert_at, done created)
        else (record st { world = w }, failed error)

    -- CreateCase.
    unfoldable pub create_case :
        Target
        → State
        → CreateCaseInput Float
        → Bool
        → Draw
        → Draw
        → Draw
        → ℕ
        → State × Outcome CaseCreated
    create_case target st input has_broker id first second alert_at = elim target.db [
      | none ↦ (st, failed db_is_nil)
      | some db ↦ elim target.core [
        | some core ↦
            create_with core core_insert_failed st input has_broker id first second alert_at
        | none ↦ create_with db insert_failed st input has_broker id first second alert_at
      ]
    ]

    -- TransitionCase behind the read.
    unfoldable pub transition_row :
        Backend W Float
        → CaseError
        → State
        → Text
        → Text
        → Text
        → Text
        → Text
        → Cells Float
        → ℕ
        → Draw
        → Draw
        → State × Outcome Unit
    transition_row b error st case_id tenant_id actor_id new_status reason row now first second =
        let breached = sla_breach s row now in
        let (w, went) =
          b.update_case st.world tenant_id case_id (update_for s row actor_id new_status now) in
        if went
        then (
          record {
            world =
                write_lifecycle_event b w case_id tenant_id (status_of s row.status) new_status
                  reason actor_id first second;
            tasks =
                if eq_text new_status escalated || eq_text new_status timeout || breached
                then st.tasks ++ push_status case_id new_status breached ∷ []
                else st.tasks;
          },
          done tt,
        )
        else (record st { world = w }, failed error)

    -- TransitionCase with the service that it uses.
    unfoldable pub transition_with :
        Backend W Float
        → CaseError
        → CaseError
        → State
        → Text
        → Text
        → Text
        → Text
        → Text
        → ℕ
        → Draw
        → Draw
        → State × Outcome Unit
    transition_with b read_error update_error st case_id tenant_id actor_id new_status reason now
          first second =
        elim (b.read_case st.world tenant_id case_id) [
          | none ↦ (st, failed read_error)
          | some none ↦ (st, failed case_not_found)
          | some (some row) ↦
              transition_row b update_error st case_id tenant_id actor_id new_status reason row now
                first second
        ]

    -- TransitionCase.
    unfoldable pub transition_case :
        Target → State → Text → Text → Text → Text → Text → ℕ → Draw → Draw → State × Outcome Unit
    transition_case target st case_id tenant_id actor_id new_status reason now first second =
        elim target.db [
          | none ↦ (st, failed db_is_nil)
          | some db ↦ elim target.core [
            | some core ↦
                transition_with core core_read_failed core_update_failed st case_id tenant_id
                  actor_id new_status reason now first second
            | none ↦
                transition_with db read_failed update_failed st case_id tenant_id actor_id
                  new_status reason now first second
          ]
        ]
