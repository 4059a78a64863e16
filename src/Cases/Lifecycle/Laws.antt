-- ===== src/Cases/Lifecycle/Laws.antt =====
-- What CreateCase and TransitionCase do to the tables, on each way out.
use aocs_compliance_svc.Common.{
  ℕ, ◌≡◌, refl, ap, ◌∙◌, Bool, true, [], Option, none, some, is_empty, Bool-cases, Option-cases,
  inl, inr, arith,
}
use aocs_compliance_svc.Text.{Text, codes}
use aocs_compliance_svc.Cases.Store.{cells_of, Row, Backend, Observed, apply_update}
use aocs_compliance_svc.Cases.Rows.{
  Services, CreateCaseInput, CaseCreated, CaseError, done, Draw, draw_id, new_row, created_for,
  update_for, core_insert_failed, insert_failed, core_read_failed, read_failed, core_update_failed,
  update_failed, pending,
}
use aocs_compliance_svc.Cases.Lifecycle.{
  State, Target, write_lifecycle_event, mark_alert_escalated, after_insert, create_with,
  create_case, transition_row, transition_with, transition_case,
}

module _ (s : Services) (W : Type 0) where
  open s use {Float, of_int}

  -- The service that a call uses.
  unfoldable pub backend_of : Target s W → Option (Backend W Float)
  backend_of target = elim target.db [
    | none ↦ none
    | some db ↦ elim target.core [ some core ↦ some core | none ↦ some db ]
  ]

  pub transition_case-with :
      (target : Target s W) (b : Backend W Float) (st : State s W)
      (case_id tenant_id actor_id new_status reason : Text) (now : ℕ) (first second : Draw)
      → backend_of target ≡ some b
      → (e : CaseError) × (e' : CaseError) × (transition_case s W target st case_id tenant_id
            actor_id new_status reason now first second
          ≡ transition_with s W b e e' st case_id tenant_id actor_id new_status reason now first
              second)
  unfolding backend_of transition_case
  transition_case-with target b st case_id tenant_id actor_id new_status reason now first second h =
      elim (Option-cases target.db) [
        | inl e ↦ absurd (ground arith)
        | inr (db, e) ↦ elim (Option-cases target.core) [
          | inl e' ↦
              let same : db ≡ b = ground arith in
              (
                read_failed,
                update_failed,
                rw (e, e', transition_case)
                    (ap
                      (λ c.
                        transition_with s W c read_failed update_failed st case_id tenant_id
                          actor_id new_status reason now first second)
                      same),
              )
          | inr (core, e') ↦
              let same : core ≡ b = ground arith in
              (
                core_read_failed,
                core_update_failed,
                rw (e, e', transition_case)
                    (ap
                      (λ c.
                        transition_with s W c core_read_failed core_update_failed st case_id
                          tenant_id actor_id new_status reason now first second)
                      same),
              )
        ]
      ]

  pub create_case-with :
      (target : Target s W) (b : Backend W Float) (st : State s W) (input : CreateCaseInput Float)
      (has_broker : Bool) (id first second : Draw) (alert_at : ℕ)
      → backend_of target ≡ some b
      → (e : CaseError) × (create_case s W target st input has_broker id first second alert_at
          ≡ create_with s W b e st input has_broker id first second alert_at)
  unfolding backend_of create_case
  create_case-with target b st input has_broker id first second alert_at h =
      elim (Option-cases target.db) [
        | inl e ↦ absurd (ground arith)
        | inr (db, e) ↦ elim (Option-cases target.core) [
          | inl e' ↦
              let same : db ≡ b = ground arith in
              (
                insert_failed,
                rw (e, e', create_case)
                    (ap
                      (λ c.
                        create_with s W c insert_failed st input has_broker id first second
                          alert_at)
                      same),
              )
          | inr (core, e') ↦
              let same : core ≡ b = ground arith in
              (
                core_insert_failed,
                rw (e, e', create_case)
                    (ap
                      (λ c.
                        create_with s W c core_insert_failed st input has_broker id first second
                          alert_at)
                      same),
              )
        ]
      ]

  module _ (b : Backend W Float) (obs : Observed W Float of_int b) where
    open obs use {find}

    write_lifecycle_event-found :
        (w : W) (case_id tenant_id from to reason actor_id : Text) (first second : Draw)
        (t id : Text)
        → find
            (write_lifecycle_event s W b w case_id tenant_id from to reason actor_id first second)
            t
            id
          ≡ find w t id
    unfolding write_lifecycle_event
    write_lifecycle_event-found w case_id tenant_id from to reason actor_id first second t id =
        obs.post-found _ _ t id ∙ obs.post-found w _ t id

    -- Whatever the status of a case in the table, and whatever the new one, a transition whose
    -- update goes through is done, and updates the row, even where the events are lost, where
    -- nobody else writes through the service that is used.
    pub transition_case-done :
        (target : Target s W) (st : State s W) (case_id tenant_id actor_id new_status reason : Text)
        (now : ℕ) (first second : Draw) (row : Row)
        → backend_of target ≡ some b
        → find st.world tenant_id case_id ≡ some row
        → let u = update_for s (cells_of of_int row) actor_id new_status now in
          (b.update_case st.world tenant_id case_id u).1 ≡ true
          → let (st', r) =
              transition_case s W target st case_id tenant_id actor_id new_status reason now first
                second in
            (r ≡ done tt) × (find st'.world tenant_id case_id ≡ some (apply_update u row))
    unfolding transition_with transition_row
    transition_case-done target st case_id tenant_id actor_id new_status reason now first second row
          used found went =
        let (e, e', same) =
          transition_case-with target b st case_id tenant_id actor_id new_status reason now first
            second used in
        rw (same, obs.read-found st.world tenant_id case_id row found, went, transition_with)
          (
            refl,
            write_lifecycle_event-found _ case_id tenant_id _ new_status reason actor_id first
                  second tenant_id case_id
                ∙ obs.update-found st.world tenant_id case_id
                    (update_for s (cells_of of_int row) actor_id new_status now) row found went,
          )

    after_insert-found :
        (st : State s W) (w : W) (input : CreateCaseInput Float) (has_broker : Bool)
        (created : CaseCreated) (first second : Draw) (alert_at : ℕ) (t id : Text)
        → find (after_insert s W b st w input has_broker created first second alert_at).world t id
          ≡ find w t id
    unfolding after_insert mark_alert_escalated
    after_insert-found st w input has_broker created first second alert_at t id =
        let posted =
          write_lifecycle_event-found w created.case_id input.tenant_id [] pending input.reason
            (codes "system") first second t id in
        elim (Bool-cases (is_empty input.alert_id)) [
          | inl no_alert ↦ elim (Bool-cases input.escalated_from_alert) [
            | inl from_alert ↦ rw (no_alert, from_alert) posted
            | inr not_from ↦ rw not_from posted
          ]
          | inr alert ↦ elim (Bool-cases input.escalated_from_alert) [
            | inl from_alert ↦ rw (alert, from_alert) (obs.patch-found _ _ _ _ t id ∙ posted)
            | inr not_from ↦ rw not_from posted
          ]
        ]

    -- A creation whose insertion goes through is done, and the case stands in the table under its
    -- new id, whether or not the events and the alert could be written, where nobody else writes
    -- through the service that is used.
    pub create_case-done :
        (target : Target s W) (st : State s W) (input : CreateCaseInput Float) (has_broker : Bool)
        (id first second : Draw) (alert_at : ℕ)
        → backend_of target ≡ some b
        → let row = new_row s input (draw_id s id) id.at in
          (b.insert_case st.world row).1 ≡ true
          → let (st', r) = create_case s W target st input has_broker id first second alert_at in
            (r ≡ done (created_for s input id))
            × (find st'.world input.tenant_id (created_for s input id).case_id ≡ some row)
    unfolding create_with new_row created_for
    create_case-done target st input has_broker id first second alert_at used went =
        let (e, same) =
          create_case-with target b st input has_broker id first second alert_at used in
        let row = new_row s input (draw_id s id) id.at in
        (
          rw (same, went) refl,
          rw (same, went)
              (after_insert-found st _ input has_broker (created_for s input id) first second
                  alert_at input.tenant_id (draw_id s id)
                ∙ obs.insert-found st.world row went),
        )

    pub create_case-went :
        (target : Target s W) (st : State s W) (input : CreateCaseInput Float) (has_broker : Bool)
        (id first second : Draw) (alert_at : ℕ) (created : CaseCreated)
        → backend_of target ≡ some b
        → (create_case s W target st input has_broker id first second alert_at).1 ≡ done created
        → (b.insert_case st.world (new_row s input (draw_id s id) id.at)).1 ≡ true
    unfolding create_with
    create_case-went target st input has_broker id first second alert_at created used h =
        let (e, same) =
          create_case-with target b st input has_broker id first second alert_at used in
        let h = rw same at h in
        elim (Bool-cases (b.insert_case st.world (new_row s input (draw_id s id) id.at)).1) [
          | inl went ↦ went
          | inr lost ↦ absurd (let h = rw lost at h in cc)
        ]

    pub transition_case-went :
        (target : Target s W) (st : State s W) (case_id tenant_id actor_id new_status reason : Text)
        (now : ℕ) (first second : Draw) (row : Row)
        → backend_of target ≡ some b
        → find st.world tenant_id case_id ≡ some row
        → (transition_case s W target st case_id tenant_id actor_id new_status reason now first
            second).1
          ≡ done tt
        → (b.update_case st.world tenant_id case_id
            (update_for s (cells_of of_int row) actor_id new_status now)).1
          ≡ true
    unfolding transition_with transition_row
    transition_case-went target st case_id tenant_id actor_id new_status reason now first second row
          used found h =
        let (e, e', same) =
          transition_case-with target b st case_id tenant_id actor_id new_status reason now first
            second used in
        let h =
          rw (same, obs.read-found st.world tenant_id case_id row found, transition_with) at h in
        elim (Bool-cases
          (b.update_case st.world tenant_id case_id
            (update_for s (cells_of of_int row) actor_id new_status now)).1) [
              | inl went ↦ went
              | inr lost ↦ absurd (let h = rw lost at h in cc)
            ]
