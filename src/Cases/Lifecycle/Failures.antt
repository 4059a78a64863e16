-- ===== src/Cases/Lifecycle/Failures.antt =====
-- A call that fails changes nothing.
use aocs_compliance_svc.Common.{ℕ, ◌≡◌, refl, Bool, some, Bool-cases, Option-cases, inl, inr}
use aocs_compliance_svc.Text.{Text}
use aocs_compliance_svc.Cases.Store.{Cells, Backend, Observed}
use aocs_compliance_svc.Cases.Rows.{
  Services, CreateCaseInput, CaseError, failed, Draw, draw_id, new_row, update_for,
}
use aocs_compliance_svc.Cases.Lifecycle.{
  State, Target, create_with, create_case, transition_row, transition_with, transition_case,
}
use aocs_compliance_svc.Cases.Lifecycle.Laws.{backend_of, transition_case-with, create_case-with}

module _ (s : Services) (W : Type 0) where
  open s use {Float, of_int}

  module _ (b : Backend W Float) (obs : Observed W Float of_int b) where
    transition_row-failed :
        (e' : CaseError) (st : State s W) (case_id tenant_id actor_id new_status reason : Text)
        (row : Cells Float) (now : ℕ) (first second : Draw) (error : CaseError)
        → let (st', r) =
            transition_row s W b e' st case_id tenant_id actor_id new_status reason row now first
              second in
          r ≡ failed error → (st'.world ≡ st.world) × (st'.tasks ≡ st.tasks)
    unfolding transition_row
    transition_row-failed e' st case_id tenant_id actor_id new_status reason row now first second
          error h =
        let u = update_for s row actor_id new_status now in
        elim (Bool-cases (b.update_case st.world tenant_id case_id u).1) [
          | inl went ↦ absurd (let h = rw went at h in cc)
          | inr lost ↦ rw (lost, obs.update-failed st.world tenant_id case_id u lost) (refl, refl)
        ]

    transition_with-failed :
        (e e' : CaseError) (st : State s W) (case_id tenant_id actor_id new_status reason : Text)
        (now : ℕ) (first second : Draw) (error : CaseError)
        → let (st', r) =
            transition_with s W b e e' st case_id tenant_id actor_id new_status reason now first
              second in
          r ≡ failed error → (st'.world ≡ st.world) × (st'.tasks ≡ st.tasks)
    unfolding transition_with
    transition_with-failed e e' st case_id tenant_id actor_id new_status reason now first second
          error h =
        elim (Option-cases (b.read_case st.world tenant_id case_id)) [
          | inl lost ↦ rw (lost, transition_with) (refl, refl)
          | inr (found, read) ↦ elim (Option-cases found) [
            | inl missing ↦ rw (read, missing, transition_with) (refl, refl)
            | inr (row, here) ↦
                let h = rw (read, here, transition_with) at h in
                rw (read, here, transition_with)
                  (transition_row-failed e' st case_id tenant_id actor_id new_status reason row now
                    first second error h)
          ]
        ]

    -- A transition that fails leaves the tables and the goroutines as they were, where the service
    -- that is used changes nothing in a write that fails.
    pub transition_case-failed :
        (target : Target s W) (st : State s W) (case_id tenant_id actor_id new_status reason : Text)
        (now : ℕ) (first second : Draw) (error : CaseError)
        → backend_of s W target ≡ some b
        → let (st', r) =
            transition_case s W target st case_id tenant_id actor_id new_status reason now first
              second in
          r ≡ failed error → (st'.world ≡ st.world) × (st'.tasks ≡ st.tasks)
    unfolding transition_with transition_row
    transition_case-failed target st case_id tenant_id actor_id new_status reason now first second
          error used h =
        let (e, e', same) =
          transition_case-with s W target b st case_id tenant_id actor_id new_status reason now
            first second used in
        rw same (
          transition_with-failed e e' st case_id tenant_id actor_id new_status reason now first
            second error (rw same at h))

    -- A creation that fails leaves the tables and the goroutines as they were, where the service
    -- that is used changes nothing in a write that fails.
    pub create_case-failed :
        (target : Target s W) (st : State s W) (input : CreateCaseInput Float) (has_broker : Bool)
        (id first second : Draw) (alert_at : ℕ) (error : CaseError)
        → backend_of s W target ≡ some b
        → let (st', r) = create_case s W target st input has_broker id first second alert_at in
          r ≡ failed error → (st'.world ≡ st.world) × (st'.tasks ≡ st.tasks)
    unfolding create_with
    create_case-failed target st input has_broker id first second alert_at error used h =
        let (e, same) =
          create_case-with s W target b st input has_broker id first second alert_at used in
        let h = rw same at h in
        let row = new_row s input (draw_id s id) id.at in
        elim (Bool-cases (b.insert_case st.world row).1) [
          | inl went ↦ absurd (let h = rw went at h in cc)
          | inr lost ↦ rw (same, lost, obs.insert-failed st.world row lost) (refl, refl)
        ]
