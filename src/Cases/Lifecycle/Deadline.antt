-- ===== src/Cases/Lifecycle/Deadline.antt =====
-- The deadline that CreateCase stores is the one that TransitionCase compares the clock with.
use aocs_compliance_svc.Common.{
  ℕ, ◌*◌, ◌/◌, ◌<◌, ◌≡◌, ◌↔◌, refl, Bool, true, false, some, ltb, is_empty, arith,
}
use aocs_compliance_svc.Text.{Text}
use aocs_compliance_svc.Cases.Store.{cells_of, Row, Backend, Observed, apply_update}
use aocs_compliance_svc.Cases.Rows.{
  Services, CreateCaseInput, done, Draw, draw_id, new_row, created_for, sla_breach,
  extract_time_str, update_for,
}
use aocs_compliance_svc.Cases.Lifecycle.{State, Target, create_case, transition_case}
use aocs_compliance_svc.Cases.Lifecycle.Laws.{
  backend_of, create_case-done, create_case-went, transition_case-done, transition_case-went,
}

abbrev pub second_length : ℕ
second_length = 1000000000

-- RFC 3339 writes a time down to the second, as text that is read back.
pub record IsRfc3339 (s : Services) : Type 0 where
  pub reads : (n : ℕ) → s.parse_time (s.format_time n) ≡ some (n / second_length * second_length)
  pub written : (n : ℕ) → is_empty (s.format_time n) ≡ false

ltb-true_iff : (a b : ℕ) → (ltb a b ≡ true) ↔ (a < b)
ltb-true_iff a b = ground arith

module _ (s : Services) (rfc : IsRfc3339 s) where
  open s use {Float, of_int}

  sla_breach-new_row :
      (input : CreateCaseInput Float) (id : Draw) (now : ℕ)
      → sla_breach s (cells_of of_int (new_row s input (draw_id s id) id.at)) now
        ≡ ltb ((created_for s input id).sla_deadline / second_length * second_length) now
  unfolding sla_breach new_row created_for extract_time_str
  sla_breach-new_row input id now =
      let deadline = (created_for s input id).sla_deadline in
      ground (arith, rfc.written deadline, rfc.reads deadline)

  apply_update-breached :
      (u : Bool) (row : Row) (actor_id new_status : Text) (now : ℕ)
      → row.sla_breached ≡ false
      → sla_breach s (cells_of of_int row) now ≡ u
      → (apply_update (update_for s (cells_of of_int row) actor_id new_status now) row).sla_breached
        ≡ u
  unfolding apply_update update_for
  apply_update-breached true row actor_id new_status now e h = rw h refl
  apply_update-breached false row actor_id new_status now e h = rw h e

  -- Where a case is created and then moved, nobody else writes through the service that is used
  -- and times are written in RFC 3339, the case has the new status, and is marked as breached
  -- exactly where the clock of the move is past the deadline that the creation returned, cut to
  -- whole seconds.
  pub create-transition_breach :
      (W : Type 0) (b : Backend W Float) (obs : Observed W Float of_int b) (target : Target s W)
      (st : State s W) (input : CreateCaseInput Float) (has_broker : Bool) (id first second : Draw)
      (alert_at : ℕ) (actor_id new_status reason : Text) (now : ℕ) (third fourth : Draw)
      → backend_of s W target ≡ some b
      → let (st', r) = create_case s W target st input has_broker id first second alert_at in
        let created = created_for s input id in
        let (st'', r') =
          transition_case s W target st' created.case_id input.tenant_id actor_id new_status reason
            now third fourth in
        r ≡ done created
        → r' ≡ done tt
        → (row : Row) × (obs.find st''.world input.tenant_id created.case_id ≡ some row)
          × (row.status ≡ new_status)
          × ((row.sla_breached ≡ true)
              ↔ (created.sla_deadline / second_length * second_length < now))
  create-transition_breach W b obs target st input has_broker id first second alert_at actor_id
        new_status reason now third fourth used made moved =
      let created = created_for s input id in
      let row = new_row s input (draw_id s id) id.at in
      let st' = (create_case s W target st input has_broker id first second alert_at).0 in
      let went =
        create_case-went s W b obs target st input has_broker id first second alert_at created used
          made in
      let (_, found) =
        create_case-done s W b obs target st input has_broker id first second alert_at used went in
      let went' =
        transition_case-went s W b obs target st' created.case_id input.tenant_id actor_id
          new_status reason now third fourth row used found moved in
      let (_, found') =
        transition_case-done s W b obs target st' created.case_id input.tenant_id actor_id
          new_status reason now third fourth row used found went' in
      let marked =
        apply_update-breached _ row actor_id new_status now (unfold new_row in refl)
          (sla_breach-new_row input id now) in
      (
        apply_update (update_for s (cells_of of_int row) actor_id new_status now) row,
        found',
        unfold apply_update update_for in refl,
        rw marked (ltb-true_iff _ now),
      )
