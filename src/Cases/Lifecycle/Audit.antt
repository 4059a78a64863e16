-- ===== src/Cases/Lifecycle/Audit.antt =====
-- The events that TransitionCase leaves are the history of the case.
use aocs_compliance_svc.Common.{
  ℕ, ◌≡◌, refl, sym, ap, ◌∙◌, ◌⊎◌, inl, inr, Bool, true, false, List, [], ◌∷◌, ◌++◌, some,
}
use mathlib.Core.List.{append_assoc, append-nil}
use aocs_compliance_svc.Text.{Text}
use aocs_compliance_svc.Cases.Store.{
  cells_of, Row, Event, EventKind, case_lifecycle, status_transition, Backend, Observed,
  apply_update,
}
use aocs_compliance_svc.Cases.Rows.{
  Services, CaseError, Outcome, done, failed, Draw, draw_id, update_for, case_event, status_of,
}
use aocs_compliance_svc.Cases.Lifecycle.{
  State, Target, write_lifecycle_event, transition_row, transition_with, transition_case,
}
use aocs_compliance_svc.Cases.Lifecycle.Laws.{
  backend_of, transition_case-with, transition_case-done, transition_case-went,
}

-- The arguments of one transition.
pub record Step : Type 0 where
  pub actor_id : Text
  pub new_status : Text
  pub reason : Text
  pub now : ℕ
  pub first : Draw
  pub second : Draw

-- The status after the steps.
unfoldable pub last_status : Text → List Step → Text
last_status from [] = from
last_status from (x ∷ xs) = last_status x.new_status xs

done_or_failed : (r : Outcome Unit) → (r ≡ done tt) ⊎ ((e : CaseError) × (r ≡ failed e))
done_or_failed (done tt) = inl refl
done_or_failed (failed e) = inr (e, refl)

module _ (s : Services) (W : Type 0) (case_id tenant_id : Text) where
  open s use {Float, of_int}

  -- TransitionCase one after the other, and whether all were done.
  unfoldable pub run : Target s W → State s W → List Step → State s W × Bool
  run target st [] = (st, true)
  run target st (x ∷ xs) =
      let (st', r) =
        transition_case s W target st case_id tenant_id x.actor_id x.new_status x.reason x.now
          x.first x.second in
      let rest = run target st' xs in elim r [ done _ ↦ rest | failed e ↦ (st', false) ]

  -- The history that the steps make from a status on: each move leaves two events, which say where
  -- it came from.
  unfoldable pub trail : Text → List Step → List Event
  trail from [] = []
  trail from (x ∷ xs) =
      let event : EventKind → Draw → Event = λ kind d. record {
        event_id = draw_id s d;
        entity_id = case_id;
        tenant_id = tenant_id;
        kind = kind;
        from_status = from;
        to_status = x.new_status;
        reason = x.reason;
        actor_id = x.actor_id;
        occurred_at = s.format_time d.at;
      } in
      event case_lifecycle x.first ∷ event status_transition x.second ∷ trail x.new_status xs

  module _ (b : Backend W Float) (obs : Observed W Float of_int b)
      (posts : (w : W) (e : Event) → (b.post_event w e).1 ≡ true) where
    open obs use {find, events}

    write_lifecycle_event-events :
        (w : W) (from to reason actor_id : Text) (first second : Draw)
        → let event = case_event s case_id tenant_id from to reason actor_id in
          events
            (write_lifecycle_event s W b w case_id tenant_id from to reason actor_id first second)
          ≡ events w ++ event case_lifecycle first ∷ event status_transition second ∷ []
    unfolding write_lifecycle_event
    write_lifecycle_event-events w from to reason actor_id first second =
        let event = case_event s case_id tenant_id from to reason actor_id in
        let e = event case_lifecycle first in
        obs.post-events _ _ (posts _ _)
        ∙ ap (λ es. es ++ event status_transition second ∷ []) (obs.post-events w e (posts w e))
        ∙ append_assoc (events w) (e ∷ []) (event status_transition second ∷ [])

    transition_row-events :
        (e : CaseError) (st : State s W) (x : Step) (row : Row)
        → let (st', r) =
            transition_row s W b e st case_id tenant_id x.actor_id x.new_status x.reason
              (cells_of of_int row)
              x.now
              x.first
              x.second in
          let event = case_event s case_id tenant_id row.status x.new_status x.reason x.actor_id in
          (b.update_case st.world tenant_id case_id
              (update_for s (cells_of of_int row) x.actor_id x.new_status x.now)).1
            ≡ true
          → events st'.world
            ≡ events st.world
              ++ event case_lifecycle x.first ∷ event status_transition x.second ∷ []
    unfolding transition_row status_of
    transition_row-events e st x row went = rw went (
        write_lifecycle_event-events _ row.status x.new_status x.reason x.actor_id x.first x.second
        ∙ ap
            (λ es.
              es
              ++ case_event s case_id tenant_id row.status x.new_status x.reason x.actor_id
                  case_lifecycle x.first
                ∷ case_event s case_id tenant_id row.status x.new_status x.reason x.actor_id
                    status_transition x.second
                ∷ [])
            (obs.update-events st.world tenant_id case_id _))

    transition_case-events :
        (target : Target s W) (st : State s W) (x : Step) (row : Row)
        → backend_of s W target ≡ some b
        → find st.world tenant_id case_id ≡ some row
        → let (st', r) =
            transition_case s W target st case_id tenant_id x.actor_id x.new_status x.reason x.now
              x.first x.second in
          let event = case_event s case_id tenant_id row.status x.new_status x.reason x.actor_id in
          r ≡ done tt
          → events st'.world
            ≡ events st.world
              ++ event case_lifecycle x.first ∷ event status_transition x.second ∷ []
    unfolding transition_with
    transition_case-events target st x row used found h =
        let went =
          transition_case-went s W b obs target st case_id tenant_id x.actor_id x.new_status
            x.reason x.now x.first x.second row used found h in
        let (e, e', same) =
          transition_case-with s W target b st case_id tenant_id x.actor_id x.new_status x.reason
            x.now x.first x.second used in
        rw (same, obs.read-found st.world tenant_id case_id row found, transition_with)
          (transition_row-events e' st x row went)

    -- Where a case is in the table, its transitions are all done, every event is taken and nobody
    -- else writes through the service that is used, the events are those from before followed by
    -- two for each step, which come from the status that the step before left, and the case has
    -- the last status.
    pub run-trail :
        (target : Target s W) (st : State s W) (row : Row) (steps : List Step)
        → backend_of s W target ≡ some b
        → find st.world tenant_id case_id ≡ some row
        → (run target st steps).1 ≡ true
        → (events (run target st steps).0.world ≡ events st.world ++ trail row.status steps)
          × (row' : Row) × (find (run target st steps).0.world tenant_id case_id ≡ some row')
          × (row'.status ≡ last_status row.status steps)
    unfolding run trail last_status case_event
    run-trail target st row [] used found h = (sym (append-nil (events st.world)), row, found, refl)
    run-trail target st row (x ∷ xs) used found h =
        elim (done_or_failed
          (transition_case s W target st case_id tenant_id x.actor_id x.new_status x.reason x.now
            x.first x.second).1) [
              | inl ok ↦
                  let went =
                    transition_case-went s W b obs target st case_id tenant_id x.actor_id
                      x.new_status x.reason x.now x.first x.second row used found ok in
                  let (_, found') =
                    transition_case-done s W b obs target st case_id tenant_id x.actor_id
                      x.new_status x.reason x.now x.first x.second row used found went in
                  let u = update_for s (cells_of of_int row) x.actor_id x.new_status x.now in
                  let st' =
                    (transition_case s W target st case_id tenant_id x.actor_id x.new_status
                      x.reason x.now x.first x.second).0 in
                  let h' : (run target st' xs).1 ≡ true = rw (ok, run) at h in
                  let (later, row', here, last) =
                    run-trail target st' (apply_update u row) xs used found' h' in
                  let moved : (apply_update u row).status ≡ x.new_status =
                    unfold apply_update update_for in refl in
                  let added = transition_case-events target st x row used found ok in
                  rw (ok, run)
                    (
                      later
                          ∙ (λ i. added i ++ trail (moved i) xs)
                          ∙ append_assoc (events st.world) _ (trail x.new_status xs),
                      row',
                      here,
                      last ∙ ap (λ t. last_status t xs) moved,
                    )
              | inr (e, bad) ↦ absurd (let h = rw (bad, run) at h in cc)
            ]
