-- ===== src/Cases/Tests.antt =====
-- The theorems on cases at a service that keeps its rows as a function.
use aocs_compliance_svc.Common.{
  ◌*◌, ◌/◌, ◌<◌, ◌≡◌, ◌↔◌, refl, true, List, [], ◌∷◌, ◌++◌, none, some,
}
use aocs_compliance_svc.Text.{codes, eq_text}
use aocs_compliance_svc.Cases.Store.{Row, Event}
use aocs_compliance_svc.Cases.Rows.{
  case_not_found, CaseCreated, done, failed, draw_id, new_row, created_for, pending, escalated,
}
use aocs_compliance_svc.Cases.Lifecycle.{
  State, create_case, transition_row, transition_with, transition_case, write_lifecycle_event,
}
use aocs_compliance_svc.Cases.Lifecycle.Laws.{create_case-done, transition_case-done}
use aocs_compliance_svc.Cases.Lifecycle.Deadline.{create-transition_breach, second_length}
use aocs_compliance_svc.Cases.Lifecycle.Audit.{Step, run, trail, last_status, run-trail}
use aocs_compliance_svc.Cases.Toy.{
  toy_services, toy-IsRfc3339, Rows, put, keeper, keeper_observed, target, empty, draw, input, used,
}

transition-misses :
    (transition_case toy_services
      (Rows × List Event)
      (target true)
      empty
      (codes "c9")
      (codes "t1")
      (codes "u")
      pending
      []
      9
      draw
      draw).1
    ≡ failed case_not_found
unfolding transition_case transition_with
transition-misses = refl

abbrev the_row : Row
the_row = new_row toy_services input (codes "c1") 7000000000

-- One case in the table, whose status is the final APPROVED.
abbrev closed : Row
closed = record the_row { status = codes "APPROVED" }

abbrev with_row : Row → State toy_services (Rows × List Event)
with_row row = record empty {
  world = (put (codes "t1") (codes "c1") (some row) (λ t id. none), []);
}

row-here : (row : Row) → (with_row row).world.0 (codes "t1") (codes "c1") ≡ some row
unfolding eq_text
row-here row = refl

abbrev steps : List Step
steps =
    record {
      actor_id = codes "u";
      new_status = codes "ASSIGNED";
      reason = [];
      now = 9;
      first = draw;
      second = draw;
    }
    ∷ record {
      actor_id = codes "u";
      new_status = escalated;
      reason = [];
      now = 10;
      first = draw;
      second = draw;
    }
    ∷ []

steps-done :
    (run toy_services
      (Rows × List Event)
      (codes "c1")
      (codes "t1")
      (target true)
      (with_row the_row)
      steps).1
    ≡ true
unfolding run transition_case transition_with transition_row eq_text write_lifecycle_event
steps-done = refl

run-trail_example :
    let st' =
      (run toy_services
        (Rows × List Event)
        (codes "c1")
        (codes "t1")
        (target true)
        (with_row the_row)
        steps).0 in
    (st'.world.1
      ≡ [] ++ trail toy_services (Rows × List Event) (codes "c1") (codes "t1") the_row.status steps)
    × (row' : Row) × (st'.world.0 (codes "t1") (codes "c1") ≡ some row')
    × (row'.status ≡ last_status the_row.status steps)
run-trail_example =
    run-trail toy_services (Rows × List Event) (codes "c1") (codes "t1") (keeper true)
      (keeper_observed true) (λ w e. refl) (target true) (with_row the_row) the_row steps
      (used true) (row-here the_row) steps-done

created : CaseCreated
created = created_for toy_services input draw

made :
    let (st', r) =
      create_case toy_services
        (Rows × List Event)
        (target true)
        empty
        input
        true
        draw
        draw
        draw
        9 in
    (r ≡ done created)
    × (st'.world.0 (codes "t1") created.case_id
        ≡ some (new_row toy_services input (draw_id toy_services draw) 7000000000))
unfolding created
made =
    create_case-done toy_services (Rows × List Event) (keeper true) (keeper_observed true)
      (target true) empty input true draw draw draw 9 (used true) refl

moved :
    let st' =
      (create_case toy_services
        (Rows × List Event)
        (target true)
        empty
        input
        true
        draw
        draw
        draw
        9).0 in
    (transition_case toy_services
      (Rows × List Event)
      (target true)
      st'
      created.case_id
      (codes "t1")
      (codes "u")
      escalated
      []
      99000000000000
      draw
      draw).1
    ≡ done tt
moved =
    (transition_case-done toy_services (Rows × List Event) (keeper true) (keeper_observed true)
      (target true)
      (create_case toy_services (Rows × List Event) (target true) empty input true draw draw draw
        9).0
      created.case_id (codes "t1") (codes "u") escalated [] 99000000000000 draw draw
      (new_row toy_services input (draw_id toy_services draw) 7000000000) (used true) made.1 refl).0

create-transition_breach_example :
    let st' =
      (create_case toy_services
        (Rows × List Event)
        (target true)
        empty
        input
        true
        draw
        draw
        draw
        9).0 in
    let st'' =
      (transition_case toy_services
        (Rows × List Event)
        (target true)
        st'
        created.case_id
        (codes "t1")
        (codes "u")
        escalated
        []
        99000000000000
        draw
        draw).0 in
    (row : Row) × (st''.world.0 (codes "t1") created.case_id ≡ some row)
    × (row.status ≡ escalated)
    × ((row.sla_breached ≡ true)
        ↔ (created.sla_deadline / second_length * second_length < 99000000000000))
unfolding created
create-transition_breach_example =
    create-transition_breach toy_services toy-IsRfc3339 (Rows × List Event) (keeper true)
      (keeper_observed true) (target true) empty input true draw draw draw 9 (codes "u") escalated
      [] 99000000000000 draw draw (used true) made.0 moved
