-- ===== src/Departments/Tests.antt =====
-- The theorems on departments at a service that keeps one case, in one department or another.
use aocs_compliance_svc.Common.{
  ◌≤◌, ◌≡◌, refl, true, false, [], ◌∷◌, Option, none, some, pos, ℕ, length, keep, arith,
}
use aocs_compliance_svc.Text.{Text, codes, eq_text}
use aocs_compliance_svc.Departments.Store.{Move}
use aocs_compliance_svc.Departments.Settings.{
  OverflowRequest, DeletionRequest, Rerouted, rerouted, fits, limit_of, int_setting, target_of,
  string_of,
}
use aocs_compliance_svc.Departments.Overflow.{
  Routed, attempt, move_row, move_rows, list_pending, write_overflow, answer, overflow_move,
  reroute, to_target, with_config, with_department, route_overflow,
}
use aocs_compliance_svc.Departments.Overflow.Bounds.{route_overflow-bounds}
use aocs_compliance_svc.Departments.Overflow.Moves.{route_overflow-Placed, Placed}
use aocs_compliance_svc.Departments.Deletion.{
  migrate_rows, write_migration, migration_move, migrate, guard_deletion,
}
use aocs_compliance_svc.Departments.Guard.{claims, guard_deletion_complete}
use aocs_compliance_svc.Departments.Routing.{
  RouteBody, Routing, routed, Sources, dept_compliance, slugs_of, is_known, choose, fallback_events,
  catch_all, route_query, is_degraded, route_body, route_department,
}
use aocs_compliance_svc.Departments.Toy.{
  case_1, fraud, compliance, acme, toy, cell, find_one, one_db, overflow-Located, migration-Located,
  one_db-Located,
}

abbrev overflow_request : Option Text → OverflowRequest
overflow_request tenant = record { tenant = tenant; slug = fraud; max_cases_to_move = some (pos 0) }

abbrev deletion_request : DeletionRequest
deletion_request = record { tenant = some acme; slug = fraud; target_dept = some compliance }

abbrev moved_one : Rerouted
moved_one = record {
  dept_id = fraud;
  open_cases = 1;
  capacity_limit = pos 0;
  overflow_to = compliance;
  moved_count = 1;
  new_sla_hours = pos 48;
}

abbrev route : Routed (Option Text)
route =
    route_overflow toy (Option Text) (some (one_db 0 true)) none (overflow_request (some acme)) 0 0
      (some fraud)

route-reply : route.reply ≡ rerouted moved_one
unfolding route_overflow with_department with_config list_pending to_target reroute answer fits
    int_setting target_of string_of limit_of move_rows move_row attempt write_overflow overflow_move
    eq_text
route-reply = refl

reliable :
    (w : Option Text) (id : Text) (m : Move)
    → (write_overflow toy (Option Text) none (one_db 0 true) acme w id m).1 ≡ true
unfolding write_overflow
reliable w id m = refl

route_overflow-bounds_example :
    (1 ≤ limit_of (pos 0))
    × (1 ≤ 1)
    × (length route.tasks ≡ 1)
    × (eq_text compliance fraud ≡ false)
    × (fits 1 (pos 0) ≡ false)
route_overflow-bounds_example =
    route_overflow-bounds toy (Option Text) none (one_db 0 true) (overflow_request (some acme)) 0 0
      (some fraud) acme (pos 0) moved_one refl refl route-reply

route_overflow-Placed_example :
    Placed toy
      (Option Text)
      none
      (one_db 0 true)
      (overflow_request (some acme))
      0
      0
      (some fraud)
      acme
      (pos 0)
      refl
      refl
      overflow-Located
      route.reply
      route.world
      case_1
route_overflow-Placed_example =
    route_overflow-Placed toy (Option Text) none (one_db 0 true) (overflow_request (some acme)) 0 0
      (some fraud) acme (pos 0) refl refl overflow-Located case_1

guarded :
    claims toy
      (Option Text)
      (guard_deletion toy
        (Option Text)
        (some (one_db 0 true))
        none
        deletion_request
        0
        (some fraud)).1
    ≡ some (1, 1)
unfolding claims guard_deletion migrate list_pending string_of migrate_rows attempt write_migration
    eq_text migration_move
guarded = refl

guard_deletion_complete_example : ¬ (
    find_one
      (guard_deletion toy
        (Option Text)
        (some (one_db 0 true))
        none
        deletion_request
        0
        (some fraud)).0
      case_1
    ≡ some fraud)
unfolding migration-Located one_db-Located
guard_deletion_complete_example =
    guard_deletion_complete toy (Option Text) none (one_db 0 true) deletion_request 0 (some fraud)
      acme refl (migration-Located true) 1 (omega arith) guarded case_1

-- A classifier that names one department, which is unknown.
abbrev sources : Sources ℕ
sources = record {
  classify = λ c p r d. record { departments = fraud ∷ []; routing_source = codes "db" };
  query_slugs = some (cell dept_compliance ∷ []);
  count_pending = λ d. none;
  max_hitl_cases = none;
}

abbrev escalation : RouteBody
escalation = record {
  case_type = codes "AGENT_ESC";
  policy_category = [];
  rule_type = [];
  description = [];
  agent_id = [];
  check_capacity = some false;
}

abbrev fallback : Routing
fallback = record {
  departments = dept_compliance ∷ [];
  capacity_status = [];
  filtered_out = fraud ∷ [];
  routing_degraded = false;
  events = catch_all 1 ∷ route_query (dept_compliance ∷ []) ∷ [];
}

falls-back : route_department true true sources (some acme) (some escalation) ≡ routed fallback
unfolding route_department route_body choose fallback_events is_degraded slugs_of is_known keep
    string_of eq_text
falls-back = refl
