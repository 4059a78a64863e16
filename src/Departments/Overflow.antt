-- ===== src/Departments/Overflow.antt =====
-- HandleRouteDeptOverflow of internal/compliance/handlers/compliance/department_overflow.go. The log
-- lines and the note of the reply are left out; a goroutine is recorded as the row that it posts.
use aocs_compliance_svc.Common.{
  ℕ, suc, Bool, false, List, [], ◌∷◌, ◌++◌, Option, none, some, ℤ, pos, leb, length, is_empty,
  if◌then◌else◌,
}
use aocs_compliance_svc.Text.{Text, codes, eq_text}
use aocs_compliance_svc.Cases.Store.{Cell}
use aocs_compliance_svc.Departments.Store.{Move, Database, Core}
use aocs_compliance_svc.Departments.Settings.{
  Services, OverflowRequest, OverflowReply, no_database, no_tenant, missing_slug, invalid_body,
  query_failed, department_not_found, same_department, target_not_found, within_capacity, rerouted,
  AuditRow, limit_of, hours_duration, fits, string_of, int_setting, target_of,
}
pub mod Laws
pub mod Bounds
pub mod Moves

pub record Progress (W : Type 0) : Type 0 where
  pub world : W
  pub moved : ℕ
  pub tasks : List AuditRow

pub record Routed (W : Type 0) : Type 0 where
  pub world : W
  pub reply : OverflowReply
  pub tasks : List AuditRow

-- A case with no id is passed over; the others are written. The answer says whether a case has been
-- written.
unfoldable pub attempt :
    {W F : Type 0} → (W → Text → Move → W × Bool) → Move → Cell F → W → W × Bool
attempt write m cell w = let id = string_of cell in if is_empty id then (w, false) else write w id m

module _ {W F : Type 0} (write : W → Text → Move → W × Bool) (m : Move)
    (audit : Text → AuditRow) where
  unfoldable pub move_row : Cell F → Progress W → Progress W
  move_row cell p =
      let (w, went) = attempt write m cell p.world in
      if went
      then record { world = w; moved = suc p.moved; tasks = p.tasks ++ audit (string_of cell) ∷ [] }
      else record { world = w; moved = p.moved; tasks = p.tasks }

  -- The loop over the rows.
  unfoldable pub move_rows : ℕ → List (Cell F) → Progress W → Progress W
  move_rows limit [] p = p
  move_rows limit (cell ∷ rows) p =
      let rest = move_rows limit rows (move_row cell p) in if leb limit p.moved then p else rest

module _ (s : Services) (W : Type 0) where
  open s use {Float, format_time, format_after, overflow_context}

  unfoldable pub list_pending :
      Option (Core W Float) → Database W Float → Text → W → Text → Option (List (Cell Float))
  list_pending core db tenant w slug = elim core [
    | some core ↦ core.list_cases w tenant slug 500
    | none ↦ db.query_pending w slug
  ]

  unfoldable pub write_overflow :
      Option (Core W Float) → Database W Float → Text → W → Text → Move → W × Bool
  write_overflow core db tenant w id m = elim core [
    | some core ↦ core.patch_case w tenant id m
    | none ↦ db.update_pending w id m
  ]

  unfoldable pub answer : W → OverflowReply → Routed W
  answer w r = record { world = w; reply = r; tasks = [] }

  unfoldable pub overflow_move : Text → Text → ℤ → ℕ → ℕ → Move
  overflow_move slug target hours deadline_from now = record {
    department_id = target;
    sla_deadline = some (format_after deadline_from (hours_duration hours));
    context_data =
        overflow_context slug target (format_time now)
          (codes "dept " ++ slug ++ codes " at capacity, rerouting");
    updated_at = format_time now;
  }

  module _ (core : Option (Core W Float)) (db : Database W Float) (tenant slug : Text)
      (deadline_from now : ℕ) where
    unfoldable pub reroute : Text → ℕ → ℤ → List (Cell Float) → W → Routed W
    reroute target limit capacity rows w =
        let hours = int_setting s (pos 48) (db.query_sla_hours w target tenant) in
        let audit : Text → AuditRow = λ id. record {
          entity_id = id;
          tenant_id = tenant;
          from_dept = slug;
          to_dept = target;
          sla_hours = hours;
        } in
        let p =
          move_rows (write_overflow core db tenant)
            (overflow_move slug target hours deadline_from now) audit limit rows
            (record { world = w; moved = 0; tasks = [] }) in
        record {
          world = p.world;
          reply = rerouted (record {
            dept_id = slug;
            open_cases = length rows;
            capacity_limit = capacity;
            overflow_to = target;
            moved_count = p.moved;
            new_sla_hours = hours;
          });
          tasks = p.tasks;
        }

    unfoldable pub to_target : Text → ℕ → ℤ → List (Cell Float) → W → Routed W
    to_target target limit capacity rows w =
        if eq_text target slug
        then answer w (same_department slug)
        else (elim (db.query_departments w target tenant) [
          | none ↦ answer w (target_not_found target)
          | some targets ↦ elim targets [
            | [] ↦ answer w (target_not_found target)
            | row ∷ more ↦ reroute target limit capacity rows w
          ]
        ])

    unfoldable pub with_config : Cell Float → ℕ → W → Routed W
    with_config config limit w =
        let capacity = int_setting s (pos 200) (db.query_max_cases w slug tenant) in
        elim (list_pending core db tenant w slug) [
          | none ↦ answer w query_failed
          | some rows ↦
              if fits (length rows) capacity
              then answer w (within_capacity slug (length rows) capacity)
              else to_target (target_of s config) limit capacity rows w
        ]

    unfoldable pub with_department : ℕ → W → Routed W
    with_department limit w = elim (db.query_departments w slug tenant) [
      | none ↦ answer w (department_not_found slug)
      | some depts ↦ elim depts [
        | [] ↦ answer w (department_not_found slug)
        | config ∷ more ↦ with_config config limit w
      ]
    ]

  -- HandleRouteDeptOverflow.
  unfoldable pub route_overflow :
      Option (Database W Float) → Option (Core W Float) → OverflowRequest → ℕ → ℕ → W → Routed W
  route_overflow db core req deadline_from now w = elim db [
    | none ↦ answer w no_database
    | some db ↦ elim req.tenant [
      | none ↦ answer w no_tenant
      | some tenant ↦
          if is_empty req.slug then answer w missing_slug else (elim req.max_cases_to_move [
            | none ↦ answer w invalid_body
            | some n ↦ with_department core db tenant req.slug deadline_from now (limit_of n) w
          ])
    ]
  ]
