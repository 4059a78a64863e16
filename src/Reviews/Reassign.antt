-- ===== src/Reviews/Reassign.antt =====
-- HandleReassignCase of internal/compliance/handlers/compliance/case_reassignment.go. The log lines
-- are left out; a goroutine is recorded as the row that it posts.
use aocs_compliance_svc.Common.{
  ℕ, Bool, false, not, ◌||◌, List, [], ◌∷◌, ◌++◌, Option, none, some, ℤ, pos, zero, suc, negsuc,
  length, drop, is_empty, if◌then◌else◌,
}
use aocs_compliance_svc.Text.{Text, codes, eq_text, has_prefix}
use aocs_compliance_svc.Cases.Store.{Cell, float}
use aocs_compliance_svc.Departments.Settings.{Services, hours_duration, string_of, int_setting}
use aocs_compliance_svc.Reviews.Store.{handover, Ran, Database}
pub mod Laws
pub mod Race

-- ReassignCaseRequest; a body is none where Bind has answered.
pub record ReassignBody : Type 0 where
  pub from_dept_id : Text
  pub to_dept_id : Text
  pub reason : Text
  pub escalation_level : ℤ

pub record ReassignRequest : Type 0 where
  pub tenant : Option Text
  pub id : Text
  pub body : Option ReassignBody

-- The value of the key hitl of enabled_features.
pub data Feature : Type 0 where
  flag : Bool → Feature
  text : Text → Feature
  other : Feature

-- What the handler reads apart from the case, each by a department and the tenant: of a department
-- the key hitl, none where there is no such key; and of core_hitl_sla the columns
-- auto_approve_threshold and sla_hours.
pub record Departments (W F : Type 0) : Type 0 where
  pub query_department : W → Text → Text → Option (List (Option Feature))
  pub query_auto_approve : W → Text → Text → Option (List (Cell F))
  pub query_sla_hours : W → Text → Text → Option (List (Cell F))

-- What the handler takes from elsewhere: float64 with the default threshold 0.8, whether a
-- difference is above 0.10, and `%.0f` of a number times 100; and the JSON of the context, with the
-- two departments, the time, the reason and the escalation level, where it is positive.
pub record Policies (F : Type 0) : Type 0 where
  pub default_auto_approve : F
  pub is_wide : F → F → Bool
  pub percent : F → Text
  pub handover_context : Text → Text → Text → Text → Option ℤ → Option Text

pub record Handover : Type 0 where
  pub case_id : Text
  pub from_dept : Text
  pub to_dept : Text
  pub new_sla_deadline : Text
  pub sla_hours : ℤ
  pub policy_conflict : Text

pub data ReassignReply : Type 0 where
  no_database no_tenant missing_id invalid_body missing_target same_department : ReassignReply
  not_found lock_failed update_failed no_reply : ReassignReply
  terminal target_not_found hitl_disabled : Text → ReassignReply
  reassigned : Handover → ReassignReply

-- The row of core_events on a handover.
pub record HandoverEvent : Type 0 where
  pub tenant_id : Text
  pub handover : Handover
  pub reason : Text
  pub created_at : Text

pub record Reassigned (W : Type 0) : Type 0 where
  pub world : W
  pub reply : ReassignReply
  pub tasks : List HandoverEvent

-- The variables that the body of the transaction sets.
pub record Current : Type 0 where
  pub current_dept : Text
  pub current_status : Text

abbrev pub unset : Current
unset = record { current_dept = []; current_status = [] }

unfoldable pub is_terminal : Text → Bool
is_terminal t =
    eq_text t (codes "APPROVED") || eq_text t (codes "REJECTED") || eq_text t (codes "RESOLVED")

abbrev pub terminal_prefix : Text
terminal_prefix = codes "terminal:"

unfoldable pub reply_of_failure : Text → ReassignReply
reply_of_failure e =
    if eq_text e (codes "not_found")
    then not_found
    else if has_prefix terminal_prefix e
    then terminal (drop (length terminal_prefix) e)
    else lock_failed

-- The first row of a department has HITL off.
unfoldable pub is_disabled : Option Feature → Bool
is_disabled none = false
is_disabled (some (flag v)) = not v
is_disabled (some (text v)) = eq_text v (codes "false") || eq_text v (codes "0")
is_disabled (some other) = false

unfoldable pub level_of : ℤ → Option ℤ
level_of (pos zero) = none
level_of (pos (suc n)) = some (pos (suc n))
level_of (negsuc n) = none

module _ {F : Type 0} (p : Policies F) where
  unfoldable pub threshold_of : Option (List (Cell F)) → F
  threshold_of none = p.default_auto_approve
  threshold_of (some []) = p.default_auto_approve
  threshold_of (some (cell ∷ rows)) = elim cell [ float x ↦ x | _ ↦ p.default_auto_approve ]

  -- The text of a conflict between the policies of two departments, "" where there is none.
  unfoldable pub policy_conflict_of : Text → F → Text → F → Text
  policy_conflict_of src at tgt at' =
      if p.is_wide at at'
      then (codes "Policy conflict: "
          ++ src
          ++ codes " auto-approves at "
          ++ p.percent at
          ++ codes "% but "
          ++ tgt
          ++ codes " auto-approves at "
          ++ p.percent at'
          ++ codes "% — cases "
          ++ src
          ++ codes " would escalate may auto-resolve in "
          ++ tgt
          ++ codes ". Co-Pilot: confirm handover?")
      else if p.is_wide at' at
      then (codes "Policy conflict: "
          ++ src
          ++ codes " auto-approves at "
          ++ p.percent at
          ++ codes "% but "
          ++ tgt
          ++ codes " requires "
          ++ p.percent at'
          ++ codes "% — cases "
          ++ src
          ++ codes " auto-resolves may escalate in "
          ++ tgt
          ++ codes ". Co-Pilot: confirm handover?")
      else []

module _ (s : Services) (W : Type 0) where
  open s use {Float, format_time, format_after}

  unfoldable pub answer : W → ReassignReply → Reassigned W
  answer w r = record { world = w; reply = r; tasks = [] }

  -- The body of the transaction, which only reads.
  unfoldable pub lock_body : Database W Float → Text → Text → Current → W → Ran W Current
  lock_body db id tenant vars w = elim (db.lock_case w id tenant) [
    | none ↦ record { world = w; vars = vars; failure = some (codes "not_found") }
    | some rows ↦ elim rows [
      | [] ↦ record { world = w; vars = vars; failure = some (codes "not_found") }
      | row ∷ more ↦
          let status : Text = string_of row.status in
          record {
            world = w;
            vars = record { current_dept = string_of row.department_id; current_status = status };
            failure = if is_terminal status then some (terminal_prefix ++ status) else none;
          }
    ]
  ]

  module _ (p : Policies Float) (db : Database W Float) (depts : Departments W Float)
      (tenant id : Text) (body : ReassignBody) (deadline_from now : ℕ) where
    unfoldable pub handover_of : W → Text → Handover
    handover_of w current =
        let hours = int_setting s (pos 48) (depts.query_sla_hours w body.to_dept_id tenant) in
        record {
          case_id = id;
          from_dept = current;
          to_dept = body.to_dept_id;
          new_sla_deadline = format_after deadline_from (hours_duration hours);
          sla_hours = hours;
          policy_conflict =
              policy_conflict_of p current
                (threshold_of p (depts.query_auto_approve w current tenant)) body.to_dept_id
                (threshold_of p (depts.query_auto_approve w body.to_dept_id tenant));
        }

    -- The update, from the context on.
    unfoldable pub hand_over : Text → W → Reassigned W
    hand_over current w =
        let h = handover_of w current in
        elim (p.handover_context current body.to_dept_id (format_time now) body.reason
          (level_of body.escalation_level)) [
            | none ↦ answer w no_reply
            | some context ↦
                let (w', went) =
                  db.update_case w id tenant
                    (handover body.to_dept_id h.new_sla_deadline context (format_time now)) in
                if went
                then record {
                  world = w';
                  reply = reassigned h;
                  tasks =
                      record {
                        tenant_id = tenant;
                        handover = h;
                        reason = body.reason;
                        created_at = format_time now;
                      }
                      ∷ [];
                }
                else answer w' update_failed
          ]

    unfoldable pub to_department : Text → W → Reassigned W
    to_department current w = elim (depts.query_department w body.to_dept_id tenant) [
      | none ↦ answer w (target_not_found body.to_dept_id)
      | some rows ↦ elim rows [
        | [] ↦ answer w (target_not_found body.to_dept_id)
        | hitl ∷ more ↦
            if is_disabled hitl
            then answer w (hitl_disabled body.to_dept_id)
            else hand_over current w
      ]
    ]

    -- From the transaction on. `others` is what other requests write once it has ended.
    unfoldable pub reassign_locked : (W → W) → W → Reassigned W
    reassign_locked others w =
        let run = db.with_transaction w unset (lock_body db id tenant unset) in
        elim run.failure [
          | some e ↦ answer run.world (reply_of_failure e)
          | none ↦ to_department run.vars.current_dept (others run.world)
        ]

  -- HandleReassignCase.
  unfoldable pub reassign_case :
      Policies Float
      → Option (Database W Float)
      → Departments W Float
      → ReassignRequest
      → ℕ
      → ℕ
      → (W → W)
      → W
      → Reassigned W
  reassign_case p db depts req deadline_from now others w = elim db [
    | none ↦ answer w no_database
    | some db ↦ elim req.tenant [
      | none ↦ answer w no_tenant
      | some tenant ↦ if is_empty req.id then answer w missing_id else (elim req.body [
        | none ↦ answer w invalid_body
        | some body ↦
            if is_empty body.to_dept_id
            then answer w missing_target
            else if eq_text body.from_dept_id body.to_dept_id
            then answer w same_department
            else reassign_locked p db depts tenant req.id body deadline_from now others w
      ])
    ]
  ]
