-- ===== src/Departments/Settings.antt =====
-- What internal/compliance/handlers/compliance/department_overflow.go reads off a request and off
-- the settings of a department, and the replies that it gives.
use aocs_compliance_svc.Common.{
  ℕ, zero, suc, ◌-◌, ◌*◌, ◌%◌, ◌^◌, Bool, false, List, [], ◌∷◌, Option, none, some, ℤ, pos, negsuc,
  ltb, leb, ◌||◌, is_empty, if◌then◌else◌,
}
use aocs_compliance_svc.Text.{Text, codes, eq_text}
use aocs_compliance_svc.Cases.Store.{Cell, str, float}

-- What the handlers take from elsewhere: float64 with its test `> 0` and its conversion to int, the
-- time formats, and JSON: the field overflow_dept of a text, where the text can be read, and the
-- text of the context of a move, with the two departments, the time and the reason.
pub record Services : Type 1 where
  pub Float : Type 0
  pub is_positive : Float → Bool
  pub to_int : Float → ℤ
  pub format_time : ℕ → Text
  pub format_after : ℕ → ℤ → Text
  pub overflow_dept : Text → Option Text
  pub overflow_context : Text → Text → Text → Text → Text
  pub migration_context : Text → Text → Text → Text → Text

-- A tenant is none where MustGetTenantID has answered, a body where BindOptional has.
pub record OverflowRequest : Type 0 where
  pub tenant : Option Text
  pub slug : Text
  pub max_cases_to_move : Option ℤ

pub record DeletionRequest : Type 0 where
  pub tenant : Option Text
  pub slug : Text
  pub target_dept : Option Text

pub record Rerouted : Type 0 where
  pub dept_id : Text
  pub open_cases : ℕ
  pub capacity_limit : ℤ
  pub overflow_to : Text
  pub moved_count : ℕ
  pub new_sla_hours : ℤ

pub data OverflowReply : Type 0 where
  no_database no_tenant missing_slug invalid_body query_failed : OverflowReply
  department_not_found same_department target_not_found : Text → OverflowReply
  within_capacity : Text → ℕ → ℤ → OverflowReply
  rerouted : Rerouted → OverflowReply

-- The two replies with safe_to_delete: the first for a department with no open case, the second
-- with the number of open cases, of migrated ones, and the target.
pub data DeletionReply : Type 0 where
  no_database no_tenant missing_slug invalid_body query_failed : DeletionReply
  target_missing : Text → ℕ → DeletionReply
  target_is_source : DeletionReply
  safe_empty : Text → DeletionReply
  safe_migrated : Text → ℕ → ℕ → Text → DeletionReply

-- A row of core_events that a goroutine posts for a case that is moved.
pub record AuditRow : Type 0 where
  pub entity_id : Text
  pub tenant_id : Text
  pub from_dept : Text
  pub to_dept : Text
  pub sla_hours : ℤ

unfoldable pub limit_of : ℤ → ℕ
limit_of (pos zero) = 10
limit_of (pos (suc n)) = suc n
limit_of (negsuc n) = 10

-- An int of 64 bits times an hour in nanoseconds, as a time.Duration of 64 bits that wraps around.
unfoldable pub hours_duration : ℤ → ℤ
hours_duration h =
    let bits : ℕ = elim h [
      | pos n ↦ (n * 3600000000000) % 2 ^ 64
      | negsuc n ↦ (2 ^ 64 - (suc n * 3600000000000) % 2 ^ 64) % 2 ^ 64
    ] in
    if ltb bits (2 ^ 63) then pos bits else negsuc (2 ^ 64 - bits - 1)

unfoldable pub fits : ℕ → ℤ → Bool
fits n (pos limit) = leb n limit
fits n (negsuc limit) = false

-- A cell as a string, "" where it holds something else.
unfoldable pub string_of : {F : Type 0} → Cell F → Text
string_of cell = elim cell [ str t ↦ t | _ ↦ [] ]

module _ (s : Services) where
  open s use {Float, is_positive, to_int, overflow_dept}

  -- A positive number in the first row, or a default.
  unfoldable pub int_setting : ℤ → Option (List (Cell Float)) → ℤ
  int_setting default none = default
  int_setting default (some []) = default
  int_setting default (some (cell ∷ rows)) = elim cell [
    | float x ↦ if is_positive x then to_int x else default
    | _ ↦ default
  ]

  unfoldable pub target_of : Cell Float → Text
  target_of config =
      let text = string_of config in
      let dept : Text =
        if is_empty text || eq_text text (codes "null")
        then []
        else (elim (overflow_dept text) [ some dept ↦ dept | none ↦ [] ]) in
      if is_empty dept then codes "compliance" else dept
