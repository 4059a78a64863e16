-- ===== src/Reviews/Store.antt =====
-- The columns of core_hitl that the handlers of case_reassignment.go, escalation.go and
-- hitl_bulk_resolve.go of internal/compliance/handlers/compliance read and write, and the database
-- (database.DB) that keeps them, which is a parameter. A read is none where it fails. An error is
-- its text.
use aocs_compliance_svc.Common.{◌≡◌, ◌≢◌, ◌⊎◌, Bool, true, false, List, ◌∷◌, Option, none, some}
use aocs_compliance_svc.Text.{Text, codes, eq_text}
use aocs_compliance_svc.Text.Maps.{Map}
use aocs_compliance_svc.Cases.Store.{Cell, str}

-- A case as it is read; context_data is none where the column does not hold an object.
pub record Case (F : Type 0) : Type 0 where
  pub status : Cell F
  pub department_id : Cell F
  pub context_data : Option (Map (Cell F))

-- What an update writes: a handover to a department with a deadline, a context and a time; a
-- verdict with its reviewer, its reason and the time of resolved_at and updated_at; an escalation
-- with its context and its time; a recusal with its log and its time.
pub data Change (F : Type 0) : Type 0 where
  handover : Text → Text → Text → Text → Change F
  verdict : Text → Text → Text → Text → Change F
  escalation : Map (Cell F) → Text → Change F
  recusal : Text → Text → Change F

-- What a transaction gives: the world, the variables that its body sets, and the error.
pub record Ran (W A : Type 0) : Type 0 where
  pub world : W
  pub vars : A
  pub failure : Option Text

-- A row of core_events on a verdict; target_id is the case.
pub record VerdictEvent : Type 0 where
  pub tenant_id : Text
  pub event_type : Text
  pub actor_id : Text
  pub target_id : Text
  pub action : Text
  pub new_value : Text

-- WithTransaction takes the variables that the body sets, and the body. A case is locked, read and
-- updated by its id and the tenant.
pub record Database (W F : Type 0) : Type 1 where
  pub with_transaction : {A : Type 0} → W → A → (W → Ran W A) → Ran W A
  pub lock_case : W → Text → Text → Option (List (Case F))
  pub update_case : W → Text → Text → Change F → W × Bool
  pub post_verdict : W → VerdictEvent → W × Bool

abbrev pub escalated : Text
escalated = codes "ESCALATED"

-- A row after an update. The context of a handover is a text.
unfoldable pub apply_change : {F : Type 0} → Change F → Case F → Case F
apply_change (handover d deadline context t) row = record {
  status = row.status;
  department_id = str d;
  context_data = none;
}
apply_change (verdict v reviewer reason t) row = record {
  status = str v;
  department_id = row.department_id;
  context_data = row.context_data;
}
apply_change (escalation m t) row = record {
  status = str escalated;
  department_id = row.department_id;
  context_data = some m;
}
apply_change (recusal log t) row = row

-- A database through which nobody else writes while one call of it runs. A transaction commits
-- what its body did, or fails and changes nothing, and fails with the error of its body where there
-- is one. A read gives the case that is there; a write that fails changes nothing, and one that
-- goes through changes its case alone.
pub record Observed (W F : Type 0) (db : Database W F) : Type 1 where
  pub find : W → Text → Text → Option (Case F)
  pub committed-or_failed :
      {A : Type 0} (w : W) (a : A) (body : W → Ran W A)
      → let run = db.with_transaction w a body in
        ((run ≡ body w) × ((body w).failure ≡ none))
        ⊎ ((run.world ≡ w)
            × (run.failure ≢ none)
            × (((body w).failure ≡ none) ⊎ (run.failure ≡ (body w).failure)))
  pub lock-found :
      (w : W) (id tenant : Text) (row : Case F) (rows : List (Case F))
      → db.lock_case w id tenant ≡ some (row ∷ rows)
      → find w id tenant ≡ some row
  pub update-found :
      (w : W) (id tenant : Text) (c : Change F) (row : Case F)
      → find w id tenant ≡ some row
      → (db.update_case w id tenant c).1 ≡ true
      → find (db.update_case w id tenant c).0 id tenant ≡ some (apply_change c row)
  pub update-others :
      (w : W) (id tenant : Text) (c : Change F) (j tenant' : Text)
      → eq_text id j ≡ false
      → find (db.update_case w id tenant c).0 j tenant' ≡ find w j tenant'
  pub update-failed :
      (w : W) (id tenant : Text) (c : Change F)
      → (db.update_case w id tenant c).1 ≡ false
      → (db.update_case w id tenant c).0 ≡ w
  pub post-found :
      (w : W) (e : VerdictEvent) (id tenant : Text)
      → find (db.post_verdict w e).0 id tenant ≡ find w id tenant
