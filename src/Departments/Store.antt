-- ===== src/Departments/Store.antt =====
-- The tables that internal/compliance/handlers/compliance/department_overflow.go reads and writes,
-- and the two services that it reaches them through: a database (database.DB) and the core service
-- (serviceclient.Client). Both are parameters. A read is none where it fails.
use aocs_compliance_svc.Common.{ℕ, ◌<◌, ◌≡◌, Bool, true, false, List, Option, some, length}
use mathlib.Core.List.{Memᴰ}
use aocs_compliance_svc.Text.{Text, eq_text}
use aocs_compliance_svc.Cases.Store.{Cell, str}

-- The columns of a case that a move writes; a migration leaves sla_deadline out.
pub record Move : Type 0 where
  pub department_id : Text
  pub sla_deadline : Option Text
  pub context_data : Text
  pub updated_at : Text

-- Of the departments with a slug in a tenant, the column overflow_routing_config; of the rows of
-- core_hitl_sla of a department, max_cases and sla_hours; of the PENDING cases of a department,
-- decision_id. A case is updated by its id and a status of PENDING, or by its id and the tenant.
pub record Database (W F : Type 0) : Type 0 where
  pub query_departments : W → Text → Text → Option (List (Cell F))
  pub query_max_cases : W → Text → Text → Option (List (Cell F))
  pub query_sla_hours : W → Text → Text → Option (List (Cell F))
  pub query_pending : W → Text → Option (List (Cell F))
  pub update_pending : W → Text → Move → W × Bool
  pub update_in_tenant : W → Text → Text → Move → W × Bool

-- The PENDING cases of a tenant in a department, up to a number, and the update of a case of a
-- tenant.
pub record Core (W F : Type 0) : Type 0 where
  pub list_cases : W → Text → Text → ℕ → Option (List (Cell F))
  pub patch_case : W → Text → Text → Move → W × Bool

-- A service through which nobody else writes. `located` is the department of a pending case. A
-- list has pending cases of its department, and all of them where it is shorter than 500; a write
-- that fails changes nothing, and one that goes through moves its case alone.
pub record Located (W F : Type 0) (list : W → Text → Option (List (Cell F)))
    (write : W → Text → Move → W × Bool) : Type 0 where
  pub located : W → Text → Option Text
  pub list-located :
      (w : W) (slug : Text) (rows : List (Cell F)) (id : Text)
      → list w slug ≡ some rows
      → Memᴰ (str id) rows
      → located w id ≡ some slug
  pub list-complete :
      (w : W) (slug : Text) (rows : List (Cell F)) (id : Text)
      → list w slug ≡ some rows
      → length rows < 500
      → located w id ≡ some slug
      → Memᴰ (str id) rows
  pub write-here :
      (w : W) (id : Text) (m : Move) (d : Text)
      → located w id ≡ some d
      → (write w id m).1 ≡ true
      → located (write w id m).0 id ≡ some m.department_id
  pub write-others :
      (w : W) (id : Text) (m : Move) (j : Text)
      → eq_text id j ≡ false
      → located (write w id m).0 j ≡ located w j
  pub write-failed :
      (w : W) (id : Text) (m : Move) → (write w id m).1 ≡ false → (write w id m).0 ≡ w
