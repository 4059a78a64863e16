-- ===== src/Departments/Deletion.antt =====
-- HandleGuardDeptDeletion of internal/compliance/handlers/compliance/department_overflow.go. The log
-- lines and the notes of the replies are left out.
use aocs_compliance_svc.Common.{
  ℕ, suc, Bool, List, [], ◌∷◌, ◌++◌, Option, none, some, length, is_empty, if◌then◌else◌,
}
use aocs_compliance_svc.Text.{Text, codes, eq_text}
use aocs_compliance_svc.Cases.Store.{Cell}
use aocs_compliance_svc.Departments.Store.{Move, Database, Core}
use aocs_compliance_svc.Departments.Settings.{
  Services, DeletionRequest, DeletionReply, no_database, no_tenant, missing_slug, invalid_body,
  query_failed, target_missing, target_is_source, safe_empty, safe_migrated,
}
use aocs_compliance_svc.Departments.Overflow.{attempt, list_pending}

-- The loop over the rows, with the number of the cases that were migrated.
unfoldable pub migrate_rows :
    {W F : Type 0} → (W → Text → Move → W × Bool) → Move → List (Cell F) → W × ℕ → W × ℕ
migrate_rows write m [] p = p
migrate_rows write m (cell ∷ rows) (w, n) =
    let (w', went) = attempt write m cell w in
    migrate_rows write m rows (w', if went then suc n else n)

module _ (s : Services) (W : Type 0) where
  open s use {Float, format_time, migration_context}

  unfoldable pub write_migration :
      Option (Core W Float) → Database W Float → Text → W → Text → Move → W × Bool
  write_migration core db tenant w id m = elim core [
    | some core ↦ core.patch_case w tenant id m
    | none ↦ db.update_in_tenant w id tenant m
  ]

  unfoldable pub migration_move : Text → Text → ℕ → Move
  migration_move slug target now = record {
    department_id = target;
    sla_deadline = none;
    context_data =
        migration_context slug target (format_time now)
          (codes "dept " ++ slug ++ codes " pre-deletion migration");
    updated_at = format_time now;
  }

  unfoldable pub migrate :
      Option (Core W Float)
      → Database W Float
      → Text
      → Text
      → Text
      → ℕ
      → List (Cell Float)
      → W
      → W × DeletionReply
  migrate core db tenant slug target now rows w =
      if is_empty rows
      then (w, safe_empty slug)
      else if is_empty target
      then (w, target_missing slug (length rows))
      else if eq_text target slug
      then (w, target_is_source)
      else (let (w', n) =
            migrate_rows (write_migration core db tenant) (migration_move slug target now) rows
              (w, 0) in
          (w', safe_migrated slug (length rows) n target))

  -- HandleGuardDeptDeletion.
  unfoldable pub guard_deletion :
      Option (Database W Float)
      → Option (Core W Float)
      → DeletionRequest
      → ℕ
      → W
      → W × DeletionReply
  guard_deletion db core req now w = elim db [
    | none ↦ (w, no_database)
    | some db ↦ elim req.tenant [
      | none ↦ (w, no_tenant)
      | some tenant ↦ if is_empty req.slug then (w, missing_slug) else (elim req.target_dept [
        | none ↦ (w, invalid_body)
        | some target ↦ elim (list_pending s W core db tenant w req.slug) [
          | none ↦ (w, query_failed)
          | some rows ↦ migrate core db tenant req.slug target now rows w
        ]
      ])
    ]
  ]
