-- ===== src/Departments/Guard.antt =====
-- When a department whose deletion HandleGuardDeptDeletion calls safe has no pending case left.
use mathlib.Core.List.{Memᴰ}
use aocs_compliance_svc.Common.{
  ℕ, ◌<◌, ◌≡◌, refl, sym, ap, ◌∙◌, ◌⊎◌, inl, inr, false, List, [], ◌∷◌, Option, none, some, length,
  is_empty, Bool-cases, Option-cases, arith,
}
use aocs_compliance_svc.Text.{Text, eq_text}
use aocs_compliance_svc.Text.Laws.{eq_text_refl}
use aocs_compliance_svc.Cases.Store.{Cell, str}
use aocs_compliance_svc.Departments.Store.{Move, Database, Core, Located}
use aocs_compliance_svc.Departments.Settings.{
  Services, DeletionRequest, DeletionReply, safe_empty, safe_migrated, string_of,
}
use aocs_compliance_svc.Departments.Overflow.{attempt, list_pending}
use aocs_compliance_svc.Departments.Deletion.{
  migrate_rows, write_migration, migration_move, migrate, guard_deletion,
}
use aocs_compliance_svc.Departments.Located.{migrate_rows_rerouted}
use aocs_compliance_svc.Departments.Migration.{migrate_rows-all}

module _ (s : Services) (W : Type 0) where
  open s use {Float}

  -- What a reply with safe_to_delete says: the number of open cases, and of migrated ones.
  unfoldable pub claims : DeletionReply → Option (ℕ × ℕ)
  claims reply = elim reply [
    | safe_empty slug ↦ some (0, 0)
    | safe_migrated slug open_cases migrated target ↦ some (open_cases, migrated)
    | _ ↦ none
  ]

  module _ (core : Option (Core W Float)) (db : Database W Float) (tenant slug : Text) (now : ℕ)
      (w : W) where
    -- How a call that says safe_to_delete has run: on no row, or over the listed ones.
    abbrev Ran : Text → List (Cell Float) → ℕ → ℕ → W × DeletionReply → Type 0
    Ran target rows open_cases migrated (w', reply) =
        let res =
          migrate_rows (write_migration s W core db tenant) (migration_move s W slug target now)
            rows (w, 0) in
        (open_cases ≡ length rows)
        × (migrated ≡ res.1)
        × (w' ≡ res.0)
        × ((rows ≡ []) ⊎ ((is_empty target ≡ false) × (eq_text target slug ≡ false)))

    migrate-Ran :
        (target : Text) (rows : List (Cell Float)) (open_cases migrated : ℕ)
        → claims (migrate s W core db tenant slug target now rows w).1 ≡ some (open_cases, migrated)
        → Ran target rows open_cases migrated (migrate s W core db tenant slug target now rows w)
    unfolding migrate claims migrate_rows
    migrate-Ran target [] open_cases migrated h = ground (arith, h)
    migrate-Ran target (cell ∷ rows) open_cases migrated h = elim (Bool-cases (is_empty target)) [
      | inl missing ↦ absurd (let h = rw missing at h in cc)
      | inr given ↦ elim (Bool-cases (eq_text target slug)) [
        | inl same ↦ absurd (let h = rw (given, same) at h in cc)
        | inr apart ↦
            let h = rw (given, apart) at h in
            rw (given, apart) (ground (arith, h), ground (arith, h), refl, inr (refl, refl))
      ]
    ]

  pub guard_deletion-Ran :
      (core : Option (Core W Float)) (db : Database W Float) (req : DeletionRequest) (now : ℕ)
      (w : W) (tenant : Text) (open_cases migrated : ℕ)
      → req.tenant ≡ some tenant
      → claims (guard_deletion s W (some db) core req now w).1 ≡ some (open_cases, migrated)
      → (target : Text) × (rows : List (Cell Float)) × (list_pending s W core db tenant w req.slug
          ≡ some rows)
        × Ran core db tenant req.slug now w target rows open_cases migrated
            (guard_deletion s W (some db) core req now w)
  unfolding guard_deletion claims
  guard_deletion-Ran core db req now w tenant open_cases migrated e h =
      elim (Bool-cases (is_empty req.slug)) [
        | inl missing ↦ absurd (let h = rw (e, missing) at h in cc)
        | inr given ↦ elim (Option-cases req.target_dept) [
          | inl e' ↦ absurd (let h = rw (e, given, e') at h in cc)
          | inr (target, e') ↦ elim (Option-cases (list_pending s W core db tenant w req.slug)) [
            | inl lost ↦ absurd (let h = rw (e, given, e', lost) at h in cc)
            | inr (rows, listed) ↦
                let h = rw (e, given, e', listed) at h in
                (
                  target,
                  rows,
                  listed,
                  rw (e, given, e', listed)
                      (migrate-Ran core db tenant req.slug now w target rows open_cases migrated h),
                )
          ]
        ]
      ]

  module _ (core : Option (Core W Float)) (db : Database W Float) (req : DeletionRequest) (now : ℕ)
      (w : W) (tenant : Text) (e : req.tenant ≡ some tenant)
      (obs : Located W Float
        (list_pending s W core db tenant)
        (write_migration s W core db tenant)) where
    open obs use {located, list-located, list-complete, write-failed}

    -- Where the reply says safe_to_delete with as many migrated cases as open ones, fewer than the
    -- 500 that are listed at most, the department has no pending case after the call; for a request
    -- with a tenant, where nobody else writes through the service.
    pub guard_deletion_complete :
        (n : ℕ)
        → n < 500
        → claims (guard_deletion s W (some db) core req now w).1 ≡ some (n, n)
        → (id : Text)
        → ¬ (located (guard_deletion s W (some db) core req now w).0 id ≡ some req.slug)
    unfolding migration_move migrate_rows
    guard_deletion_complete n few h id left =
        let (target, rows, listed, ran) = guard_deletion-Ran core db req now w tenant n n e h in
        let (open_rows, counted, after, how) = ran in
        let m = migration_move s W req.slug target now in
        let list = list_pending s W core db tenant in
        let write = write_migration s W core db tenant in
        let is_in : (j : Text) → Memᴰ (str j) rows → located w j ≡ some req.slug =
          λ j at. list-located w req.slug rows j listed at in
        let left = ap (λ w. located w id) (sym after) ∙ left in
        let in_rows : located w id ≡ some req.slug → Memᴰ (str id) rows =
          λ was. list-complete w req.slug rows id listed (omega (arith, open_rows)) was in
        let elsewhere : eq_text target req.slug ≡ false
            → ¬ (located (migrate_rows write m rows (w, 0)).0 id ≡ some target) =
          λ apart there. cc (left, there, apart, eq_text_refl target) in
        elim how [
          | inl empty ↦
              let left = rw empty at left in let at = rw empty at in_rows left in elim at [ ]
          | inr (given, apart) ↦
              elim (migrate_rows_rerouted list write obs m req.slug w rows w 0 is_in
                (λ id. inl refl) id) [
                  | inl stayed ↦ elsewhere apart (
                      migrate_rows-all list write obs m rows w 0 (λ j at. (req.slug, is_in j at))
                        (omega (arith, counted, open_rows)) id (in_rows (sym stayed ∙ left)))
                  | inr (was, moved) ↦ elsewhere apart moved
                ]
        ]

    migrate_rows-lost :
        (m : Move) (rows : List (Cell Float)) (n : ℕ)
        → ((id : Text) → (write_migration s W core db tenant w id m).1 ≡ false)
        → migrate_rows (write_migration s W core db tenant) m rows (w, n) ≡ (w, n)
    unfolding migrate_rows attempt
    migrate_rows-lost m [] n lost = refl
    migrate_rows-lost m (cell ∷ rows) n lost = elim (Bool-cases (is_empty (string_of cell))) [
      | inl none_given ↦ rw none_given (migrate_rows-lost m rows n lost)
      | inr given ↦
          rw
            (
              given,
              lost (string_of cell),
              write-failed w (string_of cell) m (lost (string_of cell)),
            )
            (migrate_rows-lost m rows n lost)
    ]

    -- A request with a tenant, a department and another one as its target is told that the
    -- department is safe to delete although no case has left it, where there are pending cases and
    -- no write goes through.
    pub guard_deletion_lost :
        (target : Text) (rows : List (Cell Float))
        → is_empty req.slug ≡ false
        → req.target_dept ≡ some target
        → is_empty target ≡ false
        → eq_text target req.slug ≡ false
        → list_pending s W core db tenant w req.slug ≡ some rows
        → is_empty rows ≡ false
        → ((id : Text)
            → (write_migration s W core db tenant w id (migration_move s W req.slug target now)).1
              ≡ false)
        → guard_deletion s W (some db) core req now w
          ≡ (w, safe_migrated req.slug (length rows) 0 target)
    unfolding guard_deletion migrate
    guard_deletion_lost target rows given e' to apart listed pending lost =
        rw
          (
            e,
            given,
            e',
            listed,
            pending,
            to,
            apart,
            migrate_rows-lost (migration_move s W req.slug target now) rows 0 lost,
          )
          refl
