-- ===== src/Disputes.antt =====
-- The handlers of internal/compliance/handlers/compliance/disputes.go. The log lines are left out;
-- the database (database.DB) and the random id are parameters. A read is none where it fails.
use aocs_compliance_svc.Common.{
  Bool, not, ◌||◌, List, [], ◌∷◌, ℕ, length, Option, none, some, is_empty, if◌then◌else◌,
}
use aocs_compliance_svc.Text.{Text, codes, eq_text}
use aocs_compliance_svc.Cases.Store.{Cell}
use aocs_compliance_svc.Departments.Settings.{string_of}
pub mod Laws
pub mod Steps
mod Tests

pub record DisputeRow : Type 0 where
  pub dispute_id : Text
  pub tenant_id : Text
  pub case_id : Text
  pub agent_id : Text
  pub reason : Text
  pub evidence_url : Text
  pub status : Text
  pub created_at : Text

-- A resolution is written along with a verdict alone.
pub record DisputeUpdate : Type 0 where
  pub status : Text
  pub resolution : Option Text
  pub resolved_at : Text

-- The status of the disputes with an id in a tenant, and the writes; the rows that are listed are of
-- a type R.
pub record Database (W F R : Type 0) : Type 0 where
  pub query_all : W → Text → Option (List R)
  pub query_one : W → Text → Text → Option (List R)
  pub query_status : W → Text → Text → Option (List (Cell F))
  pub insert_dispute : W → DisputeRow → W × Bool
  pub update_dispute : W → Text → Text → DisputeUpdate → W × Bool

-- CreateDisputeRequest; a body is none where Bind has answered.
pub record CreateBody : Type 0 where
  pub case_id : Text
  pub agent_id : Text
  pub reason : Text
  pub evidence_url : Text

pub record ResolveBody : Type 0 where
  pub verdict : Text
  pub resolution : Text

pub data CreateReply : Type 0 where
  no_database no_tenant invalid_body missing_fields create_failed : CreateReply
  created : Text → Text → CreateReply

pub data ResolveReply : Type 0 where
  no_database no_tenant missing_id invalid_body bad_verdict not_found resolve_failed : ResolveReply
  conflict : Text → ResolveReply
  resolved : Text → Text → ResolveReply

pub data DeleteReply : Type 0 where
  no_database no_tenant missing_id not_found delete_failed withdrawn : DeleteReply

pub data ListReply (R : Type 0) : Type 0 where
  no_database no_tenant missing_id not_found : ListReply R
  disputes : List R → ℕ → ListReply R
  dispute : R → ListReply R

abbrev pub status_open : Text
status_open = codes "OPEN"

abbrev pub status_withdrawn : Text
status_withdrawn = codes "WITHDRAWN"

unfoldable pub is_resolution : Text → Bool
is_resolution v = eq_text v (codes "UPHELD") || eq_text v (codes "OVERTURNED")

module _ {W F R : Type 0} where
  -- HandleListDisputes: a query that fails reads as no row.
  unfoldable pub list_disputes : Option (Database W F R) → Option Text → W → ListReply R
  list_disputes db tenant w = elim db [
    | none ↦ no_database
    | some db ↦ elim tenant [
      | none ↦ no_tenant
      | some tenant ↦ elim (db.query_all w tenant) [
        | none ↦ disputes [] 0
        | some rows ↦ disputes rows (length rows)
      ]
    ]
  ]

  -- HandleGetDispute.
  unfoldable pub get_dispute : Option (Database W F R) → Option Text → Text → W → ListReply R
  get_dispute db tenant id w = elim db [
    | none ↦ no_database
    | some db ↦ elim tenant [
      | none ↦ no_tenant
      | some tenant ↦ if is_empty id then missing_id else (elim (db.query_one w id tenant) [
        | none ↦ not_found
        | some rows ↦ elim rows [ [] ↦ not_found | row ∷ more ↦ dispute row ]
      ])
    ]
  ]

  -- HandleCreateDispute, with the id that generatePlatformID gives.
  unfoldable pub create_dispute :
      Option (Database W F R) → Option Text → Option CreateBody → Text → Text → W → W × CreateReply
  create_dispute db tenant body id now w = elim db [
    | none ↦ (w, no_database)
    | some db ↦ elim tenant [
      | none ↦ (w, no_tenant)
      | some tenant ↦ elim body [
        | none ↦ (w, invalid_body)
        | some body ↦
            if is_empty body.case_id || is_empty body.reason
            then (w, missing_fields)
            else let (w', went) = db.insert_dispute w (record {
              dispute_id = id;
              tenant_id = tenant;
              case_id = body.case_id;
              agent_id = body.agent_id;
              reason = body.reason;
              evidence_url = body.evidence_url;
              status = status_open;
              created_at = now;
            }) in
              if went then (w', created id body.case_id) else (w', create_failed)
      ]
    ]
  ]

  -- The update of a dispute whose status has been read.
  unfoldable pub resolve_open :
      Database W F R → Text → Text → ResolveBody → Text → Text → W → W × ResolveReply
  resolve_open db tenant id body now status w =
      if not (eq_text status status_open)
      then (w, conflict status)
      else let (w', went) = db.update_dispute w id tenant (record {
        status = body.verdict;
        resolution = some body.resolution;
        resolved_at = now;
      }) in
        if went then (w', resolved body.verdict now) else (w', resolve_failed)

  -- HandleResolveDispute.
  unfoldable pub resolve_dispute :
      Option (Database W F R)
      → Option Text
      → Text
      → Option ResolveBody
      → Text
      → W
      → W × ResolveReply
  resolve_dispute db tenant id body now w = elim db [
    | none ↦ (w, no_database)
    | some db ↦ elim tenant [
      | none ↦ (w, no_tenant)
      | some tenant ↦ if is_empty id then (w, missing_id) else (elim body [
        | none ↦ (w, invalid_body)
        | some body ↦
            if not (is_resolution body.verdict)
            then (w, bad_verdict)
            else (elim (db.query_status w id tenant) [
              | none ↦ (w, not_found)
              | some rows ↦ elim rows [
                | [] ↦ (w, not_found)
                | cell ∷ more ↦ resolve_open db tenant id body now (string_of cell) w
              ]
            ])
      ])
    ]
  ]

  -- HandleDeleteDispute.
  unfoldable pub delete_dispute :
      Option (Database W F R) → Option Text → Text → Text → W → W × DeleteReply
  delete_dispute db tenant id now w = elim db [
    | none ↦ (w, no_database)
    | some db ↦ elim tenant [
      | none ↦ (w, no_tenant)
      | some tenant ↦ if is_empty id then (w, missing_id) else (elim (db.query_status w id tenant) [
        | none ↦ (w, not_found)
        | some rows ↦ elim rows [
          | [] ↦ (w, not_found)
          | cell ∷ more ↦
              let (w', went) =
                db.update_dispute w id tenant
                  (record { status = status_withdrawn; resolution = none; resolved_at = now }) in
              if went then (w', withdrawn) else (w', delete_failed)
        ]
      ])
    ]
  ]
