-- ===== src/Actions.antt =====
-- The helpers of internal/compliance/handlers/compliance/score.go that list, read, create, update and
-- delete the enforcement actions of a tenant, each for a type of action. The log lines are left out;
-- the database (database.DB), JSON and the package validate are parameters. A read is none where it
-- fails.
use aocs_compliance_svc.Common.{
  ℕ, ◌-◌, Bool, not, ◌&&◌, ◌||◌, List, [], ◌∷◌, map, Option, none, some, is_empty, keep, ltb,
  within, if◌then◌else◌,
}
use aocs_compliance_svc.Text.{Text, codes, eq_text}
use aocs_compliance_svc.Cases.Store.{Cell, str}
pub mod Updates
pub mod Laws
mod Tests

-- A row of core_enforcement_actions, with metadata of a type M. The three columns that only a
-- creation writes, the rationale and the times are texts.
pub record Action (F M : Type 0) : Type 0 where
  pub action_type : Cell F
  pub agent_id : Text
  pub subject_id : Text
  pub status : Text
  pub severity : Text
  pub reason : Text
  pub metadata : Option M
  pub expires_at : Option Text
  pub notes : Option Text
  pub rationale : Option Text
  pub resolved_by : Option Text
  pub resolved_at : Option Text

-- The columns of an update, none where it leaves one out.
pub record ActionUpdate (M : Type 0) : Type 0 where
  pub status : Option Text
  pub notes : Option Text
  pub rationale : Option Text
  pub resolved_by : Option Text
  pub metadata : Option M
  pub reason : Option Text
  pub resolved_at : Option Text

-- The rows of a tenant between two times, or of a type within 90 days; the rows with an id; and the
-- writes, where a row is inserted for a tenant, and updated and deleted by its id and the tenant.
pub record Database (W F M : Type 0) : Type 0 where
  pub query_window : W → Text → Text → Text → Option (List (Action F M))
  pub query_type : W → Text → Text → Option (List (Action F M))
  pub query_action : W → Text → Text → Option (List (Action F M))
  pub insert_action : W → Text → Action F M → W × Bool
  pub update_action : W → Text → Text → ActionUpdate M → W × Bool
  pub delete_action : W → Text → Text → W × Bool
  pub insert_comment : W → Text → Text → Text → W × Bool

-- The status texts that validate accepts, the upper case of a rune beyond ASCII, and whether a text
-- is an RFC 3339 time that is not past.
pub record Services : Type 0 where
  pub is_valid_status : Text → Bool
  pub upper_beyond_ascii : ℕ → ℕ
  pub is_future : Text → Bool

-- The bodies of the requests; a body is none where Bind has answered.
pub record CreateBody (M : Type 0) : Type 0 where
  pub agent_id : Text
  pub reason : Text
  pub status : Text
  pub severity : Text
  pub expires_at : Text
  pub metadata : Option M

pub record UpdateBody (M : Type 0) : Type 0 where
  pub status : Text
  pub notes : Text
  pub rationale : Text
  pub resolved_by : Text
  pub metadata : Option M

pub data Reply (R : Type 0) : Type 0 where
  no_database no_tenant missing_id invalid_body not_found failed : Reply R
  bad_expiry bad_status no_fields no_comment : Reply R
  listed : List R → Reply R
  answered : R → Reply R
  done : Text → Reply R

unfoldable pub is_of_type : {F M : Type 0} → Text → Action F M → Bool
is_of_type type row = elim row.action_type [ str t ↦ eq_text t type | _ ↦ Bool.false ]

-- The text of a field, none where it is empty.
unfoldable pub given : Text → Option Text
given t = if is_empty t then none else some t

-- strings.ToUpper.
unfoldable pub to_upper : Services → Text → Text
to_upper s t =
    map
      (λ c. if within b'a' b'z' c then c - 32 else if ltb c 128 then c else s.upper_beyond_ascii c)
      t

-- The guards of the handlers of one action.
unfoldable pub guarded :
    {W F M R : Type 0}
    → Option (Database W F M)
    → Option Text
    → Text
    → W
    → (Database W F M → Text → W × Reply R)
    → W × Reply R
guarded db tenant id w go = elim db [
  | none ↦ (w, no_database)
  | some db ↦
      if is_empty id
      then (w, missing_id)
      else (elim tenant [ none ↦ (w, no_tenant) | some tenant ↦ go db tenant ])
]

unfoldable pub created_row : {F M : Type 0} → Text → CreateBody M → Action F M
created_row type body = record {
  action_type = str type;
  agent_id = body.agent_id;
  subject_id = body.agent_id;
  status = if is_empty body.status then codes "OPEN" else body.status;
  severity = body.severity;
  reason = body.reason;
  metadata = body.metadata;
  expires_at = given body.expires_at;
  notes = none;
  rationale = none;
  resolved_by = none;
  resolved_at = none;
}

module _ {W F M : Type 0} where
  -- complianceList.
  unfoldable pub compliance_list :
      Option (Database W F M) → Text → Option Text → Text → Text → W → Reply (Action F M)
  compliance_list db type tenant from to w = elim db [
    | none ↦ no_database
    | some db ↦ elim tenant [
      | none ↦ no_tenant
      | some tenant ↦
          if not (is_empty from) || not (is_empty to)
          then (elim (db.query_window w tenant from to) [
            | none ↦ failed
            | some rows ↦ listed (keep (is_of_type type) rows)
          ])
          else (elim (db.query_type w tenant type) [ none ↦ failed | some rows ↦ listed rows ])
    ]
  ]

  -- complianceGet.
  unfoldable pub compliance_get :
      Option (Database W F M) → Text → Option Text → Text → W → Reply (Action F M)
  compliance_get db type tenant id w = elim db [
    | none ↦ no_database
    | some db ↦ elim tenant [
      | none ↦ no_tenant
      | some tenant ↦ if is_empty id then missing_id else (elim (db.query_action w id tenant) [
        | none ↦ not_found
        | some rows ↦ elim rows [
          | [] ↦ not_found
          | row ∷ more ↦ if is_of_type type row then answered row else not_found
        ]
      ])
    ]
  ]

  -- complianceCreate.
  unfoldable pub compliance_create :
      Services
      → Option (Database W F M)
      → Text
      → Option Text
      → Option (CreateBody M)
      → W
      → W × Reply (Action F M)
  compliance_create s db type tenant body w = elim db [
    | none ↦ (w, no_database)
    | some db ↦ elim tenant [
      | none ↦ (w, no_tenant)
      | some tenant ↦ elim body [
        | none ↦ (w, invalid_body)
        | some body ↦
            if not (is_empty body.expires_at) && not (s.is_future body.expires_at)
            then (w, bad_expiry)
            else let row = created_row type body in
              let (w', went) = db.insert_action w tenant row in
              (w', if went then answered row else failed)
      ]
    ]
  ]
