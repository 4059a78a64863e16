-- ===== src/Reviews/Recusal.antt =====
-- HandleRejectJuror and HandleGetRecusalLog of internal/compliance/handlers/compliance/escalation.go.
-- The log lines and the fields of a reply that repeat the request are left out.
use aocs_compliance_svc.Common.{List, [], ◌∷◌, Option, none, some, is_empty, if◌then◌else◌}
use aocs_compliance_svc.Text.{Text}
use aocs_compliance_svc.Reviews.Store.{recusal, Database}
pub mod Laws

-- The column recusal_log as it is read: a text, an array, of which an item that is not an object is
-- none, or anything else.
pub data LogCell (E : Type 0) : Type 0 where
  text : Text → LogCell E
  items : List (Option E) → LogCell E
  other : LogCell E

-- JSON: the text of an entry, with the juror, the reason and the time; and what json.Unmarshal puts
-- in a list of objects from a text, whether or not it gives an error.
pub record Json : Type 1 where
  pub Entry : Type 0
  pub marshal : Text → Text → Text → Text
  pub unmarshal : Text → List Entry

-- The column recusal_log of the cases with an id in a tenant.
pub record Logs (W E : Type 0) : Type 0 where
  pub query_log : W → Text → Text → Option (List (LogCell E))

-- A body is none where Bind has answered; the ids are the variables of the route.
pub record RecuseBody : Type 0 where
  pub reason : Text
  pub juror_id : Text

pub record RecuseRequest : Type 0 where
  pub tenant : Option Text
  pub id : Text
  pub case_id : Text
  pub user_id : Text
  pub body : Option RecuseBody

pub data RecuseReply : Type 0 where
  no_database missing_id invalid_body no_tenant update_failed : RecuseReply
  recused : Text → RecuseReply

pub data LogReply (E : Type 0) : Type 0 where
  no_database no_tenant missing_id not_found : LogReply E
  recusals : List E → LogReply E

-- The entries of an array that are objects.
unfoldable pub present : {E : Type 0} → List (Option E) → List E
present [] = []
present (none ∷ xs) = present xs
present (some e ∷ xs) = e ∷ present xs

unfoldable pub recuse_id : RecuseRequest → Text
recuse_id req = if is_empty req.id then req.case_id else req.id

unfoldable pub juror_of : Text → RecuseBody → Text
juror_of user body = if is_empty body.juror_id then user else body.juror_id

module _ (j : Json) where
  open j use {Entry, marshal, unmarshal}

  unfoldable pub entries_of : LogCell Entry → List Entry
  entries_of (text t) = unmarshal t
  entries_of (items xs) = present xs
  entries_of other = []

  -- HandleRejectJuror.
  unfoldable pub reject_juror :
      {W F : Type 0} → Option (Database W F) → RecuseRequest → Text → W → W × RecuseReply
  reject_juror db req now w = elim db [
    | none ↦ (w, no_database)
    | some db ↦ if is_empty (recuse_id req) then (w, missing_id) else (elim req.body [
      | none ↦ (w, invalid_body)
      | some body ↦ elim req.tenant [
        | none ↦ (w, no_tenant)
        | some tenant ↦
            let juror = juror_of req.user_id body in
            let (w', went) =
              db.update_case w (recuse_id req) tenant
                (recusal (marshal juror body.reason now) now) in
            if went then (w', recused juror) else (w', update_failed)
      ]
    ])
  ]

  -- HandleGetRecusalLog.
  unfoldable pub get_recusal_log :
      {W : Type 0} → Option (Logs W Entry) → Option Text → Text → W → LogReply Entry
  get_recusal_log db tenant id w = elim db [
    | none ↦ no_database
    | some db ↦ elim tenant [
      | none ↦ no_tenant
      | some tenant ↦ if is_empty id then missing_id else (elim (db.query_log w id tenant) [
        | none ↦ not_found
        | some rows ↦ elim rows [ [] ↦ not_found | cell ∷ more ↦ recusals (entries_of cell) ]
      ])
    ]
  ]
