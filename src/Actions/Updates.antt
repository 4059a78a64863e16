-- ===== src/Actions/Updates.antt =====
-- The helpers of score.go that change an enforcement action that is there: complianceUpdate,
-- complianceSetStatus, complianceDelete and complianceAddComment.
use aocs_compliance_svc.Common.{
  Bool, true, false, not, ◌&&◌, Option, none, some, is_empty, if◌then◌else◌,
}
use aocs_compliance_svc.Text.{Text, codes}
use aocs_compliance_svc.Actions.{
  Action, ActionUpdate, Database, Services, UpdateBody, Reply, no_database, no_tenant, missing_id,
  failed, invalid_body, bad_status, no_fields, no_comment, done, given, to_upper, guarded,
}

unfoldable pub update_of : {M : Type 0} → Services → UpdateBody M → ActionUpdate M
update_of s body = record {
  status = elim (given body.status) [ none ↦ none | some t ↦ some (to_upper s t) ];
  notes = given body.notes;
  rationale = given body.rationale;
  resolved_by = given body.resolved_by;
  metadata = body.metadata;
  reason = none;
  resolved_at = none;
}

-- len(update) == 0.
unfoldable pub has_no_fields : {M : Type 0} → UpdateBody M → Bool
has_no_fields body =
    is_empty body.status
    && (is_empty body.notes
        && (is_empty body.rationale
            && (is_empty body.resolved_by
                && (elim body.metadata [ none ↦ true | some m ↦ false ]))))

-- complianceUpdate, which reads the tenant after the body.
unfoldable pub compliance_update :
    {W F M : Type 0}
    → Services
    → Option (Database W F M)
    → Text
    → Option (UpdateBody M)
    → Option Text
    → W
    → W × Reply (Action F M)
compliance_update s db id body tenant w = elim db [
  | none ↦ (w, no_database)
  | some db ↦ if is_empty id then (w, missing_id) else (elim body [
    | none ↦ (w, invalid_body)
    | some body ↦ elim tenant [
      | none ↦ (w, no_tenant)
      | some tenant ↦
          if not (is_empty body.status) && not (s.is_valid_status (to_upper s body.status))
          then (w, bad_status)
          else if has_no_fields body
          then (w, no_fields)
          else let (w', went) = db.update_action w id tenant (update_of s body) in
            (w', if went then done (codes "updated") else failed)
    ]
  ])
]

-- What complianceSetStatus writes: the reason, or else the notes, is the reason, and the notes are
-- the notes where there is a reason as well.
unfoldable pub status_update : {M : Type 0} → Text → Text → Text → Text → ActionUpdate M
status_update status notes reason now = record {
  status = some status;
  notes = if is_empty reason then none else given notes;
  rationale = none;
  resolved_by = none;
  metadata = none;
  reason = if is_empty reason then given notes else some reason;
  resolved_at = some now;
}

module _ {W F M : Type 0} where
  -- complianceSetStatus; notes and reason are "" where BindOptional reads no body.
  unfoldable pub compliance_set_status :
      Option (Database W F M)
      → Text
      → Text
      → Text
      → Text
      → Option Text
      → Text
      → W
      → W × Reply (Action F M)
  compliance_set_status db status id notes reason tenant now w =
      guarded db tenant id w (λ db tenant.
        let (w', went) = db.update_action w id tenant (status_update status notes reason now) in
        (w', if went then done status else failed))

  -- complianceDelete.
  unfoldable pub compliance_delete :
      Option (Database W F M) → Text → Option Text → W → W × Reply (Action F M)
  compliance_delete db id tenant w = guarded db tenant id w (λ db tenant.
      let (w', went) = db.delete_action w id tenant in
      (w', if went then done (codes "deleted") else failed))

  -- complianceAddComment, by the comment and the body of the request, of which the author is not
  -- used; a request is none where Bind has answered.
  unfoldable pub compliance_add_comment :
      Option (Database W F M)
      → Option Text
      → Text
      → Option (Text × Text)
      → W
      → W × Reply (Action F M)
  compliance_add_comment db tenant id req w = elim db [
    | none ↦ (w, no_database)
    | some db ↦ elim tenant [
      | none ↦ (w, no_tenant)
      | some tenant ↦ if is_empty id then (w, missing_id) else (elim req [
        | none ↦ (w, invalid_body)
        | some texts ↦
            let comment : Text = if is_empty texts.0 then texts.1 else texts.0 in
            if is_empty comment
            then (w, no_comment)
            else let (w', went) = db.insert_comment w id tenant comment in
              (w', if went then done (codes "comment added") else failed)
      ])
    ]
  ]
