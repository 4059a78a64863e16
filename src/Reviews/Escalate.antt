-- ===== src/Reviews/Escalate.antt =====
-- HandleEscalateCase of internal/compliance/handlers/compliance/escalation.go. The log lines and
-- the fields of the reply are left out, and of an error the text that it wraps. The reason is "" where
-- BindOptional reads no body.
use aocs_compliance_svc.Common.{[], ◌∷◌, Option, none, some, is_empty, if◌then◌else◌}
use aocs_compliance_svc.Text.{Text, codes, eq_text}
use aocs_compliance_svc.Text.Maps.{Map, insert}
use aocs_compliance_svc.Cases.Store.{Cell, str}
use aocs_compliance_svc.Departments.Settings.{string_of}
use aocs_compliance_svc.Reviews.Store.{Case, escalation, Ran, Database, escalated}
pub mod Laws

-- The id is the variable `id` of the route, or `case_id` where that is empty.
pub record EscalateRequest : Type 0 where
  pub tenant : Option Text
  pub id : Text
  pub case_id : Text
  pub reason : Text
  pub user_id : Text

pub data EscalateReply : Type 0 where
  no_database missing_id no_tenant not_found already_escalated escalate_failed done : EscalateReply

pub record Escalated (W : Type 0) : Type 0 where
  pub world : W
  pub reply : EscalateReply

unfoldable pub case_id_of : EscalateRequest → Text
case_id_of req = if is_empty req.id then req.case_id else req.id

-- The context as it is copied.
abbrev pub kept_of : {F : Type 0} → Option (Map (Cell F)) → Map (Cell F)
kept_of none = []
kept_of (some m) = m

-- The context of an escalation: what the case has, with the time, the actor and the reason.
unfoldable pub context_of : {F : Type 0} → Option (Map (Cell F)) → Text → Text → Text → Map (Cell F)
context_of found now by reason = insert (codes "escalation_reason") (str reason) (
    insert (codes "escalated_by") (str by)
      (insert (codes "escalated_at") (str now) (kept_of found)))

unfoldable pub reply_of_failure : Text → EscalateReply
reply_of_failure e =
    if eq_text e (codes "not_found")
    then not_found
    else if eq_text e (codes "already_escalated")
    then already_escalated
    else escalate_failed

module _ {W F : Type 0} (db : Database W F) where
  abbrev failed : W → Text → Ran W (Unit {0})
  failed w e = record { world = w; vars = tt; failure = some e }

  module _ (id tenant by reason now : Text) where
    -- The update, of a case that has been locked.
    unfoldable pub escalate_row : Case F → W → Ran W (Unit {0})
    escalate_row row w =
        if eq_text (string_of row.status) escalated
        then failed w (codes "already_escalated")
        else let (w', went) =
            db.update_case w id tenant
              (escalation (context_of row.context_data now by reason) now) in
          if went
          then record { world = w'; vars = tt; failure = none }
          else failed w' (codes "update escalation: ")

    -- The body of the transaction.
    unfoldable pub escalate_body : W → Ran W (Unit {0})
    escalate_body w = elim (db.lock_case w id tenant) [
      | none ↦ failed w (codes "lock escalation row: ")
      | some rows ↦ elim rows [
        | [] ↦ failed w (codes "not_found")
        | row ∷ more ↦ escalate_row row w
      ]
    ]

-- HandleEscalateCase.
unfoldable pub escalate_case :
    {W F : Type 0} → Option (Database W F) → EscalateRequest → Text → W → Escalated W
escalate_case db req now w = elim db [
  | none ↦ record { world = w; reply = no_database }
  | some db ↦
      if is_empty (case_id_of req)
      then record { world = w; reply = missing_id }
      else (elim req.tenant [
        | none ↦ record { world = w; reply = no_tenant }
        | some tenant ↦
            let run =
              db.with_transaction w tt
                (escalate_body db (case_id_of req) tenant req.user_id req.reason now) in
            record {
              world = run.world;
              reply = elim run.failure [ none ↦ done | some e ↦ reply_of_failure e ];
            }
      ])
]
