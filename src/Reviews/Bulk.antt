-- ===== src/Reviews/Bulk.antt =====
-- HandleResolveBulkHITL of internal/compliance/handlers/compliance/hitl_bulk_resolve.go. The log
-- lines, the fields that only repeat others and the id of an event, which is random, are left out.
use aocs_compliance_svc.Common.{
  ℕ, ◌-◌, Bool, ◌||◌, not, List, [], ◌∷◌, ◌++◌, Option, none, some, length, ltb, is_empty, keep,
  if◌then◌else◌,
}
use aocs_compliance_svc.Text.{Text, codes, eq_text}
use aocs_compliance_svc.Reviews.Store.{Change, verdict, VerdictEvent, Database, escalated}
pub mod Laws
pub mod Replies

-- The core service, which writes the same columns.
pub record Core (W F : Type 0) : Type 0 where
  pub patch_case : W → Text → Text → Change F → W × Bool
  pub post_event : W → VerdictEvent → W × Bool

-- bulkHITLResolveRequest; a body is none where Bind has answered. The user is the one of the token.
pub record BulkBody : Type 0 where
  pub decision_ids : List Text
  pub verdict : Text
  pub reason : Text

pub record BulkRequest : Type 0 where
  pub tenant : Option Text
  pub user_id : Text
  pub body : Option BulkBody

pub record BulkResult : Type 0 where
  pub decision_id : Text
  pub ok : Bool

pub record Resolved : Type 0 where
  pub resolved : ℕ
  pub failed : ℕ
  pub total : ℕ
  pub results : List BulkResult

pub data BulkReply : Type 0 where
  no_database no_tenant invalid_body missing_ids too_many bad_verdict : BulkReply
  done : Resolved → BulkReply

unfoldable pub is_verdict : Text → Bool
is_verdict v = eq_text v (codes "APPROVED") || eq_text v (codes "REJECTED") || eq_text v escalated

unfoldable pub reviewer_of : Text → Text
reviewer_of user = if is_empty user then codes "system:bulk-resolve" else user

-- The new value of the event has the reason between quotes, as it is.
unfoldable pub event_of : Text → Text → BulkBody → Text → VerdictEvent
event_of tenant reviewer body id = record {
  tenant_id = tenant;
  event_type = codes "HITL_DECISION_" ++ body.verdict;
  actor_id = reviewer;
  target_id = id;
  action = body.verdict;
  new_value = codes "{\"reason\":\"" ++ body.reason ++ codes "\"}";
}

module _ {W F : Type 0} (write : W → Text → Change F → W × Bool)
    (post : W → VerdictEvent → W × Bool) (c : Change F) (event : Text → VerdictEvent) where
  -- The loop over the ids: an update and, where it goes through, an event whose failure is dropped.
  unfoldable pub resolve_each : List Text → W → W × List BulkResult
  resolve_each [] w = (w, [])
  resolve_each (id ∷ ids) w =
      let (w1, ok) = write w id c in
      let w2 = if ok then (post w1 (event id)).0 else w1 in
      let (w3, results) = resolve_each ids w2 in
      (w3, record { decision_id = id; ok = ok } ∷ results)

unfoldable pub summary_of : List BulkResult → Resolved
summary_of results =
    let succeeded = length (keep (λ r. r.ok) results) in
    record {
      resolved = succeeded;
      failed = length results - succeeded;
      total = length results;
      results = results;
    }

module _ {W F : Type 0} (core : Option (Core W F)) (db : Database W F) (tenant : Text) where
  unfoldable pub write_verdict : W → Text → Change F → W × Bool
  write_verdict w id c = elim core [
    | some core ↦ core.patch_case w tenant id c
    | none ↦ db.update_case w id tenant c
  ]

  unfoldable pub post_verdict : W → VerdictEvent → W × Bool
  post_verdict w e = elim core [ some core ↦ core.post_event w e | none ↦ db.post_verdict w e ]

  -- The body of the request, from its checks on.
  unfoldable pub resolve_body : Text → BulkBody → Text → W → W × BulkReply
  resolve_body user body now w =
      if is_empty body.decision_ids
      then (w, missing_ids)
      else if ltb 50 (length body.decision_ids)
      then (w, too_many)
      else if not (is_verdict body.verdict)
      then (w, bad_verdict)
      else let reviewer = reviewer_of user in
        let (w', results) =
          resolve_each write_verdict post_verdict (verdict body.verdict reviewer body.reason now)
            (event_of tenant reviewer body) body.decision_ids w in
        (w', done (summary_of results))

-- HandleResolveBulkHITL.
unfoldable pub resolve_bulk :
    {W F : Type 0}
    → Option (Database W F)
    → Option (Core W F)
    → BulkRequest
    → Text
    → W
    → W × BulkReply
resolve_bulk db core req now w = elim db [
  | none ↦ (w, no_database)
  | some db ↦ elim req.tenant [
    | none ↦ (w, no_tenant)
    | some tenant ↦ elim req.body [
      | none ↦ (w, invalid_body)
      | some body ↦ resolve_body core db tenant req.user_id body now w
    ]
  ]
]
