-- ===== src/Reviews/Tests.antt =====
-- The theorems on the review of cases at a database that keeps one case.
use mathlib.Core.List.{Memᴰ}
use aocs_compliance_svc.Common.{
  ℕ, ◌≡◌, ◌≢◌, ◌⊎◌, refl, true, false, List, [], ◌∷◌, Option, none, some, pos, keep, ◌+◌, ◌≤◌, ◌<◌,
  map,
}
use aocs_compliance_svc.Text.{Text, codes, eq_text, has_prefix}
use aocs_compliance_svc.Text.Maps.{insert}
use aocs_compliance_svc.Cases.Store.{str}
use aocs_compliance_svc.Departments.Settings.{string_of, int_setting, hours_duration}
use aocs_compliance_svc.Departments.Toy.{case_1, fraud, compliance, acme, toy}
use aocs_compliance_svc.Reviews.Store.{Case, apply_change}
use aocs_compliance_svc.Reviews.Reassign.{
  ReassignBody, ReassignRequest, Handover, reassigned, terminal, Reassigned, answer, lock_body,
  is_terminal, reply_of_failure, is_disabled, level_of, threshold_of, policy_conflict_of,
  handover_of, hand_over, to_department, reassign_locked, reassign_case, Feature,
}
use aocs_compliance_svc.Reviews.Reassign.Race.{reassign_case-idle, reassign_case-lands}
use aocs_compliance_svc.Reviews.Escalate.{
  EscalateRequest, done, case_id_of, context_of, escalate_row, escalate_body, escalate_case,
}
use aocs_compliance_svc.Reviews.Escalate.Laws.{Raised, escalate_case-Raised, escalate_case_twice}
use aocs_compliance_svc.Reviews.Bulk
use aocs_compliance_svc.Reviews.Bulk.{
  BulkBody, BulkRequest, Resolved, is_verdict, event_of, reviewer_of, resolve_each, summary_of,
  write_verdict, post_verdict, resolve_body, resolve_bulk,
}
use aocs_compliance_svc.Reviews.Bulk.Replies.{resolve_bulk-bounds, resolve_bulk-Decided}
use aocs_compliance_svc.Reviews.Recusal.{
  RecuseRequest, recused, recusals, recuse_id, juror_of, entries_of, reject_juror, get_recusal_log,
}
use aocs_compliance_svc.Reviews.Recusal.Laws.{reject_juror-get_recusal_log}
use aocs_compliance_svc.Reviews.Steps.{Step, Reach, Follows, Reach-Follows}
use aocs_compliance_svc.Reviews.Toy.{
  one_core, one_core-Serves, one_db-Kept, log_db, toy_json, text_log, log_db-ReadBack, a_case,
  find_case, one_db, update_one, one_db-Observed, open_departments, same_policies,
}

abbrev handover_request : ReassignRequest
handover_request = record {
  tenant = some acme;
  id = case_1;
  body = some (record {
    from_dept_id = [];
    to_dept_id = compliance;
    reason = codes "load";
    escalation_level = pos 0;
  });
}

-- While the handler waits, another request approves the case.
abbrev approve : Case ℕ → Case ℕ
approve w = record {
  status = str (codes "APPROVED");
  department_id = w.department_id;
  context_data = w.context_data;
}

abbrev reassign_at : (Case ℕ → Case ℕ) → Case ℕ → Reassigned (Case ℕ)
reassign_at others w =
    reassign_case toy (Case ℕ) same_policies (some one_db) open_departments handover_request 0 0
      others w

abbrev the_handover : Handover
the_handover = record {
  case_id = case_1;
  from_dept = fraud;
  to_dept = compliance;
  new_sla_deadline = 0 ∷ [];
  sla_hours = pos 48;
  policy_conflict = [];
}

reassign-raced : (reassign_at approve (a_case (codes "PENDING"))).reply ≡ reassigned the_handover
unfolding reassign_case reassign_locked lock_body to_department hand_over handover_of is_disabled
    level_of policy_conflict_of threshold_of is_terminal eq_text string_of int_setting
    hours_duration update_one answer
reassign-raced = refl

reassign-terminal :
    (reassign_at (λ w. w) (a_case (codes "APPROVED"))).reply ≡ terminal (codes "APPROVED")
unfolding reassign_case reassign_locked lock_body is_terminal eq_text string_of reply_of_failure
    answer has_prefix
reassign-terminal = refl

abbrev open_case : Case ℕ
open_case = a_case (codes "PENDING")

abbrev closed_case : Case ℕ
closed_case = a_case (codes "APPROVED")

reassign_case-idle_example :
    let res = reassign_at (λ w. w) closed_case in
    (res.tasks ≡ []) × ((res.world ≡ closed_case) ⊎ (res.world ≡ closed_case))
reassign_case-idle_example =
    reassign_case-idle toy (Case ℕ) same_policies one_db open_departments handover_request 0 0
      (λ w. w) closed_case one_db-Observed acme refl (λ h e. absurd (cc (e, reassign-terminal)))

-- The case is approved once its status has been checked, and is handed over all the same.
reassign_case-lands_example :
    ((seen : Case ℕ) × (find_case open_case case_1 acme ≡ some seen)
      × (is_terminal (string_of seen.status) ≡ false)
      × (string_of seen.department_id ≡ fraud))
    × ((hitl : Option Feature) × (more : List (Option Feature)) × (some (none ∷ [])
          ≡ some (hitl ∷ more))
        × (is_disabled hitl ≡ false))
    × ((body : ReassignBody) × (handover_request.body ≡ some body)
        × (compliance ≡ body.to_dept_id)
        × (eq_text body.from_dept_id compliance ≡ false))
    × (find_case (reassign_at approve open_case).world case_1 acme
        ≡ some (record {
          status = str (codes "APPROVED");
          department_id = str compliance;
          context_data = none;
        }))
unfolding one_db-Observed eq_text
reassign_case-lands_example =
    reassign_case-lands toy (Case ℕ) same_policies one_db open_departments handover_request 0 0
      approve open_case one_db-Observed acme refl the_handover (approve open_case) reassign-raced
      refl

abbrev escalate_request : EscalateRequest
escalate_request = record {
  tenant = some acme;
  id = [];
  case_id = case_1;
  reason = codes "late";
  user_id = codes "u";
}

-- A case that is approved is escalated all the same.
escalate-approved :
    (escalate_case (some one_db) escalate_request (codes "t") closed_case).reply ≡ done
unfolding escalate_case case_id_of escalate_body escalate_row string_of eq_text context_of insert
    update_one
escalate-approved = refl

escalate_case-Raised_example :
    let res = escalate_case (some one_db) escalate_request (codes "t") closed_case in
    ((res.reply ≢ done) × (res.world ≡ closed_case))
    ⊎ ((res.reply ≡ done)
        × ((tenant : Text) × (some acme ≡ some tenant)
            × Raised one_db one_db-Observed
                (case_id_of escalate_request)
                tenant
                (codes "u")
                (codes "late")
                (codes "t")
                closed_case
                res.world))
escalate_case-Raised_example =
    escalate_case-Raised one_db one_db-Observed escalate_request (codes "t") closed_case

escalate_case_twice_example :
    let first = escalate_case (some one_db) escalate_request (codes "t") closed_case in
    let second = escalate_case (some one_db) escalate_request (codes "t2") first.world in
    (second.reply ≢ done) × (second.world ≡ first.world)
escalate_case_twice_example =
    escalate_case_twice one_db one_db-Observed escalate_request escalate_request (codes "t")
      (codes "t2") closed_case escalate-approved refl refl

abbrev bulk_body : BulkBody
bulk_body = record {
  decision_ids = case_1 ∷ codes "c2" ∷ [];
  verdict = codes "REJECTED";
  reason = codes "policy";
}

abbrev bulk_request : BulkRequest
bulk_request = record { tenant = some []; user_id = []; body = some bulk_body }

abbrev acme_request : BulkRequest
acme_request = record { tenant = some acme; user_id = []; body = some bulk_body }

abbrev bulk_result : Resolved
bulk_result = record {
  resolved = 1;
  failed = 1;
  total = 2;
  results =
      record { decision_id = case_1; ok = true }
      ∷ record { decision_id = codes "c2"; ok = false }
      ∷ [];
}

-- A case that is approved is rejected.
resolve-approved :
    (resolve_bulk (some one_db) none bulk_request (codes "t") closed_case).1 ≡ Bulk.done bulk_result
unfolding resolve_bulk resolve_body is_verdict eq_text event_of reviewer_of resolve_each summary_of
    write_verdict post_verdict update_one apply_change keep
resolve-approved = refl

resolve_bulk-bounds_example :
    let res = resolve_bulk (some one_db) none bulk_request (codes "t") closed_case in
    ((res.0 ≡ closed_case) × ((r : Resolved) → res.1 ≢ Bulk.done r))
    ⊎ ((r : Resolved) × (res.1 ≡ Bulk.done r)
        × (map (λ x. x.decision_id) r.results ≡ case_1 ∷ codes "c2" ∷ [])
        × (0 < r.total)
        × (r.total ≤ 50)
        × (r.total ≡ 2)
        × (r.resolved + r.failed ≡ r.total)
        × (is_verdict (codes "REJECTED") ≡ true))
resolve_bulk-bounds_example =
    resolve_bulk-bounds none one_db bulk_request (codes "t") closed_case [] bulk_body refl refl

resolve_bulk-Decided_example :
    let res = resolve_bulk (some one_db) none bulk_request (codes "t") closed_case in
    (Memᴰ (record { decision_id = case_1; ok = true }) bulk_result.results
      × ((row : Case ℕ)
          → one_db-Kept.find closed_case case_1 ≡ some row
          → one_db-Kept.find res.0 case_1
            ≡ some (record {
              status = str (codes "REJECTED");
              department_id = row.department_id;
              context_data = row.context_data;
            })))
    ⊎ (¬ Memᴰ (record { decision_id = case_1; ok = true }) bulk_result.results
        × (one_db-Kept.find res.0 case_1 ≡ one_db-Kept.find closed_case case_1))
resolve_bulk-Decided_example =
    resolve_bulk-Decided none one_db bulk_request (codes "t") closed_case [] bulk_body refl refl
      one_db-Kept bulk_result case_1 resolve-approved

abbrev recuse_request : RecuseRequest
recuse_request = record {
  tenant = some acme;
  id = case_1;
  case_id = [];
  user_id = codes "u";
  body = some (record { reason = codes "conflict"; juror_id = [] });
}

recuse-recused :
    (reject_juror toy_json (some log_db) recuse_request (codes "t") (codes "[]")).1
    ≡ recused (codes "u")
unfolding reject_juror recuse_id juror_of
recuse-recused = refl

log-empty :
    get_recusal_log toy_json
      (some text_log)
      (some acme)
      (recuse_id recuse_request)
      (reject_juror toy_json (some log_db) recuse_request (codes "t") (codes "[]")).0
    ≡ recusals []
unfolding get_recusal_log reject_juror recuse_id juror_of entries_of has_prefix
log-empty = refl

reject_juror-get_recusal_log_example : ◌≡◌ {A = List ℕ} [] []
reject_juror-get_recusal_log_example =
    reject_juror-get_recusal_log toy_json log_db text_log log_db-ReadBack recuse_request (codes "t")
      (codes "[]") (codes "u") [] recuse-recused log-empty

-- The case is escalated on the database and then rejected through the core service.
Reach-Follows_example :
    let escalated = (escalate_case (some one_db) escalate_request (codes "t") closed_case).world in
    Follows toy
      (Case ℕ)
      one_db
      (some one_core)
      acme
      one_db-Observed
      one_core-Serves
      closed_case
      (resolve_bulk (some one_db) (some one_core) acme_request (codes "t") escalated).0
      case_1
unfolding one_db-Observed eq_text
Reach-Follows_example =
    Reach-Follows toy (Case ℕ) one_db (some one_core) acme one_db-Observed one_core-Serves
      closed_case _ case_1 closed_case refl
      (Reach.next (Reach.next Reach.here (Step.escalate escalate_request (codes "t") refl refl))
        (Step.resolve acme_request bulk_body (codes "t") refl refl refl))
