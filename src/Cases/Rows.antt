-- ===== src/Cases/Rows.antt =====
-- The rows and the decisions of internal/compliance/handlers/compliance/case_lifecycle.go, apart from
-- the calls that write them.
use aocs_compliance_svc.Common.{
  ℕ, zero, suc, ◌+◌, ◌*◌, Bool, false, List, [], ◌∷◌, ◌++◌, Option, none, some, ℤ, pos, negsuc, ltb,
  is_empty, if◌then◌else◌, take,
}
use aocs_compliance_svc.Text.{Text, codes, eq_text}
use aocs_compliance_svc.Text.Hex.{hex_encode}
use aocs_compliance_svc.Text.Utf8.{bytes_of_text}
use aocs_compliance_svc.Text.Maps.{Map, insert}
use aocs_compliance_svc.Cases.Ids.{generate_platform_id}
use aocs_compliance_svc.Cases.Store.{
  Cell, null, other, str, time, float, Cells, Row, Update, EventKind, Event,
}

abbrev pub pending : Text
pending = codes "PENDING"

abbrev pub escalated : Text
escalated = codes "ESCALATED"

abbrev pub timeout : Text
timeout = codes "TIMEOUT"

-- What the operations take from elsewhere: the time formats, with `2006` and `01` for the id, the
-- hours of contracts.DefaultSLAByPriority and DefaultSLAHours, JSON, SHA-256 and float64.
pub record Services : Type 1 where
  pub Float : Type 0
  pub to_int : Float → ℤ
  pub of_int : ℤ → Float
  pub format_time : ℕ → Text
  pub parse_time : Text → Option ℕ
  pub year_month : ℕ → Text
  pub sla_by_priority : Text → Option ℕ
  pub default_sla_hours : ℕ
  pub marshal_context : Map (Cell Float) → Text
  pub sha256 : List ℕ → List ℕ

-- CreateCaseInput; context_data is none where it is nil.
pub record CreateCaseInput (F : Type 0) : Type 0 where
  pub case_type : Text
  pub agent_id : Text
  pub tenant_id : Text
  pub reason : Text
  pub priority : Text
  pub department_id : Text
  pub case_source : Text
  pub context_data : Option (Map (Cell F))
  pub alert_id : Text
  pub escalated_from_alert : Bool
  pub evidence_chain_id : Text

-- CaseCreated; its status is always PENDING in the source too.
pub record CaseCreated : Type 0 where
  pub case_id : Text
  pub tenant_id : Text
  pub status : Text
  pub priority : Text
  pub sla_deadline : ℕ
  pub created_at : ℕ

pub data CaseError : Type 0 where
  db_is_nil core_insert_failed insert_failed core_read_failed read_failed : CaseError
  case_not_found core_update_failed update_failed : CaseError

pub data Outcome (A : Type 0) : Type 0 where
  done : A → Outcome A
  failed : CaseError → Outcome A

-- The goroutines: a push to the operators' context, and the publication of a new case.
pub data Task : Type 0 where
  push_created publish_created : CaseCreated → Task
  push_status : Text → Text → Bool → Task

-- The clock and the random number of one generatePlatformID, and a time to put beside it.
pub record Draw : Type 0 where
  pub random : Option ℕ
  pub id_at : ℕ
  pub at : ℕ

-- 3600 seconds of 10^9 nanoseconds.
abbrev pub hour : ℕ
hour = 3600000000000

unfoldable pub suc_int : ℤ → ℤ
suc_int (pos n) = pos (suc n)
suc_int (negsuc zero) = pos 0
suc_int (negsuc (suc n)) = negsuc n

module _ (s : Services) where
  open s use {Float, to_int, format_time, parse_time, year_month}
  open s use {sla_by_priority, default_sla_hours, marshal_context, sha256}

  unfoldable pub draw_id : Draw → Text
  draw_id d = generate_platform_id (year_month d.id_at) d.id_at d.random

  -- slaHoursForPriority.
  unfoldable pub sla_hours_for_priority : Text → ℕ
  sla_hours_for_priority p = elim (sla_by_priority p) [ some h ↦ h | none ↦ default_sla_hours ]

  abbrev or_default : Text → Text → Text
  or_default t default = if is_empty t then default else t

  unfoldable pub add_nonempty : Text → Text → Map (Cell Float) → Map (Cell Float)
  add_nonempty key t m = if is_empty t then m else insert key (str t) m

  -- The context that is stored.
  unfoldable pub context_of : CreateCaseInput Float → Map (Cell Float)
  context_of input = add_nonempty (codes "evidence_chain_id") input.evidence_chain_id (
      add_nonempty (codes "source_alert_id") input.alert_id
        (elim input.context_data [ none ↦ [] | some m ↦ m ]))

  unfoldable pub dedup_key_of : CreateCaseInput Float → Text
  dedup_key_of input = hex_encode (
      take 8 (
        sha256 (
          bytes_of_text (
            input.tenant_id
            ++ (b':' ∷ (input.agent_id ++ (b':' ∷ (input.case_type ++ (b':' ∷ input.reason)))))))))

  -- The row that CreateCase inserts, under an id, at a time.
  unfoldable pub new_row : CreateCaseInput Float → Text → ℕ → Row
  new_row input case_id now =
      let priority = or_default input.priority (codes "NORMAL") in
      let deadline = now + sla_hours_for_priority priority * hour in
      record {
        decision_id = case_id;
        decision_type = input.case_type;
        tenant_id = input.tenant_id;
        agent_id = input.agent_id;
        status = pending;
        priority = priority;
        reason = input.reason;
        case_source = or_default input.case_source (codes "manual");
        sla_breach_at = format_time deadline;
        sla_deadline_at = format_time deadline;
        sla_breached = false;
        sla_breached_at = none;
        escalation_count = pos 0;
        context_data = marshal_context (context_of input);
        dedup_key = dedup_key_of input;
        department_id = if is_empty input.department_id then none else some input.department_id;
      }

  -- The column as the text of a time, "" where there is none.
  unfoldable pub extract_time_str : Cell Float → Text
  extract_time_str (str t) = t
  extract_time_str (time n) = format_time n
  extract_time_str (float x) = []
  extract_time_str null = []
  extract_time_str other = []

  -- Whether the deadline of the row has passed.
  unfoldable pub sla_breach : Cells Float → ℕ → Bool
  sla_breach row now =
      let first = extract_time_str row.sla_breach_at in
      let sla_str = if is_empty first then extract_time_str row.sla_deadline_at else first in
      if is_empty sla_str
      then false
      else elim (parse_time sla_str) [ none ↦ false | some t ↦ ltb t now ]

  -- `.(float64)`, 0 where it is none.
  unfoldable pub current_count : Cell Float → ℤ
  current_count (float x) = to_int x
  current_count (str t) = pos 0
  current_count (time n) = pos 0
  current_count null = pos 0
  current_count other = pos 0

  -- `.(string)`, "" where it is none.
  unfoldable pub status_of : Cell Float → Text
  status_of (str t) = t
  status_of (time n) = []
  status_of (float x) = []
  status_of null = []
  status_of other = []

  unfoldable pub update_for : Cells Float → Text → Text → ℕ → Update
  update_for row actor_id new_status now = record {
    status = new_status;
    updated_by = actor_id;
    sla_breached_at = if sla_breach row now then some (format_time now) else none;
    escalation_count =
        if eq_text new_status escalated
        then some (suc_int (current_count row.escalation_count))
        else none;
  }

  -- What CreateCase returns.
  unfoldable pub created_for : CreateCaseInput Float → Draw → CaseCreated
  created_for input id =
      let row = new_row input (draw_id id) id.at in
      record {
        case_id = row.decision_id;
        tenant_id = input.tenant_id;
        status = pending;
        priority = row.priority;
        sla_deadline = id.at + sla_hours_for_priority row.priority * hour;
        created_at = id.at;
      }

  -- The two rows of writeLifecycleEvent.
  unfoldable pub case_event : Text → Text → Text → Text → Text → Text → EventKind → Draw → Event
  case_event case_id tenant_id from to reason actor_id kind d = record {
    event_id = draw_id d;
    entity_id = case_id;
    tenant_id = tenant_id;
    kind = kind;
    from_status = from;
    to_status = to;
    reason = reason;
    actor_id = actor_id;
    occurred_at = format_time d.at;
  }
