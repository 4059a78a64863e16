-- ===== src/Cases/Store.antt =====
-- The tables that internal/compliance/handlers/compliance/case_lifecycle.go writes, and the two
-- services that it writes them through: a database (database.DB) and the core service
-- (serviceclient.Client). Both are parameters.
use aocs_compliance_svc.Common.{
  ℕ, ◌≡◌, Bool, true, false, List, [], ◌∷◌, ◌++◌, Option, none, some, ℤ,
}
use aocs_compliance_svc.Text.{Text}

-- What `map[string]any` holds in a row that is read. A time is in nanoseconds.
pub data Cell (F : Type 0) : Type 0 where
  null other : Cell F
  str : Text → Cell F
  time : ℕ → Cell F
  float : F → Cell F

-- The columns that TransitionCase reads and uses.
pub record Cells (F : Type 0) : Type 0 where
  pub status : Cell F
  pub sla_breach_at : Cell F
  pub sla_deadline_at : Cell F
  pub escalation_count : Cell F

-- A row of core_hitl, as CreateCase writes it; request_id is the decision_id, and created_by is
-- a constant. `sla_breached_at` is written by TransitionCase alone.
pub record Row : Type 0 where
  pub decision_id : Text
  pub decision_type : Text
  pub tenant_id : Text
  pub agent_id : Text
  pub status : Text
  pub priority : Text
  pub reason : Text
  pub case_source : Text
  pub sla_breach_at : Text
  pub sla_deadline_at : Text
  pub sla_breached : Bool
  pub sla_breached_at : Option Text
  pub escalation_count : ℤ
  pub context_data : Text
  pub dedup_key : Text
  pub department_id : Option Text

-- The columns that TransitionCase updates; sla_breached is set to true along with its time.
pub record Update : Type 0 where
  pub status : Text
  pub updated_by : Text
  pub sla_breached_at : Option Text
  pub escalation_count : Option ℤ

pub data EventKind : Type 0 where
  case_lifecycle status_transition : EventKind

-- A row of core_events; entity_id is the case id, which the payload repeats, and the entity type
-- goes with the kind.
pub record Event : Type 0 where
  pub event_id : Text
  pub entity_id : Text
  pub tenant_id : Text
  pub kind : EventKind
  pub from_status : Text
  pub to_status : Text
  pub reason : Text
  pub actor_id : Text
  pub occurred_at : Text

-- The update of an alert that is escalated.
pub record AlertUpdate : Type 0 where
  pub hitl_decision_id : Text
  pub assigned_at : Text

-- A service that keeps the tables in a world W. A write says whether it went through. A read is
-- none where it fails, and gives the first row, if there is one.
pub record Backend (W F : Type 0) : Type 0 where
  pub insert_case : W → Row → W × Bool
  pub read_case : W → Text → Text → Option (Option (Cells F))
  pub update_case : W → Text → Text → Update → W × Bool
  pub post_event : W → Event → W × Bool
  pub patch_alert : W → Text → Text → AlertUpdate → W × Bool

-- An update of a row.
unfoldable pub apply_update : Update → Row → Row
apply_update u row = record row {
  status = u.status;
  sla_breached = elim u.sla_breached_at [ none ↦ row.sla_breached | some t ↦ true ];
  sla_breached_at = elim u.sla_breached_at [ none ↦ row.sla_breached_at | some t ↦ some t ];
  escalation_count = elim u.escalation_count [ none ↦ row.escalation_count | some n ↦ n ];
}

-- What the columns of a row read as in JSON, numbers as float64.
abbrev pub cells_of : {F : Type 0} → (ℤ → F) → Row → Cells F
cells_of of_int row = record {
  status = str row.status;
  sla_breach_at = str row.sla_breach_at;
  sla_deadline_at = str row.sla_deadline_at;
  escalation_count = float (of_int row.escalation_count);
}

-- A service through which nobody else writes: a read gives what was written, a write that fails
-- changes nothing, and one that goes through adds its row.
pub record Observed (W F : Type 0) (of_int : ℤ → F) (b : Backend W F) : Type 0 where
  pub find : W → Text → Text → Option Row
  pub events : W → List Event
  pub read-found :
      (w : W) (t id : Text) (row : Row)
      → find w t id ≡ some row
      → b.read_case w t id ≡ some (some (cells_of of_int row))
  pub read-missing : (w : W) (t id : Text) → find w t id ≡ none → b.read_case w t id ≡ some none
  pub insert-found :
      (w : W) (row : Row)
      → (b.insert_case w row).1 ≡ true
      → find (b.insert_case w row).0 row.tenant_id row.decision_id ≡ some row
  pub insert-events : (w : W) (row : Row) → events (b.insert_case w row).0 ≡ events w
  pub insert-failed :
      (w : W) (row : Row) → (b.insert_case w row).1 ≡ false → (b.insert_case w row).0 ≡ w
  pub update-found :
      (w : W) (t id : Text) (u : Update) (row : Row)
      → find w t id ≡ some row
      → (b.update_case w t id u).1 ≡ true
      → find (b.update_case w t id u).0 t id ≡ some (apply_update u row)
  pub update-events :
      (w : W) (t id : Text) (u : Update) → events (b.update_case w t id u).0 ≡ events w
  pub update-failed :
      (w : W) (t id : Text) (u : Update)
      → (b.update_case w t id u).1 ≡ false
      → (b.update_case w t id u).0 ≡ w
  pub post-events :
      (w : W) (e : Event)
      → (b.post_event w e).1 ≡ true
      → events (b.post_event w e).0 ≡ events w ++ e ∷ []
  pub post-failed : (w : W) (e : Event) → (b.post_event w e).1 ≡ false → (b.post_event w e).0 ≡ w
  pub post-found : (w : W) (e : Event) (t id : Text) → find (b.post_event w e).0 t id ≡ find w t id
  pub patch-found :
      (w : W) (t a : Text) (u : AlertUpdate) (t' id : Text)
      → find (b.patch_alert w t a u).0 t' id ≡ find w t' id
  pub patch-events :
      (w : W) (t a : Text) (u : AlertUpdate) → events (b.patch_alert w t a u).0 ≡ events w
