-- ===== src/Cases/Toy.antt =====
-- A service that keeps its rows as a function, for the tests on cases.
use aocs_compliance_svc.Common.{
  ◌*◌, ◌/◌, ◌≡◌, refl, ◌∙◌, Bool, true, false, ◌&&◌, List, [], ◌∷◌, ◌++◌, Option, none, some, ℤ,
  if◌then◌else◌,
}
use aocs_compliance_svc.Text.{Text, codes, eq_text}
use aocs_compliance_svc.Text.Laws.{eq_text_refl}
use aocs_compliance_svc.Cases.Store.{Row, Event, Update, Backend, Observed, cells_of, apply_update}
use aocs_compliance_svc.Cases.Rows.{Services, CreateCaseInput, Draw}
use aocs_compliance_svc.Cases.Lifecycle.{State, Target}
use aocs_compliance_svc.Cases.Lifecycle.Laws.{backend_of}
use aocs_compliance_svc.Cases.Lifecycle.Deadline.{IsRfc3339, second_length}

abbrev pub toy_services : Services
toy_services = record {
  Float = ℤ;
  to_int = λ n. n;
  of_int = λ n. n;
  format_time = λ n. n / second_length ∷ [];
  parse_time = λ t. elim t [ [] ↦ none | n ∷ rest ↦ some (n * second_length) ];
  year_month = λ n. codes "202601";
  sla_by_priority = λ p. none;
  default_sla_hours = 24;
  marshal_context = λ m. codes "{}";
  sha256 = λ bytes. bytes;
}

pub toy-IsRfc3339 : IsRfc3339 toy_services
toy-IsRfc3339 = record { reads = λ n. refl; written = λ n. refl }

abbrev pub Rows : Type 0
Rows = Text → Text → Option Row

abbrev pub put : Text → Text → Option Row → Rows → Rows
put t id row rows = λ t' id'. if eq_text t' t && eq_text id' id then row else rows t' id'

abbrev pub update_row : Update → Option Row → Option Row
update_row u row = elim row [ none ↦ none | some r ↦ some (apply_update u r) ]

-- The argument says whether insertions go through.
abbrev pub keeper : Bool → Backend (Rows × List Event) ℤ
keeper open_for = record {
  insert_case = λ w row. elim open_for [
    | true ↦ ((put row.tenant_id row.decision_id (some row) w.0, w.1), true)
    | false ↦ (w, false)
  ];
  read_case =
      λ w t id. some (elim (w.0 t id) [ none ↦ none | some row ↦ some (cells_of (λ n. n) row) ]);
  update_case = λ w t id u. ((put t id (update_row u (w.0 t id)) w.0, w.1), true);
  post_event = λ w e. ((w.0, w.1 ++ e ∷ []), true);
  patch_alert = λ w t a u. (w, true);
}

pub put-here : (t id : Text) (row : Option Row) (rows : Rows) → put t id row rows t id ≡ row
put-here t id row rows = rw (eq_text_refl t, eq_text_refl id) refl

pub inserted-found :
    (o : Bool) (w : Rows × List Event) (row : Row)
    → ((keeper o).insert_case w row).1 ≡ true
    → ((keeper o).insert_case w row).0.0 row.tenant_id row.decision_id ≡ some row
inserted-found true w row h = put-here row.tenant_id row.decision_id (some row) w.0
inserted-found false w row h = absurd cc

pub inserted-events :
    (o : Bool) (w : Rows × List Event) (row : Row) → ((keeper o).insert_case w row).0.1 ≡ w.1
inserted-events true w row = refl
inserted-events false w row = refl

pub inserted-failed :
    (o : Bool) (w : Rows × List Event) (row : Row)
    → ((keeper o).insert_case w row).1 ≡ false
    → ((keeper o).insert_case w row).0 ≡ w
inserted-failed true w row h = absurd cc
inserted-failed false w row h = refl

abbrev pub keeper_observed :
    (open_for : Bool) → Observed (Rows × List Event) ℤ (λ n. n) (keeper open_for)
keeper_observed open_for = record {
  find = λ w t id. w.0 t id;
  events = λ w. w.1;
  read-found = λ w t id row h. rw h refl;
  read-missing = λ w t id h. rw h refl;
  insert-found = λ w row. inserted-found open_for w row;
  insert-events = λ w row. inserted-events open_for w row;
  insert-failed = λ w row. inserted-failed open_for w row;
  update-found = λ w t id u row found went. put-here t id _ w.0 ∙ rw found refl;
  update-events = λ w t id u. refl;
  update-failed = λ w t id u h. absurd cc;
  post-events = λ w e h. refl;
  post-failed = λ w e h. absurd cc;
  post-found = λ w e t id. refl;
  patch-found = λ w t a u t' id. refl;
  patch-events = λ w t a u. refl;
}

abbrev pub target : Bool → Target toy_services (Rows × List Event)
target open_for = record { db = some (keeper open_for); core = none }

abbrev pub empty : State toy_services (Rows × List Event)
empty = record { world = (λ t id. none, []); tasks = [] }

abbrev pub draw : Draw
draw = record { random = some 5; id_at = 7; at = 7000000000 }

abbrev pub input : CreateCaseInput ℤ
input = record {
  case_type = codes "MANUAL";
  agent_id = codes "a1";
  tenant_id = codes "t1";
  reason = codes "check";
  priority = [];
  department_id = [];
  case_source = [];
  context_data = none;
  alert_id = [];
  escalated_from_alert = false;
  evidence_chain_id = [];
}

pub used : (o : Bool) → backend_of toy_services (Rows × List Event) (target o) ≡ some (keeper o)
unfolding backend_of
used o = refl
