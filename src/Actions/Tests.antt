-- ===== src/Actions/Tests.antt =====
-- The theorems on enforcement actions at a table that keeps one of them.
use aocs_compliance_svc.Common.{
  ℕ, Bool, ◌≡◌, refl, inl, inr, true, false, ◌&&◌, List, [], ◌∷◌, Option, none, some, Bool-cases,
  and-eq-true, if◌then◌else◌, arith,
}
use aocs_compliance_svc.Text.{Text, codes, eq_text}
use aocs_compliance_svc.Text.Laws.{eq_text_sound}
use aocs_compliance_svc.Cases.Store.{str}
use aocs_compliance_svc.Actions.{Action, ActionUpdate, Database, Services, UpdateBody, done}
use aocs_compliance_svc.Actions.Updates.{has_no_fields, compliance_update}
use aocs_compliance_svc.Actions.Laws.{Observed, apply_update}

abbrev action_1 : Text
action_1 = codes "a1"

abbrev acme : Text
acme = codes "acme"

abbrev Row : Type 0
Row = Action ℕ ℕ

abbrev is_here : Text → Text → Bool
is_here id tenant = eq_text id action_1 && eq_text tenant acme

abbrev find_action : Row → Text → Text → Option Row
find_action w id tenant = if is_here id tenant then some w else none

unfoldable update_row : Row → Text → Text → ActionUpdate ℕ → Row × Bool
update_row w id tenant u = if is_here id tenant then (apply_update u w, true) else (w, false)

abbrev one_db : Database Row ℕ ℕ
one_db = record {
  query_window = λ w tenant from to. none;
  query_type = λ w tenant type. none;
  query_action = λ w id tenant. some (if is_here id tenant then w ∷ [] else []);
  insert_action = λ w tenant row. (w, false);
  update_action = update_row;
  delete_action = λ w id tenant. (w, false);
  insert_comment = λ w id tenant text. (w, false);
}

one_db-found :
    (w : Row) (id tenant : Text) (row : Row) (rows : List Row)
    → some (if is_here id tenant then w ∷ [] else []) ≡ some (row ∷ rows)
    → find_action w id tenant ≡ some row
one_db-found w id tenant row rows h = elim (Bool-cases (is_here id tenant)) [
  | inl same ↦ let h = rw same at h in rw same (ground (arith, h))
  | inr apart ↦ absurd (let h = rw apart at h in ground (arith, h))
]

one_db-updated :
    (w : Row) (id tenant : Text) (u : ActionUpdate ℕ) (row : Row)
    → find_action w id tenant ≡ some row
    → find_action (update_row w id tenant u).0 id tenant ≡ some (apply_update u row)
unfolding update_row
one_db-updated w id tenant u row h = elim (Bool-cases (is_here id tenant)) [
  | inl same ↦
      let h : some w ≡ some row = rw same at h in
      let e : w ≡ row = ground (arith, h) in rw (same, e) refl
  | inr apart ↦ absurd (let h = rw apart at h in cc)
]

one_db-others :
    (w : Row) (id tenant : Text) (u : ActionUpdate ℕ) (j tenant' : Text)
    → (eq_text id j && eq_text tenant tenant') ≡ false
    → find_action (update_row w id tenant u).0 j tenant' ≡ find_action w j tenant'
unfolding update_row
one_db-others w id tenant u j tenant' apart = elim (Bool-cases (is_here j tenant')) [
  | inr other ↦ rw other refl
  | inl here ↦
      let (i, t) = and-eq-true (eq_text j action_1) (eq_text tenant' acme) here in
      let apart = rw (eq_text_sound j action_1 i, eq_text_sound tenant' acme t) at apart in
      rw apart refl
]

one_db-failed :
    (w : Row) (id tenant : Text) (u : ActionUpdate ℕ)
    → (update_row w id tenant u).1 ≡ false
    → (update_row w id tenant u).0 ≡ w
unfolding update_row
one_db-failed w id tenant u lost = elim (Bool-cases (is_here id tenant)) [
  | inl same ↦ absurd (let h = rw (update_row, same) at lost in cc)
  | inr apart ↦ rw (update_row, apart) refl
]

unfoldable one_db-Observed : Observed Row ℕ ℕ one_db
one_db-Observed = record {
  find = find_action;
  query-found = λ w id tenant row rows h. one_db-found w id tenant row rows h;
  update-found = λ w id tenant u row h went. one_db-updated w id tenant u row h;
  update-others = λ w id tenant u j tenant' apart. one_db-others w id tenant u j tenant' apart;
  update-failed = λ w id tenant u lost. one_db-failed w id tenant u lost;
}

abbrev sanction : Row
sanction = record {
  action_type = str (codes "sanction");
  agent_id = codes "g1";
  subject_id = codes "g1";
  status = codes "OPEN";
  severity = codes "HIGH";
  reason = codes "r";
  metadata = none;
  expires_at = none;
  notes = none;
  rationale = none;
  resolved_by = none;
  resolved_at = none;
}

abbrev any_status : Services
any_status = record {
  is_valid_status = λ t. true;
  upper_beyond_ascii = λ c. c;
  is_future = λ t. true;
}

abbrev resolve : UpdateBody ℕ
resolve = record {
  status = codes "resolved";
  notes = codes "n";
  rationale = [];
  resolved_by = [];
  metadata = none;
}

update-resolved :
    (compliance_update any_status (some one_db) action_1 (some resolve) (some acme) sanction).1
    ≡ done (codes "updated")
unfolding compliance_update update_row eq_text has_no_fields
update-resolved = refl
