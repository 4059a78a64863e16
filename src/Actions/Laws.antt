-- ===== src/Actions/Laws.antt =====
-- What a request to update an enforcement action writes, and of which type an action that is read is.
use aocs_compliance_svc.Common.{
  ◌≡◌, sym, ap, inl, inr, Bool, ◌||◌, if◌then◌else◌, true, false, not, ◌&&◌, List, [], ◌∷◌, Option,
  none, some, is_empty, Bool-cases, Option-cases, arith,
}
use aocs_compliance_svc.Text.{Text, eq_text}
use aocs_compliance_svc.Text.Laws.{eq_text_sound}
use aocs_compliance_svc.Cases.Store.{Cell, null, other, str, time, float}
use aocs_compliance_svc.Actions.{
  Action, ActionUpdate, Database, Services, UpdateBody, answered, is_of_type, to_upper,
  compliance_get,
}
use aocs_compliance_svc.Actions.Updates.{has_no_fields}

-- A row after an update.
unfoldable pub apply_update : {F M : Type 0} → ActionUpdate M → Action F M → Action F M
apply_update u row = record {
  action_type = row.action_type;
  agent_id = row.agent_id;
  subject_id = row.subject_id;
  status = elim u.status [ none ↦ row.status | some t ↦ t ];
  severity = row.severity;
  reason = elim u.reason [ none ↦ row.reason | some t ↦ t ];
  metadata = elim u.metadata [ none ↦ row.metadata | some m ↦ some m ];
  expires_at = row.expires_at;
  notes = elim u.notes [ none ↦ row.notes | some t ↦ some t ];
  rationale = elim u.rationale [ none ↦ row.rationale | some t ↦ some t ];
  resolved_by = elim u.resolved_by [ none ↦ row.resolved_by | some t ↦ some t ];
  resolved_at = elim u.resolved_at [ none ↦ row.resolved_at | some t ↦ some t ];
}

-- A table through which nobody else writes: an update that fails changes nothing, and one that goes
-- through changes the columns that it names, of the row with its id and tenant alone.
pub record Observed (W F M : Type 0) (db : Database W F M) : Type 0 where
  pub find : W → Text → Text → Option (Action F M)
  pub query-found :
      (w : W) (id tenant : Text) (row : Action F M) (rows : List (Action F M))
      → db.query_action w id tenant ≡ some (row ∷ rows)
      → find w id tenant ≡ some row
  pub update-found :
      (w : W) (id tenant : Text) (u : ActionUpdate M) (row : Action F M)
      → find w id tenant ≡ some row
      → (db.update_action w id tenant u).1 ≡ true
      → find (db.update_action w id tenant u).0 id tenant ≡ some (apply_update u row)
  pub update-others :
      (w : W) (id tenant : Text) (u : ActionUpdate M) (j tenant' : Text)
      → (eq_text id j && eq_text tenant tenant') ≡ false
      → find (db.update_action w id tenant u).0 j tenant' ≡ find w j tenant'
  pub update-failed :
      (w : W) (id tenant : Text) (u : ActionUpdate M)
      → (db.update_action w id tenant u).1 ≡ false
      → (db.update_action w id tenant u).0 ≡ w

str_sound :
    {F : Type 0} (type : Text) (cell : Cell F)
    → (elim cell [ str t ↦ eq_text t type | _ ↦ false ]) ≡ true
    → cell ≡ str type
str_sound type (str t) h = ap (λ t. str t) (eq_text_sound t type h)
str_sound type null h = absurd cc
str_sound type other h = absurd cc
str_sound type (time n) h = absurd cc
str_sound type (float x) h = absurd cc

-- A row after a request to update it, by the fields of the request.
unfoldable pub edited : {F M : Type 0} → Services → UpdateBody M → Action F M → Action F M
edited s b row = record row {
  status = if is_empty b.status then row.status else to_upper s b.status;
  notes = if is_empty b.notes then row.notes else some b.notes;
  rationale = if is_empty b.rationale then row.rationale else some b.rationale;
  resolved_by = if is_empty b.resolved_by then row.resolved_by else some b.resolved_by;
  metadata = elim b.metadata [ none ↦ row.metadata | some m ↦ some m ];
}

-- A request has a field, and a status, where it has one, that is valid.
unfoldable pub is_meant : {M : Type 0} → Services → UpdateBody M → Bool
is_meant s b =
    not (has_no_fields b) && (is_empty b.status || s.is_valid_status (to_upper s b.status))

module _ {W F M : Type 0} (db : Database W F M) (obs : Observed W F M db) where
  open obs use {find, query-found, update-found, update-others, update-failed}

  -- An action that is answered is that of the tenant with the id, and is of the type that is asked
  -- for.
  compliance_get-typed :
      (type tenant id : Text) (w : W) (row : Action F M)
      → compliance_get (some db) type (some tenant) id w ≡ answered row
      → (find w id tenant ≡ some row) × (row.action_type ≡ str type)
  unfolding compliance_get is_of_type
  compliance_get-typed type tenant id w row h = elim (Bool-cases (is_empty id)) [
    | inl lost ↦ absurd (let h = rw (compliance_get, lost) at h in cc)
    | inr named ↦ elim (Option-cases (db.query_action w id tenant)) [
      | inl lost ↦ absurd (let h = rw (compliance_get, named, lost) at h in cc)
      | inr ([], none_found) ↦ absurd (let h = rw (compliance_get, named, none_found) at h in cc)
      | inr (r ∷ more, found) ↦ elim (Bool-cases (is_of_type type r)) [
        | inr apart ↦ absurd (let h = rw (compliance_get, named, found, apart) at h in cc)
        | inl same ↦
            let h = rw (compliance_get, named, found, same) at h in
            let e : r ≡ row = ground (arith, h) in
            rw (sym e) (query-found w id tenant r more found, str_sound type r.action_type same)
      ]
    ]
  ]
