-- ===== src/Reviews/Toy.antt =====
-- A database that keeps one case, for the tests on the review of cases.
use aocs_compliance_svc.Common.{
  ℕ, ◌≡◌, ◌≢◌, refl, sym, ◌⊎◌, inl, inr, Bool, true, false, List, [], ◌∷◌, ◌++◌, Option, none, some,
  Bool-cases, Option-cases, if◌then◌else◌, arith,
}
use aocs_compliance_svc.Text.{Text, codes, eq_text, has_prefix}
use aocs_compliance_svc.Text.Laws.{eq_text_sound}
use aocs_compliance_svc.Cases.Store.{str}
use aocs_compliance_svc.Departments.Toy.{case_1, fraud}
use aocs_compliance_svc.Reviews.Store.{Case, Change, recusal, Ran, Database, Observed, apply_change}
use aocs_compliance_svc.Reviews.Reassign.{Departments, Policies}
use aocs_compliance_svc.Reviews.Recusal.{Json, Logs, text}
use aocs_compliance_svc.Reviews.Recusal.Laws.{ReadBack}
use aocs_compliance_svc.Reviews.Bulk.{Core, write_verdict, post_verdict}
use aocs_compliance_svc.Reviews.Bulk.Laws.{Kept}
use aocs_compliance_svc.Reviews.Steps.{Serves}

abbrev pub a_case : Text → Case ℕ
a_case status = record {
  status = str status;
  department_id = str fraud;
  context_data = some ((codes "note", str (codes "n")) ∷ []);
}

abbrev pub find_case : Case ℕ → Text → Text → Option (Case ℕ)
find_case w id tenant = if eq_text id case_1 then some w else none

abbrev pub transact : {A : Type 0} → Case ℕ → A → (Case ℕ → Ran (Case ℕ) A) → Ran (Case ℕ) A
transact w a body = elim ((body w).failure) [
  | none ↦ record { world = (body w).world; vars = (body w).vars; failure = none }
  | some e ↦ record { world = w; vars = (body w).vars; failure = some e }
]

abbrev pub lock_one : Case ℕ → Text → Text → Option (List (Case ℕ))
lock_one w id tenant = if eq_text id case_1 then some (w ∷ []) else some []

unfoldable pub update_one : Case ℕ → Text → Text → Change ℕ → Case ℕ × Bool
update_one w id tenant c = if eq_text id case_1 then (apply_change c w, true) else (w, false)

abbrev pub one_db : Database (Case ℕ) ℕ
one_db = record {
  with_transaction = transact;
  lock_case = lock_one;
  update_case = update_one;
  post_verdict = λ w e. (w, true);
}

pub one_db-transact :
    {A : Type 0} (w : Case ℕ) (a : A) (body : Case ℕ → Ran (Case ℕ) A)
    → let run = transact w a body in
      ((run ≡ body w) × ((body w).failure ≡ none))
      ⊎ ((run.world ≡ w)
          × (run.failure ≢ none)
          × (((body w).failure ≡ none) ⊎ (run.failure ≡ (body w).failure)))
one_db-transact w a body = elim (Option-cases (body w).failure) [
  | inl fine ↦ inl (rw (transact, fine) refl, fine)
  | inr (e, failed) ↦ rw (transact, failed) (inr (refl, λ h. cc, inr refl))
]

pub lock_one-found :
    (w : Case ℕ) (id tenant : Text) (row : Case ℕ) (rows : List (Case ℕ))
    → lock_one w id tenant ≡ some (row ∷ rows)
    → find_case w id tenant ≡ some row
lock_one-found w id tenant row rows h = elim (Bool-cases (eq_text id case_1)) [
  | inl same ↦ let h = rw same at h in rw same (ground (arith, h))
  | inr other ↦ absurd (let h = rw other at h in cc)
]

pub update_one-found :
    (w : Case ℕ) (id tenant : Text) (c : Change ℕ) (row : Case ℕ)
    → find_case w id tenant ≡ some row
    → find_case (update_one w id tenant c).0 id tenant ≡ some (apply_change c row)
unfolding update_one
update_one-found w id tenant c row h = elim (Bool-cases (eq_text id case_1)) [
  | inl same ↦
      let h : some w ≡ some row = rw same at h in
      let e : w ≡ row = ground (arith, h) in rw (same, e) refl
  | inr other ↦ absurd (let h = rw other at h in cc)
]

pub update_one-others :
    (w : Case ℕ) (id tenant : Text) (c : Change ℕ) (j tenant' : Text)
    → eq_text id j ≡ false
    → find_case (update_one w id tenant c).0 j tenant' ≡ find_case w j tenant'
unfolding update_one
update_one-others w id tenant c j tenant' apart = elim (Bool-cases (eq_text j case_1)) [
  | inr other ↦ rw other refl
  | inl here ↦ let e : j ≡ case_1 = eq_text_sound j case_1 here in rw (rw e at apart) refl
]

pub update_one-failed :
    (w : Case ℕ) (id tenant : Text) (c : Change ℕ)
    → (update_one w id tenant c).1 ≡ false
    → (update_one w id tenant c).0 ≡ w
unfolding update_one
update_one-failed w id tenant c lost = elim (Bool-cases (eq_text id case_1)) [
  | inl same ↦ absurd (let h = rw (update_one, same) at lost in cc)
  | inr other ↦ rw (update_one, other) refl
]

unfoldable pub one_db-Observed : Observed (Case ℕ) ℕ one_db
one_db-Observed = record {
  find = find_case;
  committed-or_failed = λ w a body. one_db-transact w a body;
  lock-found = lock_one-found;
  update-found = λ w id tenant c row h went. update_one-found w id tenant c row h;
  update-others = λ w id tenant c j tenant' apart. update_one-others w id tenant c j tenant' apart;
  update-failed = λ w id tenant c lost. update_one-failed w id tenant c lost;
  post-found = λ w e id tenant. refl;
}

pub one_db-Kept : Kept (Case ℕ) ℕ (write_verdict none one_db []) (post_verdict none one_db [])
unfolding one_db-Observed write_verdict post_verdict
one_db-Kept = record {
  find = λ w id. find_case w id [];
  write-here = λ w id c row h went. one_db-Observed.update-found w id [] c row h went;
  write-others = λ w id c j apart. one_db-Observed.update-others w id [] c j [] apart;
  write-failed = λ w id c lost. one_db-Observed.update-failed w id [] c lost;
  post-found = λ w e id. refl;
}

-- A core service that writes that case.
abbrev pub one_core : Core (Case ℕ) ℕ
one_core = record {
  patch_case = λ w tenant id c. update_one w id tenant c;
  post_event = λ w e. (w, true);
}

pub one_core-Serves : (c : Core (Case ℕ) ℕ) → some one_core ≡ some c → Serves c one_db-Observed.find
unfolding one_db-Observed
one_core-Serves c e =
    let same : one_core ≡ c = ground (arith, e) in
    rw (sym same) (record {
      patch-found = λ w tenant id c row h went. update_one-found w id tenant c row h;
      patch-others = λ w tenant id c j apart. update_one-others w id tenant c j tenant apart;
      patch-failed = λ w tenant id c lost. update_one-failed w id tenant c lost;
      event-found = λ w e id tenant. refl;
    })

-- Departments with HITL on, and no rows of core_hitl_sla.
abbrev pub open_departments : Departments (Case ℕ) ℕ
open_departments = record {
  query_department = λ w slug tenant. some (none ∷ []);
  query_auto_approve = λ w slug tenant. some [];
  query_sla_hours = λ w slug tenant. none;
}

abbrev pub same_policies : Policies ℕ
same_policies = record {
  default_auto_approve = 80;
  is_wide = λ a b. false;
  percent = λ a. [];
  handover_context = λ src tgt now reason level. some reason;
}

-- A database whose world is a column recusal_log that is kept as a text.
abbrev pub put_log : Text → Text → Text → Change ℕ → Text × Bool
put_log w id tenant c = elim c [ recusal log t ↦ (log, true) | _ ↦ (w, true) ]

abbrev pub log_db : Database Text ℕ
log_db = record {
  with_transaction = λ w a body. body w;
  lock_case = λ w id tenant. none;
  update_case = put_log;
  post_verdict = λ w e. (w, true);
}

abbrev pub toy_json : Json
toy_json = record {
  Entry = ℕ;
  marshal = λ juror reason now. codes "{" ++ juror;
  unmarshal = λ t. if has_prefix (codes "{") t then [] else 1 ∷ [];
}

abbrev pub text_log : Logs Text ℕ
text_log = record { query_log = λ w id tenant. some (text w ∷ []) }

pub log_db-ReadBack : ReadBack toy_json log_db text_log
unfolding has_prefix
log_db-ReadBack = record {
  log-read = λ w id tenant juror reason now cell rows went read. inl (ground (arith, read));
  unmarshal-marshal = λ juror reason now. refl;
}
