-- ===== src/Disputes/Tests.antt =====
-- The theorems on disputes at a database that keeps one dispute.
use aocs_compliance_svc.Common.{
  ℕ, ◌≡◌, ◌≢◌, ◌⊎◌, inl, inr, refl, sym, true, false, List, [], ◌∷◌, Option, none, some, Bool-cases,
  if◌then◌else◌, arith,
}
use aocs_compliance_svc.Text.{Text, codes, eq_text}
use aocs_compliance_svc.Text.Laws.{eq_text_sound}
use aocs_compliance_svc.Cases.Store.{Cell, str}
use aocs_compliance_svc.Departments.Settings.{string_of}
use aocs_compliance_svc.Disputes.{
  DisputeUpdate, Database, ResolveBody, resolved, status_open, status_withdrawn, is_resolution,
  resolve_open, resolve_dispute, delete_dispute,
}
use aocs_compliance_svc.Disputes.Laws.{Observed, resolve_dispute-open}
use aocs_compliance_svc.Disputes.Steps.{Step, Reach, MayFollow, Reach-MayFollow}

abbrev dispute_1 : Text
dispute_1 = codes "d1"

abbrev acme : Text
acme = codes "acme"

abbrev find_dispute : Text → Text → Text → Option Text
find_dispute w id tenant = if eq_text id dispute_1 then some w else none

-- The world is the status of the only dispute.
abbrev one_db : Database Text ℕ ℕ
one_db = record {
  query_all = λ w tenant. some [];
  query_one = λ w id tenant. some [];
  query_status = λ w id tenant. some (if eq_text id dispute_1 then str w ∷ [] else []);
  insert_dispute = λ w row. (w, false);
  update_dispute = λ w id tenant u. if eq_text id dispute_1 then (u.status, true) else (w, false);
}

one_db-found :
    (w id : Text) (cell : Cell ℕ) (rows : List (Cell ℕ))
    → some (if eq_text id dispute_1 then str w ∷ [] else []) ≡ some (cell ∷ rows)
    → find_dispute w id acme ≡ some (string_of cell)
unfolding string_of
one_db-found w id cell rows h = elim (Bool-cases (eq_text id dispute_1)) [
  | inl same ↦
      rw same (let h = rw same at h in let e : str w ≡ cell = ground (arith, h) in rw (sym e) refl)
  | inr other ↦ absurd (let h = rw other at h in ground (arith, h))
]

one_db-updated :
    (w id : Text) (u : DisputeUpdate)
    → (one_db.update_dispute w id acme u).1 ≡ true
    → find_dispute (one_db.update_dispute w id acme u).0 id acme ≡ some u.status
one_db-updated w id u went = elim (Bool-cases (eq_text id dispute_1)) [
  | inl same ↦ rw same refl
  | inr other ↦ absurd (let h = rw other at went in cc)
]

one_db-others :
    (w id : Text) (u : DisputeUpdate) (j : Text)
    → eq_text id j ≡ false
    → find_dispute (one_db.update_dispute w id acme u).0 j acme ≡ find_dispute w j acme
one_db-others w id u j apart = elim (Bool-cases (eq_text j dispute_1)) [
  | inr other ↦ rw other refl
  | inl here ↦ rw (rw (eq_text_sound j dispute_1 here) at apart) refl
]

one_db-failed :
    (w id : Text) (u : DisputeUpdate)
    → (one_db.update_dispute w id acme u).1 ≡ false
    → (one_db.update_dispute w id acme u).0 ≡ w
one_db-failed w id u lost = elim (Bool-cases (eq_text id dispute_1)) [
  | inl same ↦ absurd (let h = rw same at lost in cc)
  | inr other ↦ rw other refl
]

unfoldable one_db-Observed : Observed Text ℕ ℕ one_db
one_db-Observed = record {
  status_of = find_dispute;
  query-found = λ w id tenant cell rows h. one_db-found w id cell rows h;
  update-found = λ w id tenant u status h went. one_db-updated w id u went;
  update-others = λ w id tenant u j apart. one_db-others w id u j apart;
  update-failed = λ w id tenant u lost. one_db-failed w id u lost;
  insert-others = λ w row j tenant apart. refl;
}

abbrev upheld : ResolveBody
upheld = record { verdict = codes "UPHELD"; resolution = codes "stands" }

resolve_dispute-open_example :
    let (w', reply) =
      resolve_dispute (some one_db) (some acme) dispute_1 (some upheld) [] status_open in
    (((v t : Text) → reply ≢ resolved v t) × (w' ≡ status_open))
    ⊎ ((v : Text) × (reply ≡ resolved v [])
        × (is_resolution v ≡ true)
        × (find_dispute status_open dispute_1 acme ≡ some status_open)
        × (find_dispute w' dispute_1 acme ≡ some v)
        × ((j : Text)
            → eq_text dispute_1 j ≡ false
            → find_dispute w' j acme ≡ find_dispute status_open j acme))
unfolding one_db-Observed
resolve_dispute-open_example =
    resolve_dispute-open one_db one_db-Observed acme dispute_1 (some upheld) [] status_open

resolve-upheld :
    resolve_dispute (some one_db) (some acme) dispute_1 (some upheld) [] status_open
    ≡ (codes "UPHELD", resolved (codes "UPHELD") [])
unfolding resolve_dispute resolve_open is_resolution eq_text string_of
resolve-upheld = refl

-- A dispute that is resolved is withdrawn.
withdraw-resolved :
    (delete_dispute (some one_db) (some acme) dispute_1 [] (codes "UPHELD")).0 ≡ status_withdrawn
unfolding delete_dispute eq_text
withdraw-resolved = refl

Reach-MayFollow_example :
    (after : Text) × (find_dispute
        (delete_dispute (some one_db) (some acme) dispute_1 [] status_open).0
        dispute_1
        acme
      ≡ some after)
    × MayFollow one_db one_db-Observed status_open after
unfolding one_db-Observed eq_text
Reach-MayFollow_example =
    Reach-MayFollow one_db one_db-Observed acme status_open _ dispute_1 status_open refl
      (Reach.next Reach.here (Step.withdraw dispute_1 [] refl))
