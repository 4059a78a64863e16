-- ===== src/Batches/Tests.antt =====
-- The theorem on the worker at a table that has one job.
use aocs_compliance_svc.Common.{
  ◌≡◌, refl, Bool, true, false, List, [], ◌∷◌, some, keep, map, not, take, if◌then◌else◌, arith,
}
use aocs_compliance_svc.Text.{codes}
use aocs_compliance_svc.Batches.Worker.{
  Job, Services, Database, Key, eq_key, key_of, without, Distinct, Observed,
}
use aocs_compliance_svc.Batches.Ticks.{tick, tick-pending}

abbrev toy : Services
toy = record {
  sha256 = λ bytes. bytes;
  marshal = λ rs. some (codes "[]");
  is_valid_transition = λ from to. true;
}

abbrev job : Job
job = record {
  job_id = codes "batch-acme-2026";
  tenant_id = codes "acme";
  agent_ids = codes "a" ∷ codes "b" ∷ [];
  period = codes "2026";
}

-- Whether the job is PENDING.
abbrev one_job : Database Bool
one_job = record {
  query_pending = λ w. some (if w then job ∷ [] else []);
  update_job = λ w j t c. (if eq_key (j, t) (key_of job) then false else w, true);
}

abbrev pending_keys : Bool → List Key
pending_keys w = if w then key_of job ∷ [] else []

after_waiting :
    (b : Bool) → pending_keys (if b then false else true) ≡ (if not b then key_of job ∷ [] else [])
after_waiting true = refl
after_waiting false = refl

after_none : (b : Bool) → pending_keys (if b then false else false) ≡ []
after_none true = refl
after_none false = refl

updated-pending :
    (w : Bool) (k : Key)
    → pending_keys (if eq_key k (key_of job) then false else w) ≡ without k (pending_keys w)
unfolding keep
updated-pending true (j, t) = after_waiting (eq_key (j, t) (key_of job))
updated-pending false (j, t) = after_none (eq_key (j, t) (key_of job))

pending-Distinct : (w : Bool) → Distinct (pending_keys w)
pending-Distinct true = (refl, tt)
pending-Distinct false = tt

query-pending_keys :
    (w : Bool)
    → (jobs : List Job) × (one_job.query_pending w ≡ some jobs)
      × (map key_of jobs ≡ take 200 (pending_keys w))
query-pending_keys true = (job ∷ [], refl, refl)
query-pending_keys false = ([], refl, refl)

abbrev one_job-Observed : Observed Bool one_job
one_job-Observed = record {
  pending = pending_keys;
  distinct = pending-Distinct;
  query-pending = query-pending_keys;
  update-pending = λ w j t c h. updated-pending w (j, t);
}

tick-pending_example : pending_keys (tick toy Bool one_job 1 (λ n. n) true) ≡ []
tick-pending_example =
    tick-pending toy Bool one_job one_job-Observed (λ w j t c. refl) (λ rs. (codes "[]", refl)) refl
      refl 1 (λ n. n) true (omega arith)
