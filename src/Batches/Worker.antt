-- ===== src/Batches/Worker.antt =====
-- The worker on ZKP batch jobs in internal/compliance/handlers/compliance/zkp_batch.go. The log lines are
-- left out.
use aocs_compliance_svc.Common.{
  ℕ, suc, ◌≡◌, Bool, true, false, not, ◌&&◌, List, [], ◌∷◌, ◌++◌, map, Option, none, some, keep,
  any, take, if◌then◌else◌,
}
use aocs_compliance_svc.Text.{Text, codes, eq_text}
use aocs_compliance_svc.Text.Hex.{hex_encode}
use aocs_compliance_svc.Text.Utf8.{bytes_of_text}

pub record Job : Type 0 where
  pub job_id : Text
  pub tenant_id : Text
  pub agent_ids : List Text
  pub period : Text

-- What a job has for an agent; its status is always GENERATED.
pub record AgentResult : Type 0 where
  pub agent_id : Text
  pub chain_root : Text

pub data Change : Type 0 where
  to_processing : Change
  to_completed : Text → ℕ → Change

-- SHA-256, JSON, and the state machine of the shared library.
pub record Services : Type 0 where
  pub sha256 : List ℕ → List ℕ
  pub marshal : List AgentResult → Option Text
  pub is_valid_transition : Text → Text → Bool

-- The PENDING jobs, up to 200, none where the query fails; and an update by job and tenant.
pub record Database (W : Type 0) : Type 0 where
  pub query_pending : W → Option (List Job)
  pub update_job : W → Text → Text → Change → W × Bool

module _ (s : Services) (W : Type 0) (db : Database W) where
  open s use {sha256, marshal, is_valid_transition}
  open db use {query_pending, update_job}

  unfoldable pub results_of : Job → List AgentResult
  results_of job =
      map
        (λ aid. record {
          agent_id = aid;
          chain_root = hex_encode (sha256 (bytes_of_text (aid ++ b':' ∷ job.period)));
        })
        job.agent_ids

  -- One turn of the loop: the answer is false where the whole call returns.
  unfoldable pub process_job : Job → ℕ → W → W × Bool
  process_job job now w =
      if not (is_valid_transition (codes "PENDING") (codes "PROCESSING"))
      then (w, true)
      else (let (w', went) = update_job w job.job_id job.tenant_id to_processing in
          if not went then (w', true) else (elim (marshal (results_of job)) [
            | none ↦ (w', false)
            | some results ↦
                if not (is_valid_transition (codes "PROCESSING") (codes "COMPLETED"))
                then (w', true)
                else ((update_job w' job.job_id job.tenant_id (to_completed results now)).0, true)
          ]))

  -- The loop, with what the context and the clock say at each turn.
  unfoldable pub process_jobs : (ℕ → Bool) → (ℕ → ℕ) → List Job → ℕ → W → W
  process_jobs cancelled clock [] i w = w
  process_jobs cancelled clock (job ∷ jobs) i w =
      if cancelled i
      then w
      else (let (w', goes_on) = process_job job (clock i) w in
          if goes_on then process_jobs cancelled clock jobs (suc i) w' else w')

  -- processPendingBatchJobs.
  unfoldable pub process_pending_batch_jobs : (ℕ → Bool) → (ℕ → ℕ) → W → W
  process_pending_batch_jobs cancelled clock w = elim (query_pending w) [
    | none ↦ w
    | some jobs ↦ process_jobs cancelled clock jobs 0 w
  ]

abbrev pub Key : Type 0
Key = Text × Text

abbrev pub key_of : Job → Key
key_of job = (job.job_id, job.tenant_id)

abbrev pub eq_key : Key → Key → Bool
eq_key (a, t) (b, u) = eq_text a b && eq_text t u

abbrev pub without : Key → List Key → List Key
without k ks = keep (λ j. not (eq_key k j)) ks

abbrev pub Distinct : List Key → Type 0
Distinct [] = Unit
Distinct (k ∷ ks) = (any (eq_key k) ks ≡ false) × Distinct ks

-- A database through which nobody else writes: the query does not fail and has the first 200 of the PENDING jobs, no
-- two of them with one id in one tenant, and an update that goes through takes its job from them.
pub record Observed (W : Type 0) (db : Database W) : Type 0 where
  pub pending : W → List Key
  pub distinct : (w : W) → Distinct (pending w)
  pub query-pending :
      (w : W)
      → (jobs : List Job) × (db.query_pending w ≡ some jobs)
        × (map key_of jobs ≡ take 200 (pending w))
  pub update-pending :
      (w : W) (job_id tenant_id : Text) (c : Change)
      → (db.update_job w job_id tenant_id c).1 ≡ true
      → pending (db.update_job w job_id tenant_id c).0 ≡ without (job_id, tenant_id) (pending w)
