-- ===== src/Batches/Ticks.antt =====
-- That the worker of internal/compliance/handlers/compliance/zkp_batch.go gets through its jobs.
use aocs_compliance_svc.Common.{
  ℕ, zero, suc, ◌*◌, ◌≤◌, ◌≡◌, refl, sym, ap, ◌∙◌, true, false, List, [], ◌∷◌, ◌++◌, map, some,
  keep, any, drop, length, take-drop, length-drop, arith,
}
use aocs_compliance_svc.Text.{Text, codes}
use aocs_compliance_svc.Text.Laws.{eq_text_refl}
use aocs_compliance_svc.Batches.Worker.{
  Job, AgentResult, Change, to_processing, to_completed, Services, Database, results_of,
  process_job, process_jobs, process_pending_batch_jobs, Key, key_of, eq_key, without, Distinct,
  Observed,
}

without_fresh : (k : Key) (ks : List Key) → any (eq_key k) ks ≡ false → without k ks ≡ ks
unfolding keep
without_fresh k [] h = refl
without_fresh k (j ∷ ks) h = ground (arith, h, without_fresh k ks)

without_head : (k : Key) (ks : List Key) → any (eq_key k) ks ≡ false → without k (k ∷ ks) ≡ ks
unfolding keep
without_head (a, t) ks h = rw (eq_text_refl a, eq_text_refl t) (without_fresh (a, t) ks h)

empty_of_length : (ks : List Key) → length ks ≤ 200 * 0 → ks ≡ []
empty_of_length [] h = refl
empty_of_length (k ∷ ks) h = absurd (omega (arith, h))

-- The ticks of the worker.
unfoldable pub tick : (s : Services) (W : Type 0) → Database W → ℕ → (ℕ → ℕ) → W → W
tick s W db zero clock w = w
tick s W db (suc n) clock w =
    tick s W db n clock (process_pending_batch_jobs s W db (λ i. false) clock w)

module _ (s : Services) (W : Type 0) (db : Database W) (obs : Observed W db)
    (reliable : (w : W) (j t : Text) (c : Change) → (db.update_job w j t c).1 ≡ true)
    (marshals : (rs : List AgentResult) → (t : Text) × (s.marshal rs ≡ some t))
    (starts : s.is_valid_transition (codes "PENDING") (codes "PROCESSING") ≡ true)
    (ends : s.is_valid_transition (codes "PROCESSING") (codes "COMPLETED") ≡ true) where
  open obs use {pending, distinct, query-pending, update-pending}

  process_job-pending :
      (job : Job) (now : ℕ) (w : W) (ks : List Key)
      → pending w ≡ key_of job ∷ ks
      → let (w', goes_on) = process_job s W db job now w in (pending w' ≡ ks) × (goes_on ≡ true)
  unfolding process_job
  process_job-pending job now w ks first =
      let w1 = (db.update_job w job.job_id job.tenant_id to_processing).0 in
      let went = reliable w job.job_id job.tenant_id to_processing in
      let (text, read) = marshals (results_of s W db job) in
      let fresh : Distinct (key_of job ∷ ks) = rw first at (distinct w) in
      let taken : pending w1 ≡ ks =
        update-pending w job.job_id job.tenant_id to_processing went
        ∙ (ap (without (key_of job)) first ∙ without_head (key_of job) ks fresh.0) in
      let done : pending (db.update_job w1 job.job_id job.tenant_id (to_completed text now)).0
          ≡ ks =
        update-pending w1 job.job_id job.tenant_id (to_completed text now)
          (reliable w1 job.job_id job.tenant_id (to_completed text now))
        ∙ (ap (without (key_of job)) taken ∙ without_fresh (key_of job) ks fresh.0) in
      rw (starts, went, read, ends) (done, refl)

  process_jobs-pending :
      (clock : ℕ → ℕ) (jobs : List Job) (i : ℕ) (w : W) (rest : List Key)
      → pending w ≡ map key_of jobs ++ rest
      → pending (process_jobs s W db (λ i. false) clock jobs i w) ≡ rest
  unfolding process_jobs
  process_jobs-pending clock [] i w rest h = h
  process_jobs-pending clock (job ∷ jobs) i w rest h =
      let (left, goes_on) = process_job-pending job (clock i) w (map key_of jobs ++ rest) h in
      rw goes_on (process_jobs-pending clock jobs (suc i) _ rest left)

  process_pending-drop :
      (clock : ℕ → ℕ) (w : W)
      → pending (process_pending_batch_jobs s W db (λ i. false) clock w) ≡ drop 200 (pending w)
  unfolding process_pending_batch_jobs
  process_pending-drop clock w =
      let (jobs, read, keys) = query-pending w in
      rw (process_pending_batch_jobs, read)
        (process_jobs-pending clock jobs 0 w (drop 200 (pending w))
          (sym (take-drop 200 (pending w)) ∙ ap (λ ks. ks ++ drop 200 (pending w)) (sym keys)))

  -- After as many ticks as the number of PENDING jobs has batches of 200, no job is PENDING; where
  -- nobody else writes, no two jobs have one id in one tenant, the query for PENDING jobs never
  -- fails and gives the first 200 of them, the updates go through, the results can be written as
  -- JSON, the two transitions are valid and the context is not cancelled.
  pub tick-pending :
      (n : ℕ) (clock : ℕ → ℕ) (w : W)
      → length (pending w) ≤ 200 * n
      → pending (tick s W db n clock w) ≡ []
  unfolding tick
  tick-pending zero clock w h = empty_of_length (pending w) h
  tick-pending (suc n) clock w h =
      let left = process_pending-drop clock w in
      tick-pending n clock _ (omega (arith, h, ap length left, length-drop 200 (pending w)))
