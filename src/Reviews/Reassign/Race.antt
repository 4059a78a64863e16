-- ===== src/Reviews/Reassign/Race.antt =====
-- HandleReassignCase as a whole: what it changes, and what another request may write between its
-- check of the status and its update.
use aocs_compliance_svc.Common.{
  ℕ, ◌≡◌, ◌≢◌, refl, sym, ◌⊎◌, inl, inr, false, List, [], ◌∷◌, Option, none, some, is_empty,
  Bool-cases, Option-cases, arith,
}
use aocs_compliance_svc.Text.{Text, eq_text}
use aocs_compliance_svc.Cases.Store.{str}
use aocs_compliance_svc.Departments.Settings.{Services, string_of}
use aocs_compliance_svc.Reviews.Store.{Case, apply_change, Database, Observed}
use aocs_compliance_svc.Reviews.Reassign.{
  ReassignBody, ReassignRequest, Feature, Departments, Policies, Handover, reassigned, Reassigned,
  is_terminal, is_disabled, handover_of, reassign_locked, reassign_case,
}
use aocs_compliance_svc.Reviews.Reassign.Laws.{
  IsIdle, answer-IsIdle, Handed, Open, reassign_locked-cases,
}

module _ (s : Services) (W : Type 0) where
  open s use {Float}

  module _ (p : Policies Float) (db : Database W Float) (depts : Departments W Float)
      (req : ReassignRequest) (deadline_from now : ℕ) (others : W → W) (w : W)
      (obs : Observed W Float db) (tenant : Text) (e : req.tenant ≡ some tenant) where
    open obs use {find, lock-found, update-found}

    abbrev pub res : Reassigned W
    res = reassign_case s W p (some db) depts req deadline_from now others w

    -- What has been seen and written where the call is answered with a handover.
    abbrev pub HandedOver : Type 0
    HandedOver =
        (body : ReassignBody) × (req.body ≡ some body)
        × (eq_text body.from_dept_id body.to_dept_id ≡ false)
        × (dept : Text) × Open s W db w req.id tenant dept
        × Handed s W p db depts tenant req.id body deadline_from now obs dept (others w) res

    locked-cases :
        (body : ReassignBody)
        → req.body ≡ some body
        → eq_text body.from_dept_id body.to_dept_id ≡ false
        → res ≡ reassign_locked s W p db depts tenant req.id body deadline_from now others w
        → IsIdle s W w res ⊎ (IsIdle s W (others w) res ⊎ HandedOver)
    locked-cases body read moves ran =
        elim (rw (sym ran) at (
          reassign_locked-cases s W p db depts tenant req.id body deadline_from now obs others w)) [
            | inl idle ↦ inl idle
            | inr (inl idle) ↦ inr (inl idle)
            | inr (inr (dept, found, handed)) ↦ inr (inr (body, read, moves, dept, found, handed))
          ]

    pub reassign_case-cases : IsIdle s W w res ⊎ (IsIdle s W (others w) res ⊎ HandedOver)
    unfolding reassign_case
    reassign_case-cases = elim (Bool-cases (is_empty req.id)) [
      | inl lost ↦ inl (rw (reassign_case, e, lost) (answer-IsIdle s W w _ (λ h e. cc)))
      | inr named ↦ elim (Option-cases req.body) [
        | inl bad ↦ inl (rw (reassign_case, e, named, bad) (answer-IsIdle s W w _ (λ h e. cc)))
        | inr (body, same) ↦ elim (Bool-cases (is_empty body.to_dept_id)) [
          | inl lost ↦
              inl (rw (reassign_case, e, named, same, lost) (answer-IsIdle s W w _ (λ h e. cc)))
          | inr given ↦ elim (Bool-cases (eq_text body.from_dept_id body.to_dept_id)) [
            | inl equal ↦ inl (
                rw (reassign_case, e, named, same, given, equal)
                  (answer-IsIdle s W w _ (λ h e. cc)))
            | inr apart ↦
                locked-cases body same apart (rw (reassign_case, e, named, same, given, apart) refl)
          ]
        ]
      ]
    ]

    -- A request with a tenant that is not answered with a handover posts nothing and writes
    -- nothing: the tables are as it found them, or as the other requests left them.
    pub reassign_case-idle :
        ((h : Handover) → res.reply ≢ reassigned h)
        → (res.tasks ≡ []) × ((res.world ≡ w) ⊎ (res.world ≡ others w))
    reassign_case-idle refused = elim reassign_case-cases [
      | inl (same, unposted, idle) ↦ (unposted, inl same)
      | inr (inl (same, unposted, idle)) ↦ (unposted, inr same)
      | inr (inr (body, read, moves, dept, found, handed)) ↦ absurd (refused _ handed.replied)
    ]

    -- A request with a tenant that is answered with a handover has found the case with a status
    -- that is not terminal, and a target department where HITL is not off: the one that the request
    -- names, which is not the one that it claims to take the case from. The case is then in the target department, with whatever
    -- status the other requests have given it since, a terminal one included.
    pub reassign_case-lands :
        (h : Handover) (row : Case Float)
        → res.reply ≡ reassigned h
        → find (others w) req.id tenant ≡ some row
        → ((seen : Case Float) × (find w req.id tenant ≡ some seen)
            × (is_terminal (string_of seen.status) ≡ false)
            × (string_of seen.department_id ≡ h.from_dept))
          × ((hitl : Option Feature) × (more : List (Option Feature)) × (depts.query_department
                  (others w)
                  h.to_dept
                  tenant
                ≡ some (hitl ∷ more))
              × (is_disabled hitl ≡ false))
          × ((body : ReassignBody) × (req.body ≡ some body)
              × (h.to_dept ≡ body.to_dept_id)
              × (eq_text body.from_dept_id h.to_dept ≡ false))
          × (find res.world req.id tenant
              ≡ some (record {
                status = row.status;
                department_id = str h.to_dept;
                context_data = none;
              }))
    unfolding handover_of apply_change
    reassign_case-lands h row replied there = elim reassign_case-cases [
      | inl (same, unposted, idle) ↦ absurd (idle h replied)
      | inr (inl (same, unposted, idle)) ↦ absurd (idle h replied)
      | inr (inr (body, read, moves, dept, found, handed)) ↦
          let is_h : handover_of s W p db depts tenant req.id body deadline_from now (others w) dept
              ≡ h =
            ground (arith, replied, handed.replied) in
          let (went, left) = handed.wrote in
          rw (sym is_h) (
            (
              found.row,
              lock-found w req.id tenant found.row found.more found.read,
              found.unclosed,
              found.current,
            ),
            (handed.hitl, handed.hitls, handed.named, handed.enabled),
            (body, read, refl, moves),
            rw left (update-found (others w) req.id tenant _ row there went),
          )
    ]
