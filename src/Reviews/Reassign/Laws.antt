-- ===== src/Reviews/Reassign/Laws.antt =====
-- When HandleReassignCase hands a case over, and what it has seen by then.
use aocs_compliance_svc.Common.{
  ℕ, ◌≡◌, ◌≢◌, refl, ap, sym, ◌∙◌, ◌⊎◌, inl, inr, true, false, List, [], ◌∷◌, Option, none, some,
  Bool-cases, Option-cases, arith,
}
use aocs_compliance_svc.Text.{Text}
use aocs_compliance_svc.Departments.Settings.{Services, string_of}
use aocs_compliance_svc.Reviews.Store.{Change, Case, handover, Database, Observed}
use aocs_compliance_svc.Reviews.Reassign.{
  ReassignReply, answer, level_of, ReassignBody, Feature, Departments, Policies, Handover,
  reassigned, Reassigned, Current, unset, is_terminal, reply_of_failure, is_disabled, lock_body,
  handover_of, hand_over, to_department, reassign_locked,
}

reply_of_failure-other : (e : Text) (h : Handover) → reply_of_failure e ≢ reassigned h
unfolding reply_of_failure
reply_of_failure-other e h same = absurd (ground (arith, same))

module _ (s : Services) (W : Type 0) where
  open s use {Float, format_time}

  -- The body of the transaction has found a case that is not closed.
  pub record Open (db : Database W Float) (w : W) (id tenant : Text) (dept : Text) : Type 0 where
    pub row : Case Float
    pub more : List (Case Float)
    pub read : db.lock_case w id tenant ≡ some (row ∷ more)
    pub unclosed : is_terminal (string_of row.status) ≡ false
    pub current : string_of row.department_id ≡ dept

  -- A call that has changed nothing.
  abbrev pub IsIdle : W → Reassigned W → Type 0
  IsIdle w res = (res.world ≡ w) × (res.tasks ≡ []) × ((h : Handover) → res.reply ≢ reassigned h)

  pub answer-IsIdle :
      (w : W) (reply : ReassignReply)
      → ((h : Handover) → reply ≢ reassigned h)
      → IsIdle w (answer s W w reply)
  unfolding answer
  answer-IsIdle w reply h = (refl, refl, h)

  lock_body-Open :
      (db : Database W Float) (id tenant : Text) (vars : Current) (w : W)
      → let run = lock_body s W db id tenant vars w in
        run.failure ≡ none → (run.world ≡ w) × Open db w id tenant run.vars.current_dept
  unfolding lock_body
  lock_body-Open db id tenant vars w h = elim (Option-cases (db.lock_case w id tenant)) [
    | inl e ↦ absurd (let h = rw (lock_body, e) at h in cc)
    | inr ([], e) ↦ absurd (let h = rw (lock_body, e) at h in cc)
    | inr (row ∷ more, e) ↦ elim (Bool-cases (is_terminal (string_of row.status))) [
      | inl closed ↦ absurd (let h = rw (lock_body, e, closed) at h in cc)
      | inr open_case ↦
          rw (lock_body, e)
            (
              refl,
              record { row = row; more = more; read = e; unclosed = open_case; current = refl },
            )
    ]
  ]

  module _ (p : Policies Float) (db : Database W Float) (depts : Departments W Float)
      (tenant id : Text) (body : ReassignBody) (deadline_from now : ℕ)
      (obs : Observed W Float db) where
    open obs use {committed-or_failed, update-failed}

    -- A call that hands the case over, from a department, in a world.
    pub record Handed (dept : Text) (w : W) (res : Reassigned W) : Type 0 where
      pub hitl : Option Feature
      pub hitls : List (Option Feature)
      pub context : Text
      pub named : depts.query_department w body.to_dept_id tenant ≡ some (hitl ∷ hitls)
      pub enabled : is_disabled hitl ≡ false
      pub wrote :
          let run = db.update_case w id tenant (
            handover body.to_dept_id
              (handover_of s W p db depts tenant id body deadline_from now w dept).new_sla_deadline
              context
              (format_time now)) in
          (run.1 ≡ true) × (res.world ≡ run.0)
      pub replied :
          res.reply
          ≡ reassigned (handover_of s W p db depts tenant id body deadline_from now w dept)

    hand_over-cases :
        (hitl : Option Feature) (hitls : List (Option Feature)) (dept : Text) (w : W)
        → depts.query_department w body.to_dept_id tenant ≡ some (hitl ∷ hitls)
        → is_disabled hitl ≡ false
        → let res = hand_over s W p db depts tenant id body deadline_from now dept w in
          IsIdle w res ⊎ Handed dept w res
    unfolding hand_over
    hand_over-cases hitl hitls dept w named enabled =
        elim (Option-cases (
          p.handover_context dept body.to_dept_id (format_time now) body.reason
            (level_of body.escalation_level))) [
              | inl lost ↦ rw (hand_over, lost) (inl (answer-IsIdle w _ (λ h e. cc)))
              | inr (context, known) ↦
                  let c : Change Float =
                    handover body.to_dept_id
                      (handover_of s W p db depts tenant id body deadline_from now w
                        dept).new_sla_deadline
                      context (format_time now) in
                  elim (Bool-cases (db.update_case w id tenant c).1) [
                    | inl went ↦
                        rw (hand_over, known, went)
                          (inr (record {
                            hitl = hitl;
                            hitls = hitls;
                            context = context;
                            named = named;
                            enabled = enabled;
                            wrote = (went, refl);
                            replied = refl;
                          }))
                    | inr failed ↦
                        rw (hand_over, known, failed, update-failed w id tenant c failed)
                          (inl (answer-IsIdle w _ (λ h e. cc)))
                  ]
            ]

    to_department-cases :
        (dept : Text) (w : W)
        → let res = to_department s W p db depts tenant id body deadline_from now dept w in
          IsIdle w res ⊎ Handed dept w res
    unfolding to_department
    to_department-cases dept w =
        elim (Option-cases (depts.query_department w body.to_dept_id tenant)) [
          | inl lost ↦ rw (to_department, lost) (inl (answer-IsIdle w _ (λ h e. cc)))
          | inr ([], found) ↦ rw (to_department, found) (inl (answer-IsIdle w _ (λ h e. cc)))
          | inr (hitl ∷ hitls, found) ↦ elim (Bool-cases (is_disabled hitl)) [
            | inl off ↦ rw (to_department, found, off) (inl (answer-IsIdle w _ (λ h e. cc)))
            | inr on ↦ rw (to_department, found, on) (hand_over-cases hitl hitls dept w found on)
          ]
        ]

    -- Either nothing has been written, or the case was open at first and is handed over in the
    -- world that the others leave.
    abbrev pub Outcome : (W → W) → W → Reassigned W → Type 0
    Outcome others w res =
        IsIdle w res
        ⊎ (IsIdle (others w) res
            ⊎ ((dept : Text) × Open db w id tenant dept × Handed dept (others w) res))

    pub reassign_locked-cases :
        (others : W → W) (w : W)
        → Outcome others w
            (reassign_locked s W p db depts tenant id body deadline_from now others w)
    unfolding reassign_locked
    reassign_locked-cases others w =
        let run = db.with_transaction w unset (lock_body s W db id tenant unset) in
        elim (committed-or_failed w unset (lock_body s W db id tenant unset)) [
          | inl (same, fine) ↦
              let (still, found) = lock_body-Open db id tenant unset w fine in
              let fine : run.failure ≡ none = ap (λ r. r.failure) same ∙ fine in
              let still : run.world ≡ w = ap (λ r. r.world) same ∙ still in
              elim (to_department-cases run.vars.current_dept (others w)) [
                | inl idle ↦ rw (reassign_locked, fine, still) (inr (inl idle))
                | inr handed ↦
                    rw (reassign_locked, fine, still)
                      (inr (inr (_, rw (sym same) at found, handed)))
              ]
          | inr (same, failed, why) ↦ elim (Option-cases run.failure) [
            | inl none_failed ↦ absurd (failed none_failed)
            | inr (e, text) ↦
                rw (reassign_locked, text, same)
                  (inl (answer-IsIdle w _ (reply_of_failure-other e)))
          ]
        ]
