-- ===== src/Reviews/Steps.antt =====
-- The requests of one tenant that reassign, escalate or resolve cases, as the steps of a relation on
-- the tables, each run as a whole; verdicts are written through the core
-- service where there is one.
use aocs_compliance_svc.Common.{
  ℕ, ◌≡◌, refl, ap, ◌∙◌, ◌⊎◌, inl, inr, Bool, true, false, Option, some, Bool-cases, Option-cases,
  arith,
}
use aocs_compliance_svc.Text.{Text, eq_text}
use aocs_compliance_svc.Text.Laws.{eq_text_sound}
use aocs_compliance_svc.Cases.Store.{str}
use aocs_compliance_svc.Departments.Settings.{Services}
use aocs_compliance_svc.Reviews.Store.{
  Case, Change, VerdictEvent, handover, apply_change, escalated, Database, Observed,
}
use aocs_compliance_svc.Reviews.Reassign.{ReassignRequest, Departments, Policies, reassign_case}
use aocs_compliance_svc.Reviews.Reassign.Race.{reassign_case-cases}
use aocs_compliance_svc.Reviews.Escalate.{EscalateRequest, escalate_case, case_id_of}
use aocs_compliance_svc.Reviews.Escalate.Laws.{Raised, escalate_case-Raised}
use aocs_compliance_svc.Reviews.Bulk.{
  Core, BulkBody, BulkRequest, is_verdict, write_verdict, post_verdict, resolve_bulk,
}
use aocs_compliance_svc.Reviews.Bulk.Laws.{Kept}
use aocs_compliance_svc.Reviews.Bulk.Replies.{resolve_bulk-bounds, resolve_bulk-Decided}

-- The core service reads and writes the cases of the database: a write that fails changes nothing,
-- one that goes through changes its case alone, and an event changes no case.
pub record Serves {W F : Type 0} (core : Core W F) (find : W → Text → Text → Option (Case F))
    : Type 0 where
  pub patch-found :
      (w : W) (tenant id : Text) (c : Change F) (row : Case F)
      → find w id tenant ≡ some row
      → (core.patch_case w tenant id c).1 ≡ true
      → find (core.patch_case w tenant id c).0 id tenant ≡ some (apply_change c row)
  pub patch-others :
      (w : W) (tenant id : Text) (c : Change F) (j : Text)
      → eq_text id j ≡ false
      → find (core.patch_case w tenant id c).0 j tenant ≡ find w j tenant
  pub patch-failed :
      (w : W) (tenant id : Text) (c : Change F)
      → (core.patch_case w tenant id c).1 ≡ false
      → (core.patch_case w tenant id c).0 ≡ w
  pub event-found :
      (w : W) (e : VerdictEvent) (id tenant : Text)
      → find (core.post_event w e).0 id tenant ≡ find w id tenant

module _ (s : Services) (W : Type 0) where
  open s use {Float}

  module _ (db : Database W Float) (core : Option (Core W Float)) (tenant : Text) where
    pub data Step (w u : W) : Type 0 where
      reassign :
          (p : Policies Float) (depts : Departments W Float) (req : ReassignRequest)
          (deadline_from now : ℕ)
          → req.tenant ≡ some tenant
          → u ≡ (reassign_case s W p (some db) depts req deadline_from now (λ w. w) w).world
          → Step w u
      escalate :
          (req : EscalateRequest) (now : Text)
          → req.tenant ≡ some tenant
          → u ≡ (escalate_case (some db) req now w).world
          → Step w u
      resolve :
          (req : BulkRequest) (body : BulkBody) (now : Text)
          → req.tenant ≡ some tenant
          → req.body ≡ some body
          → u ≡ (resolve_bulk (some db) core req now w).0
          → Step w u

    pub data Reach (w : W) : W → Type 0 where
      here : Reach w w
      next : {t u : W} → Reach w t → Step t u → Reach w u

    module _ (obs : Observed W Float db)
        (served : (c : Core W Float) → core ≡ some c → Serves c obs.find) where
      open obs use {find, update-found, update-others, update-failed, post-found}

      -- A case that is there, with the status of another one or a verdict.
      abbrev pub Follows : Case Float → W → Text → Type 0
      Follows before u j =
          (after : Case Float) × (find u j tenant ≡ some after)
          × ((after.status ≡ before.status)
              ⊎ ((v : Text) × (is_verdict v ≡ true) × (after.status ≡ str v)))

      abbrev write : W → Text → Change Float → W × Bool
      write = write_verdict core db tenant

      write-found :
          (w : W) (id : Text) (c : Change Float) (row : Case Float)
          → find w id tenant ≡ some row
          → (write w id c).1 ≡ true
          → find (write w id c).0 id tenant ≡ some (apply_change c row)
      unfolding write_verdict
      write-found w id c row there went = elim (Option-cases core) [
        | inl off ↦
            rw (write_verdict, off)
              (update-found w id tenant c row there (rw (write_verdict, off) at went))
        | inr (k, on) ↦
            rw (write_verdict, on)
              ((served k on).patch-found w tenant id c row there (rw (write_verdict, on) at went))
      ]

      write-others :
          (w : W) (id : Text) (c : Change Float) (j : Text)
          → eq_text id j ≡ false
          → find (write w id c).0 j tenant ≡ find w j tenant
      unfolding write_verdict
      write-others w id c j apart = elim (Option-cases core) [
        | inl off ↦ rw (write_verdict, off) (update-others w id tenant c j tenant apart)
        | inr (k, on) ↦ rw (write_verdict, on) ((served k on).patch-others w tenant id c j apart)
      ]

      write-failed :
          (w : W) (id : Text) (c : Change Float) → (write w id c).1 ≡ false → (write w id c).0 ≡ w
      unfolding write_verdict
      write-failed w id c lost = elim (Option-cases core) [
        | inl off ↦
            rw (write_verdict, off) (update-failed w id tenant c (rw (write_verdict, off) at lost))
        | inr (k, on) ↦
            rw (write_verdict, on)
              ((served k on).patch-failed w tenant id c (rw (write_verdict, on) at lost))
      ]

      event-found :
          (w : W) (e : VerdictEvent) (id : Text)
          → find (post_verdict core db tenant w e).0 id tenant ≡ find w id tenant
      unfolding post_verdict
      event-found w e id = elim (Option-cases core) [
        | inl off ↦ rw (post_verdict, off) (post-found w e id tenant)
        | inr (k, on) ↦ rw (post_verdict, on) ((served k on).event-found w e id tenant)
      ]

      unfoldable stores-Kept : Kept W Float write (post_verdict core db tenant)
      stores-Kept = record {
        find = λ w id. find w id tenant;
        write-here = write-found;
        write-others = write-others;
        write-failed = write-failed;
        post-found = event-found;
      }

      handover-Follows :
          (w : W) (id j d deadline context t : Text) (before : Case Float)
          → find w j tenant ≡ some before
          → let run = db.update_case w id tenant (handover d deadline context t) in
            run.1 ≡ true → Follows before run.0 j
      unfolding apply_change
      handover-Follows w id j d deadline context t before there went =
          elim (Bool-cases (eq_text id j)) [
            | inl same ↦ rw (eq_text_sound id j same) (
              apply_change (handover d deadline context t) before,
              update-found w j tenant _ before there (rw (eq_text_sound id j same) at went),
              inl refl,
            )
            | inr apart ↦ (before, update-others w id tenant _ j tenant apart ∙ there, inl refl)
          ]

      still-Follows :
          (w u : W) (j : Text) (before : Case Float)
          → find w j tenant ≡ some before
          → find u j tenant ≡ find w j tenant
          → Follows before u j
      still-Follows w u j before there same = (before, same ∙ there, inl refl)

      escalated-is_verdict : is_verdict escalated ≡ true
      unfolding is_verdict eq_text
      escalated-is_verdict = refl

      Raised-Follows :
          (id by reason now : Text) (w u : W) (j : Text) (before : Case Float)
          → find w j tenant ≡ some before
          → Raised db obs id tenant by reason now w u
          → Follows before u j
      Raised-Follows id by reason now w u j before there raised = elim (Bool-cases (eq_text id j)) [
        | inl same ↦
            let left = rw (eq_text_sound id j same) at raised.left in
            (_, left, inr (escalated, escalated-is_verdict, refl))
        | inr apart ↦ still-Follows w u j before there (raised.untouched j apart)
      ]

      Step-Follows :
          (w u : W) (j : Text) (before : Case Float)
          → find w j tenant ≡ some before
          → Step w u
          → Follows before u j
      unfolding stores-Kept
      Step-Follows w u j before there (reassign p depts req dl now e same) =
          elim (reassign_case-cases s W p db depts req dl now (λ w. w) w obs tenant e) [
            | inl (still, unposted, idle) ↦
                still-Follows w u j before there (ap (λ w. find w j tenant) (same ∙ still))
            | inr (inl (still, unposted, idle)) ↦
                still-Follows w u j before there (ap (λ w. find w j tenant) (same ∙ still))
            | inr (inr (body, read, moves, dept, found, handed)) ↦
                let (went, left) = handed.wrote in
                rw (same ∙ left) (handover-Follows w req.id j _ _ _ _ before there went)
          ]
      Step-Follows w u j before there (escalate req now e same) =
          elim (escalate_case-Raised db obs req now w) [
            | inl (idle, still) ↦
                still-Follows w u j before there (ap (λ w. find w j tenant) (same ∙ still))
            | inr (ended, (tenant', e', raised)) ↦
                let t : tenant' ≡ tenant = ground (arith, e, e') in
                rw same (
                  Raised-Follows (case_id_of req) req.user_id req.reason now w _ j before there
                    (rw t at raised))
          ]
      Step-Follows w u j before there (resolve req body now e e' same) =
          elim (resolve_bulk-bounds core db req now w tenant body e e') [
            | inl (still, idle) ↦
                still-Follows w u j before there (ap (λ w. find w j tenant) (same ∙ still))
            | inr (r, said, ids, some_ids, few, total, sum, good) ↦
                elim (resolve_bulk-Decided core db req now w tenant body e e' stores-Kept r j
                  said) [
                    | inl (at, decides) ↦
                        rw same (_, decides before there, inr (body.verdict, good, refl))
                    | inr (never, still) ↦
                        still-Follows w u j before there (ap (λ w. find w j tenant) same ∙ still)
                  ]
          ]

      -- A case that is in the tables stays there through any number of requests of its tenant to
      -- reassign, to escalate and to resolve cases, run one after the other, and has the status
      -- that it had at first or one of APPROVED, REJECTED and ESCALATED; whether verdicts are written
      -- through the core service or on the database, where nobody else writes and the core service
      -- reads and writes the cases of the database.
      pub Reach-Follows :
          (w u : W) (j : Text) (before : Case Float)
          → find w j tenant ≡ some before
          → Reach w u
          → Follows before u j
      Reach-Follows w u j before there here = (before, there, inl refl)
      Reach-Follows w u j before there (next {t = t} run step) =
          let (mid, found, status) = Reach-Follows w t j before there run in
          let (after, found', status') = Step-Follows t u j mid found step in
          elim status' [
            | inl same ↦ elim status [
              | inl same' ↦ (after, found', inl (same ∙ same'))
              | inr (v, good, is_v) ↦ (after, found', inr (v, good, same ∙ is_v))
            ]
            | inr decided ↦ (after, found', inr decided)
          ]
