-- ===== src/Reviews/Escalate/Laws.antt =====
-- What HandleEscalateCase does to a case, and what it does the second time.
use aocs_compliance_svc.Common.{
  ◌≡◌, ◌≢◌, refl, ap, sym, ◌∙◌, ◌⊎◌, inl, inr, true, false, [], ◌∷◌, Option, none, some, is_empty,
  Bool-cases, Option-cases, arith,
}
use aocs_compliance_svc.Text.{Text, codes, eq_text}
use aocs_compliance_svc.Text.Laws.{eq_text_refl}
use aocs_compliance_svc.Text.Maps.{Map, lookup, insert, lookup-insert_ne, lookup-insert_self}
use aocs_compliance_svc.Cases.Store.{Cell, str}
use aocs_compliance_svc.Departments.Settings.{string_of}
use aocs_compliance_svc.Reviews.Store.{
  Case, Change, escalation, Ran, Database, escalated, Observed, apply_change,
}
use aocs_compliance_svc.Reviews.Escalate.{
  kept_of, EscalateRequest, done, case_id_of, context_of, reply_of_failure, escalate_row,
  escalate_body, escalate_case,
}

reply_of_failure-other : (e : Text) → reply_of_failure e ≢ done
unfolding reply_of_failure
reply_of_failure-other e h = absurd (ground (arith, h))

-- The context of an escalation has the time, the actor and the reason of it, and every other key as
-- before.
abbrev pub Extends :
    {F : Type 0} → Option (Map (Cell F)) → Text → Text → Text → Map (Cell F) → Type 0
Extends found now by reason m =
    (lookup (codes "escalated_at") m ≡ some (str now))
    × (lookup (codes "escalated_by") m ≡ some (str by))
    × (lookup (codes "escalation_reason") m ≡ some (str reason))
    × ((k : Text)
        → eq_text (codes "escalated_at") k ≡ false
        → eq_text (codes "escalated_by") k ≡ false
        → eq_text (codes "escalation_reason") k ≡ false
        → lookup k m ≡ lookup k (kept_of found))

context_of-Extends :
    {F : Type 0} (found : Option (Map (Cell F))) (now by reason : Text)
    → Extends found now by reason (context_of found now by reason)
unfolding context_of eq_text
context_of-Extends {F = F} found now by reason =
    let at : Text = codes "escalated_at" in
    let actor : Text = codes "escalated_by" in
    let why : Text = codes "escalation_reason" in
    let m1 : Map (Cell F) = insert at (str now) (kept_of found) in
    let m2 : Map (Cell F) = insert actor (str by) m1 in
    (
      lookup-insert_ne why at (str reason) m2 refl
          ∙ lookup-insert_ne actor at (str by) m1 refl
          ∙ lookup-insert_self at (str now) (kept_of found),
      lookup-insert_ne why actor (str reason) m2 refl ∙ lookup-insert_self actor (str by) m1,
      lookup-insert_self why (str reason) m2,
      λ k h h' h''.
          lookup-insert_ne why k (str reason) m2 h''
          ∙ lookup-insert_ne actor k (str by) m1 h'
          ∙ lookup-insert_ne at k (str now) (kept_of found) h,
    )

unraised-escalated :
    {F : Type 0} (row' row : Case F)
    → some row' ≡ some row
    → row.status ≡ str escalated
    → eq_text (string_of row'.status) escalated ≡ true
unfolding string_of
unraised-escalated row' row same status =
    let same : row' ≡ row = ground (arith, same) in
    let raised : row'.status ≡ str escalated = ap (λ r. r.status) same ∙ status in
    rw raised (eq_text_refl escalated)

module _ {W F : Type 0} (db : Database W F) (obs : Observed W F db) where
  open obs use {find, committed-or_failed, lock-found, update-found, update-others}

  -- What has happened to a case that has been escalated.
  pub record Raised (id tenant by reason now : Text) (w w' : W) : Type 0 where
    pub row : Case F
    pub context : Map (Cell F)
    pub found : find w id tenant ≡ some row
    pub unraised : eq_text (string_of row.status) escalated ≡ false
    pub extended : Extends row.context_data now by reason context
    pub left :
        find w' id tenant
        ≡ some (record {
          status = str escalated;
          department_id = row.department_id;
          context_data = some context;
        })
    pub untouched : (j : Text) → eq_text id j ≡ false → find w' j tenant ≡ find w j tenant

  module _ (id tenant by reason now : Text) where
    escalate_body-Raised :
        (w : W)
        → let run = escalate_body db id tenant by reason now w in
          run.failure ≡ none → Raised id tenant by reason now w run.world
    unfolding escalate_body escalate_row apply_change
    escalate_body-Raised w h = elim (Option-cases (db.lock_case w id tenant)) [
      | inl e ↦ absurd (let h = rw (escalate_body, e) at h in cc)
      | inr ([], e) ↦ absurd (let h = rw (escalate_body, e) at h in cc)
      | inr (row ∷ more, e) ↦ elim (Bool-cases (eq_text (string_of row.status) escalated)) [
        | inl same ↦ absurd (let h = rw (escalate_body, e, escalate_row, same) at h in cc)
        | inr other ↦
            let c : Change F = escalation (context_of row.context_data now by reason) now in
            elim (Bool-cases (db.update_case w id tenant c).1) [
              | inr lost ↦
                  absurd (let h = rw (escalate_body, e, escalate_row, other, lost) at h in cc)
              | inl went ↦
                  rw (escalate_body, e, escalate_row, other, went)
                    (record {
                      row = row;
                      context = context_of row.context_data now by reason;
                      found = lock-found w id tenant row more e;
                      unraised = other;
                      extended = context_of-Extends row.context_data now by reason;
                      left =
                          update-found w id tenant c row (lock-found w id tenant row more e) went;
                      untouched = λ j apart. update-others w id tenant c j tenant apart;
                    })
            ]
      ]
    ]

  -- A request that is answered with an escalation has found the case with a status other than
  -- ESCALATED, a terminal one included, and leaves it with the status ESCALATED, its department, and
  -- its context extended by the time, the actor and the reason; any other request changes nothing.
  pub escalate_case-Raised :
      (req : EscalateRequest) (now : Text) (w : W)
      → let res = escalate_case (some db) req now w in
        ((res.reply ≢ done) × (res.world ≡ w))
        ⊎ ((res.reply ≡ done)
            × ((tenant : Text) × (req.tenant ≡ some tenant)
                × Raised (case_id_of req) tenant req.user_id req.reason now w res.world))
  unfolding escalate_case case_id_of
  escalate_case-Raised req now w = elim (Bool-cases (is_empty (case_id_of req))) [
    | inl lost ↦ rw (escalate_case, lost) (inl (λ h. cc, refl))
    | inr named ↦ elim (Option-cases req.tenant) [
      | inl lost ↦ rw (escalate_case, named, lost) (inl (λ h. cc, refl))
      | inr (tenant, e) ↦
          let body : W → Ran W (Unit {0}) =
            escalate_body db (case_id_of req) tenant req.user_id req.reason now in
          elim (committed-or_failed w tt body) [
            | inl (same, fine) ↦
                rw (escalate_case, named, e, same, fine)
                  (inr (
                    refl,
                    (
                      tenant,
                      refl,
                      escalate_body-Raised (case_id_of req) tenant req.user_id req.reason now w
                          fine,
                    ),
                  ))
            | inr (same, failed, why) ↦
                elim (Option-cases (db.with_transaction w tt body).failure) [
                  | inl fine ↦ absurd (failed fine)
                  | inr (text, said) ↦
                      rw (escalate_case, named, e, said, same)
                        (inl (reply_of_failure-other text, refl))
                ]
          ]
    ]
  ]

  -- Once a case has been escalated, a request to escalate it again changes nothing.
  pub escalate_case_twice :
      (req again : EscalateRequest) (now later : Text) (w : W)
      → let first = escalate_case (some db) req now w in
        first.reply ≡ done
        → case_id_of again ≡ case_id_of req
        → again.tenant ≡ req.tenant
        → let second = escalate_case (some db) again later first.world in
          (second.reply ≢ done) × (second.world ≡ first.world)
  escalate_case_twice req again now later w h same_case same_tenant =
      let first = escalate_case (some db) req now w in
      elim (escalate_case-Raised req now w) [
        | inl (other, same) ↦ absurd (other h)
        | inr (ended, (tenant, e, raised)) ↦ elim (escalate_case-Raised again later first.world) [
          | inl idle ↦ idle
          | inr (ended', (tenant', e', raised')) ↦
              let t : tenant' ≡ tenant = ground (arith, e, e', same_tenant) in
              let found = rw (same_case, t) at raised'.found in
              absurd (
                cc (
                  raised'.unraised,
                  unraised-escalated raised'.row _ (sym found ∙ raised.left) refl,
                ))
        ]
      ]
