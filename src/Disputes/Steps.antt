-- ===== src/Disputes/Steps.antt =====
-- The requests about disputes as steps, and the states that a dispute goes through.
use aocs_compliance_svc.Common.{
  ◌≡◌, refl, sym, ap, ◌∙◌, ◌⊎◌, inl, inr, true, false, ◌||◌, Option, none, some, is_empty,
  Bool-cases, arith,
}
use aocs_compliance_svc.Text.{Text, eq_text}
use aocs_compliance_svc.Text.Laws.{eq_text_sound}
use aocs_compliance_svc.Disputes.{
  DisputeRow, Database, CreateBody, ResolveBody, status_open, status_withdrawn, is_resolution,
  create_dispute, resolve_dispute, delete_dispute,
}
use aocs_compliance_svc.Disputes.Laws.{Observed, resolve_dispute-open, delete_dispute-cases}

module _ {W F R : Type 0} (db : Database W F R) (obs : Observed W F R db) where
  open obs use {status_of, insert-others}

  create_dispute-others :
      (tenant : Text) (body : Option CreateBody) (id now : Text) (w : W) (j : Text)
      → eq_text id j ≡ false
      → status_of (create_dispute (some db) (some tenant) body id now w).0 j tenant
        ≡ status_of w j tenant
  unfolding create_dispute
  create_dispute-others tenant none id now w j apart = refl
  create_dispute-others tenant (some body) id now w j apart =
      elim (Bool-cases (is_empty body.case_id || is_empty body.reason)) [
        | inl lacks ↦ rw (create_dispute, lacks) refl
        | inr given ↦
            let row : DisputeRow = record {
              dispute_id = id;
              tenant_id = tenant;
              case_id = body.case_id;
              agent_id = body.agent_id;
              reason = body.reason;
              evidence_url = body.evidence_url;
              status = status_open;
              created_at = now;
            } in
            elim (Bool-cases (db.insert_dispute w row).1) [
              | inl went ↦ rw (create_dispute, given, went) (insert-others w row j tenant apart)
              | inr lost ↦ rw (create_dispute, given, lost) (insert-others w row j tenant apart)
            ]
      ]

  -- The requests of a tenant as steps; a new dispute has an id that the tenant has not.
  pub data Step (tenant : Text) (w u : W) : Type 0 where
    create :
        (body : Option CreateBody) (id now : Text)
        → status_of w id tenant ≡ none
        → u ≡ (create_dispute (some db) (some tenant) body id now w).0
        → Step tenant w u
    resolve :
        (id : Text) (body : Option ResolveBody) (now : Text)
        → u ≡ (resolve_dispute (some db) (some tenant) id body now w).0
        → Step tenant w u
    withdraw :
        (id now : Text) → u ≡ (delete_dispute (some db) (some tenant) id now w).0 → Step tenant w u

  pub data Reach (tenant : Text) (w : W) : W → Type 0 where
    here : Reach tenant w w
    next : {t u : W} → Reach tenant w t → Step tenant t u → Reach tenant w u

  -- A status that may follow another.
  abbrev pub MayFollow : Text → Text → Type 0
  MayFollow before after =
      (after ≡ before)
      ⊎ (((before ≡ status_open) × (is_resolution after ≡ true)) ⊎ (after ≡ status_withdrawn))

  Step-MayFollow :
      (tenant : Text) (w u : W) (j before : Text)
      → status_of w j tenant ≡ some before
      → Step tenant w u
      → (after : Text) × (status_of u j tenant ≡ some after) × MayFollow before after
  Step-MayFollow tenant w u j before there (create body id now fresh same) =
      let apart : eq_text id j ≡ false = elim (Bool-cases (eq_text id j)) [
        | inr apart ↦ apart
        | inl equal ↦ absurd (let fresh = rw (eq_text_sound id j equal) at fresh in cc)
      ] in
      (
        before,
        ap (λ w. status_of w j tenant) same
            ∙ create_dispute-others tenant body id now w j apart
            ∙ there,
        inl refl,
      )
  Step-MayFollow tenant w u j before there (resolve id body now same) =
      elim (resolve_dispute-open db obs tenant id body now w) [
        | inl (refused, still) ↦
            (before, ap (λ w. status_of w j tenant) (same ∙ still) ∙ there, inl refl)
        | inr (v, replied, good, was, is, others) ↦ elim (Bool-cases (eq_text id j)) [
          | inr apart ↦
              (before, ap (λ w. status_of w j tenant) same ∙ others j apart ∙ there, inl refl)
          | inl equal ↦
              let e = eq_text_sound id j equal in
              let was = rw e at was in
              let is_open : before ≡ status_open = ground (arith, was, there) in
              (
                v,
                ap (λ i. status_of u i tenant) (sym e)
                    ∙ (ap (λ w. status_of w id tenant) same ∙ is),
                inr (inl (is_open, good)),
              )
        ]
      ]
  Step-MayFollow tenant w u j before there (withdraw id now same) =
      elim (delete_dispute-cases db obs tenant id now w) [
        | inl still ↦ (before, ap (λ w. status_of w j tenant) (same ∙ still) ∙ there, inl refl)
        | inr (is, others) ↦ elim (Bool-cases (eq_text id j)) [
          | inr apart ↦
              (before, ap (λ w. status_of w j tenant) same ∙ others j apart ∙ there, inl refl)
          | inl equal ↦
              let e = eq_text_sound id j equal in
              (
                status_withdrawn,
                ap (λ i. status_of u i tenant) (sym e)
                    ∙ (ap (λ w. status_of w id tenant) same ∙ is),
                inr (inr refl),
              )
        ]
      ]

  MayFollow-trans : (a b c : Text) → MayFollow a b → MayFollow b c → MayFollow a c
  unfolding is_resolution eq_text
  MayFollow-trans a b c ab (inl e) = rw e ab
  MayFollow-trans a b c ab (inr (inr e)) = inr (inr e)
  MayFollow-trans a b c (inl e) (inr (inl (was, good))) = inr (inl (sym e ∙ was, good))
  MayFollow-trans a b c (inr (inl (was, good'))) (inr (inl (is, good))) = inr (inl (was, good))
  MayFollow-trans a b c (inr (inr e)) (inr (inl (is, good))) = absurd (cc (e, is))

  -- A dispute that is there stays there through any number of requests of its tenant to create, to
  -- resolve and to withdraw disputes, run one after the other, and keeps its status, unless it was
  -- OPEN and has been resolved, or it has been withdrawn, which a resolved one may be as well.
  pub Reach-MayFollow :
      (tenant : Text) (w u : W) (j before : Text)
      → status_of w j tenant ≡ some before
      → Reach tenant w u
      → (after : Text) × (status_of u j tenant ≡ some after) × MayFollow before after
  Reach-MayFollow tenant w u j before there here = (before, there, inl refl)
  Reach-MayFollow tenant w u j before there (next {t = t} run step) =
      let (mid, found, follows) = Reach-MayFollow tenant w t j before there run in
      let (after, found', follows') = Step-MayFollow tenant t u j mid found step in
      (after, found', MayFollow-trans before mid after follows follows')
