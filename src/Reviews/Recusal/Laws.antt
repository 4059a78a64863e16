-- ===== src/Reviews/Recusal/Laws.antt =====
-- What HandleGetRecusalLog gives after HandleRejectJuror.
use aocs_compliance_svc.Common.{
  ◌≡◌, refl, sym, ap, ◌∙◌, ◌⊎◌, inl, inr, true, List, [], ◌∷◌, Option, some, is_empty, Bool-cases,
  Option-cases, arith,
}
use aocs_compliance_svc.Text.{Text}
use aocs_compliance_svc.Reviews.Store.{recusal, Database}
use aocs_compliance_svc.Reviews.Recusal.{
  LogCell, text, other, Json, Logs, RecuseRequest, RecuseReply, recused, LogReply, recusals,
  recuse_id, juror_of, entries_of, reject_juror, get_recusal_log,
}

module _ (j : Json) where
  open j use {Entry, marshal, unmarshal}

  module _ {W F : Type 0} (db : Database W F) (logs : Logs W Entry) where
    -- A column that gives what was written in it: as the text, or as the value of the text, which is
    -- no array where the text is an object; and a text of an object gives no list of objects.
    pub record ReadBack : Type 0 where
      pub log-read :
          (w : W) (id tenant juror reason now : Text) (cell : LogCell Entry)
          (rows : List (LogCell Entry))
          → let run = db.update_case w id tenant (recusal (marshal juror reason now) now) in
            run.1 ≡ true
            → logs.query_log run.0 id tenant ≡ some (cell ∷ rows)
            → (cell ≡ text (marshal juror reason now)) ⊎ (cell ≡ other)
      pub unmarshal-marshal : (juror reason now : Text) → unmarshal (marshal juror reason now) ≡ []

    -- What has been written where a recusal is answered as one.
    record Written (req : RecuseRequest) (now : Text) (w : W) (res : W × RecuseReply) : Type 0 where
      pub tenant : Text
      pub juror : Text
      pub reason : Text
      pub known : req.tenant ≡ some tenant
      pub went :
          let run =
            db.update_case w (recuse_id req) tenant (recusal (marshal juror reason now) now) in
          (run.1 ≡ true) × (res.0 ≡ run.0)

    reject_juror-Written :
        (req : RecuseRequest) (now : Text) (w : W) (juror : Text)
        → let res = reject_juror j (some db) req now w in
          res.1 ≡ recused juror → Written req now w res
    unfolding reject_juror recuse_id
    reject_juror-Written req now w juror h = elim (Bool-cases (is_empty (recuse_id req))) [
      | inl lost ↦ absurd (let h = rw (reject_juror, lost) at h in cc)
      | inr named ↦ elim (Option-cases req.body) [
        | inl bad ↦ absurd (let h = rw (reject_juror, named, bad) at h in cc)
        | inr (body, read) ↦ elim (Option-cases req.tenant) [
          | inl lost ↦ absurd (let h = rw (reject_juror, named, read, lost) at h in cc)
          | inr (tenant, e) ↦
              let entry = marshal (juror_of req.user_id body) body.reason now in
              elim (Bool-cases (db.update_case w (recuse_id req) tenant (recusal entry now)).1) [
                | inr lost ↦ absurd (let h = rw (reject_juror, named, read, e, lost) at h in cc)
                | inl went ↦ record {
                  tenant = tenant;
                  juror = juror_of req.user_id body;
                  reason = body.reason;
                  known = e;
                  went = (went, rw (reject_juror, named, read, e, went) refl);
                }
              ]
        ]
      ]
    ]

    get_recusal_log-eq :
        (tenant id : Text) (w : W) (found : List Entry)
        → get_recusal_log j (some logs) (some tenant) id w ≡ recusals found
        → (cell : LogCell Entry) × (more : List (LogCell Entry)) × (logs.query_log w id tenant
            ≡ some (cell ∷ more))
          × (entries_of j cell ≡ found)
    unfolding get_recusal_log
    get_recusal_log-eq tenant id w found h = elim (Bool-cases (is_empty id)) [
      | inl lost ↦ absurd (let h = rw (get_recusal_log, lost) at h in cc)
      | inr named ↦ elim (Option-cases (logs.query_log w id tenant)) [
        | inl lost ↦ absurd (let h = rw (get_recusal_log, named, lost) at h in cc)
        | inr ([], none_found) ↦ absurd (let h = rw (get_recusal_log, named, none_found) at h in cc)
        | inr (cell ∷ more, read) ↦
            let h = rw (get_recusal_log, named, read) at h in (cell, more, read, ground (arith, h))
      ]
    ]

    -- After a recusal that is answered as one, the log of its case is never answered with an entry:
    -- a log that is found is empty, the recusals of before included.
    pub reject_juror-get_recusal_log :
        (back : ReadBack) (req : RecuseRequest) (now : Text) (w : W) (juror : Text)
        (found : List Entry)
        → let res = reject_juror j (some db) req now w in
          res.1 ≡ recused juror
          → get_recusal_log j (some logs) req.tenant (recuse_id req) res.0 ≡ recusals found
          → found ≡ []
    unfolding entries_of
    reject_juror-get_recusal_log back req now w juror found h h' =
        let wrote = reject_juror-Written req now w juror h in
        let (went, left) = wrote.went in
        let log : Option Text → W → LogReply Entry =
          λ tenant w'. get_recusal_log j (some logs) tenant (recuse_id req) w' in
        let res : W × RecuseReply = reject_juror j (some db) req now w in
        let h' =
          ap (λ w'. log (some wrote.tenant) w') (sym left)
          ∙ (ap (λ t. log t res.0) (sym wrote.known) ∙ h') in
        let (cell, more, read, e) = get_recusal_log-eq wrote.tenant (recuse_id req) _ found h' in
        elim (back.log-read w (recuse_id req) wrote.tenant wrote.juror wrote.reason now cell more
          went read) [
            | inl same ↦
                sym e
                ∙ ap (λ c. entries_of j c) same
                ∙ back.unmarshal-marshal wrote.juror wrote.reason now
            | inr same ↦ sym e ∙ ap (λ c. entries_of j c) same
          ]
