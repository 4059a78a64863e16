-- ===== src/Propagation/Refinement.antt =====
-- The deliveries of messages, in any order and with repetitions, and what they are meant to do.
use aocs_compliance_svc.Common.{
  ℕ, ◌≡◌, refl, ◌⊎◌, inl, inr, Bool, true, false, ◌&&◌, List, [], ◌∷◌, is_empty, any, All,
  and-eq-true, Bool-cases, arith,
}
use aocs_compliance_svc.Text.{eq_text}
use aocs_compliance_svc.Text.Laws.{eq_text_sound}
use aocs_compliance_svc.Propagation.Store.{LogRow, Database, Observed}
use aocs_compliance_svc.Propagation.Consumers.{
  Services, Message, Verdict, ack, nack, Topic, tenant_provisioned, tenant_deleted,
  agent_registered, consume,
}
use aocs_compliance_svc.Propagation.Once.{
  Settled, consume-Settled, Settled-consume, consume-settles,
}

Verdict-cases : (v : Verdict) → (v ≡ ack) ⊎ (v ≡ nack)
Verdict-cases ack = inl refl
Verdict-cases nack = inr refl

-- A message of a topic, with the readings of the clock that its handler makes.
pub record Delivery : Type 0 where
  pub topic : Topic
  pub message : Message
  pub now : ℕ
  pub later : ℕ

unfoldable pub eq_topic : Topic → Topic → Bool
eq_topic tenant_provisioned t = elim t [ tenant_provisioned ↦ true | _ ↦ false ]
eq_topic tenant_deleted t = elim t [ tenant_deleted ↦ true | _ ↦ false ]
eq_topic agent_registered t = elim t [ agent_registered ↦ true | _ ↦ false ]

-- The same message of the same topic. Bytes are compared as the texts are.
unfoldable pub is_same : Delivery → Delivery → Bool
is_same d e =
    eq_topic d.topic e.topic
    && (eq_text d.message.id e.message.id && eq_text d.message.data_bytes e.message.data_bytes)

eq_topic_sound : (t u : Topic) → eq_topic t u ≡ true → t ≡ u
unfolding eq_topic
eq_topic_sound tenant_provisioned u h = ground (arith, h)
eq_topic_sound tenant_deleted u h = ground (arith, h)
eq_topic_sound agent_registered u h = ground (arith, h)

module _ (s : Services) (W : Type 0) (db : Database W) where
  unfoldable pub consume_at : W → Delivery → W × Verdict
  consume_at w d = consume s W db d.topic w d.message d.now d.later

  -- The callbacks, one after the other.
  unfoldable pub deliver : W → List Delivery → W × List Verdict
  deliver w [] = (w, [])
  deliver w (d ∷ ds) =
      let (w', verdict) = consume_at w d in
      let (w'', verdicts) = deliver w' ds in (w'', verdict ∷ verdicts)

  -- The same, but a message that was acknowledged before is acknowledged without being handled.
  unfoldable pub deliver_once : List Delivery → W → List Delivery → W × List Verdict
  deliver_once acked w [] = (w, [])
  deliver_once acked w (d ∷ ds) = elim (any (is_same d) acked) [
    | true ↦ let (w', verdicts) = deliver_once acked w ds in (w', ack ∷ verdicts)
    | false ↦
        let (w', verdict) = consume_at w d in
        let acked : List Delivery = elim verdict [ ack ↦ d ∷ acked | nack ↦ acked ] in
        let (w'', verdicts) = deliver_once acked w' ds in (w'', verdict ∷ verdicts)
  ]

  module _ (obs : Observed W db)
      (reliable : (w : W) (row : LogRow) → (db.upsert_log w row).1 ≡ true) where
    abbrev AllSettled : W → List Delivery → Type 0
    AllSettled w ds = All (λ d. Settled s W db obs w d.topic d.message) ds

    AllSettled-consume :
        (w : W) (d : Delivery) (ds : List Delivery)
        → AllSettled w ds
        → AllSettled (consume_at w d).0 ds
    unfolding consume_at
    AllSettled-consume w d [] h = tt
    AllSettled-consume w d (e ∷ ds) (here, rest) = (
      Settled-consume s W db obs d.topic w d.message d.now d.later e.topic e.message here,
      AllSettled-consume w d ds rest,
    )

    Settled-any :
        (w : W) (d : Delivery) (ds : List Delivery)
        → AllSettled w ds
        → any (is_same d) ds ≡ true
        → Settled s W db obs w d.topic d.message
    unfolding is_same
    Settled-any w d [] h same = absurd cc
    Settled-any w d (e ∷ ds) (here, rest) same = elim (Bool-cases (is_same d e)) [
      | inr other ↦ Settled-any w d ds rest (ground (arith, same, other))
      | inl this ↦
          let (t, both) = and-eq-true _ _ this in
          let (i, b) = and-eq-true _ _ both in
          rw (eq_topic_sound d.topic e.topic t)
            (settled_at e here (eq_text_sound _ _ i) (eq_text_sound _ _ b))
    ]
      where
        settled_at :
            (e : Delivery)
            → Settled s W db obs w e.topic e.message
            → d.message.id ≡ e.message.id
            → d.message.data_bytes ≡ e.message.data_bytes
            → Settled s W db obs w e.topic d.message
        settled_at e here i b = rw (i, b) here

    deliver-once_from :
        (acked : List Delivery) (w : W) (ds : List Delivery)
        → AllSettled w acked
        → All (λ d. is_empty d.message.id ≡ false) ds
        → deliver w ds ≡ deliver_once acked w ds
    unfolding deliver deliver_once consume_at
    deliver-once_from acked w [] settled named = refl
    deliver-once_from acked w (d ∷ ds) settled (named, rest) =
        elim (Bool-cases (any (is_same d) acked)) [
          | inl seen ↦
              rw
                (
                  deliver_once,
                  seen,
                  consume-Settled s W db obs d.topic w d.message d.now d.later named
                      (Settled-any w d acked settled seen),
                  deliver-once_from acked w ds settled rest,
                )
                refl
          | inr fresh ↦ elim (Verdict-cases (consume_at w d).1) [
            | inl took ↦
                let settles =
                  consume-settles s W db obs reliable d.topic w d.message d.now d.later named
                    took in
                rw
                  (
                    deliver_once,
                    fresh,
                    took,
                    deliver-once_from (d ∷ acked) _ ds
                        (settles, AllSettled-consume w d acked settled) rest,
                  )
                  refl
            | inr refused ↦
                rw
                  (
                    deliver_once,
                    fresh,
                    refused,
                    deliver-once_from acked _ ds (AllSettled-consume w d acked settled) rest,
                  )
                  refl
          ]
        ]

    -- Delivering messages in any order, with any repetitions, leaves the tables as if a message that
    -- was acknowledged were not handled when it comes again, and gives the same answers; where the
    -- messages have ids, nobody else writes through the database, no read of the log fails, and the
    -- log's writes go through.
    pub deliver-deliver_once :
        (w : W) (ds : List Delivery)
        → All (λ d. is_empty d.message.id ≡ false) ds
        → deliver w ds ≡ deliver_once [] w ds
    deliver-deliver_once w ds named = deliver-once_from [] w ds tt named
