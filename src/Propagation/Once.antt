-- ===== src/Propagation/Once.antt =====
-- What the log of messages does for deliveries that are repeated.
use aocs_compliance_svc.Common.{
  ℕ, ◌≡◌, refl, ◌⊎◌, inl, inr, true, false, none, some, is_empty, if◌then◌else◌, Option-cases,
}
use aocs_compliance_svc.Text.{Text}
use aocs_compliance_svc.Text.Maps.{Map}
use aocs_compliance_svc.Cases.Store.{Cell}
use aocs_compliance_svc.Propagation.Store.{LogRow, Database, Observed}
use aocs_compliance_svc.Propagation.Consumers.{
  Services, Message, ack, nack, Topic, mark_processed, handle, consume,
}
use aocs_compliance_svc.Propagation.Handlers.{
  is_relevant, IsLogged, handle-irrelevant, handle-redelivered, mark_processed-keeps,
  is_redelivered-IsLogged, IsLogged-is_redelivered, handle-cases,
}

module _ (s : Services) (W : Type 0) (db : Database W) (obs : Observed W db) where
  open s use {Float, unmarshal}
  open obs use {log-here}

  -- A message that is delivered again does nothing: it is logged, or it never did anything.
  abbrev pub Settled : W → Topic → Message → Type 0
  Settled w topic m =
      (p : Map (Cell Float)) × (unmarshal m.data_bytes ≡ some p)
      × (IsLogged s W db obs w m.id ⊎ (is_relevant s W db obs topic p ≡ false))

  pub consume-bad :
      (topic : Topic) (w : W) (m : Message) (now later : ℕ)
      → unmarshal m.data_bytes ≡ none
      → consume s W db topic w m now later ≡ (w, nack)
  unfolding consume
  consume-bad topic w m now later bad = rw (consume, bad) refl

  pub consume-read :
      (topic : Topic) (w : W) (m : Message) (now later : ℕ) (p : Map (Cell Float))
      → unmarshal m.data_bytes ≡ some p
      → let (w', went) = handle s W db topic w m.id p now later in
        consume s W db topic w m now later ≡ (w', if went then ack else nack)
  unfolding consume
  consume-read topic w m now later p read = rw (consume, read) refl

  pub consume-Settled :
      (topic : Topic) (w : W) (m : Message) (now later : ℕ)
      → is_empty m.id ≡ false
      → Settled w topic m
      → consume s W db topic w m now later ≡ (w, ack)
  consume-Settled topic w m now later named (p, read, inl logged) =
      rw
        (
          consume-read topic w m now later p read,
          handle-redelivered s W db obs topic w m.id p now later
              (is_redelivered-IsLogged s W db obs w m.id named logged),
        )
        refl
  consume-Settled topic w m now later named (p, read, inr other) =
      rw
        (
          consume-read topic w m now later p read,
          handle-irrelevant s W db obs topic w m.id p now later other,
        )
        refl

  consume-keeps :
      (topic : Topic) (w : W) (m : Message) (now later : ℕ) (j : Text)
      → IsLogged s W db obs w j
      → IsLogged s W db obs (consume s W db topic w m now later).0 j
  consume-keeps topic w m now later j logged = elim (Option-cases (unmarshal m.data_bytes)) [
    | inl bad ↦ rw (consume-bad topic w m now later bad) logged
    | inr (p, read) ↦
        rw (consume-read topic w m now later p read)
          (elim (handle-cases s W db obs topic w m.id p now later) [
            | inl (same, why) ↦ rw same logged
            | inr (inl same) ↦ rw same logged
            | inr (inr (w', t, u, a, h, same, log)) ↦
                rw same
                  (mark_processed-keeps s W db obs w' m.id t u a h later j (rw (log j) logged))
          ])
  ]

  pub Settled-consume :
      (topic : Topic) (w : W) (m : Message) (now later : ℕ) (topic' : Topic) (m' : Message)
      → Settled w topic' m'
      → Settled (consume s W db topic w m now later).0 topic' m'
  Settled-consume topic w m now later topic' m' (p, read, inl logged) =
      (p, read, inl (consume-keeps topic w m now later m'.id logged))
  Settled-consume topic w m now later topic' m' (p, read, inr other) = (p, read, inr other)

  module _ (reliable : (w : W) (row : LogRow) → (db.upsert_log w row).1 ≡ true) where
    pub mark_processed-logs :
        (w : W) (id topic t a h : Text) (now : ℕ)
        → is_empty id ≡ false
        → IsLogged s W db obs (mark_processed s W db w id topic t a h now) id
    unfolding mark_processed
    mark_processed-logs w id topic t a h now named = rw named (log-here w _ (reliable w _))

    pub consume-settles :
        (topic : Topic) (w : W) (m : Message) (now later : ℕ)
        → is_empty m.id ≡ false
        → let (w', verdict) = consume s W db topic w m now later in
          verdict ≡ ack → Settled w' topic m
    consume-settles topic w m now later named h = elim (Option-cases (unmarshal m.data_bytes)) [
      | inl bad ↦ absurd (let h = rw (consume-bad topic w m now later bad) at h in cc)
      | inr (p, read) ↦ elim (handle-cases s W db obs topic w m.id p now later) [
        | inl (same, inl again) ↦ (
          p,
          read,
          inl (
              rw (consume-read topic w m now later p read, same)
                (IsLogged-is_redelivered s W db obs w m.id again)),
        )
        | inl (same, inr other) ↦ (p, read, inr other)
        | inr (inl same) ↦
            absurd (let h = rw (consume-read topic w m now later p read, same) at h in cc)
        | inr (inr (w', t, u, a, hh, same, log)) ↦ (
          p,
          read,
          inl (
              rw (consume-read topic w m now later p read, same)
                (mark_processed-logs w' m.id t u a hh later named)),
        )
      ]
    ]
