-- ===== src/Propagation/Handlers.antt =====
-- What the handlers of the consumers leave in the tables.
use aocs_compliance_svc.Common.{
  ℕ, ◌≡◌, refl, sym, ap, ◌∙◌, ◌⊎◌, inl, inr, Bool, true, false, not, ◌&&◌, is_empty, and-eq-true,
  not-eq-true, Bool-cases, arith,
}
use aocs_compliance_svc.Text.{Text, codes, eq_text}
use aocs_compliance_svc.Text.Laws.{eq_text_sound}
use aocs_compliance_svc.Text.Maps.{Map}
use aocs_compliance_svc.Cases.Store.{Cell}
use aocs_compliance_svc.Propagation.Store.{Baseline, Vault, LogRow, Database, Observed}
use aocs_compliance_svc.Propagation.Consumers.{
  Services, Topic, tenant_provisioned, tenant_deleted, agent_registered, string_at, is_processed,
  is_redelivered, mark_processed, handle_tenant_provisioned, tombstone, handle_tenant_deleted,
  handle_agent_registered, handle,
}

module _ (s : Services) (W : Type 0) (db : Database W) (obs : Observed W db) where
  open s use {Float}
  open obs use {rows, log-read, log-here, log-others, log-failed, baseline-log, vault-log}

  -- The payload names what the handler of a topic needs.
  unfoldable pub is_relevant : Topic → Map (Cell Float) → Bool
  is_relevant tenant_provisioned p = not (is_empty (string_at (codes "tenant_id") p))
  is_relevant tenant_deleted p = not (is_empty (string_at (codes "tenant_id") p))
  is_relevant agent_registered p =
      not (is_empty (string_at (codes "agent_id") p))
      && not (is_empty (string_at (codes "tenant_id") p))

  abbrev pub IsLogged : W → Text → Type 0
  IsLogged w id = is_empty (rows w id) ≡ false

  pub is_redelivered-IsLogged :
      (w : W) (id : Text) → is_empty id ≡ false → IsLogged w id → is_redelivered db w id ≡ true
  unfolding is_redelivered is_processed
  is_redelivered-IsLogged w id named logged = rw (named, is_processed, log-read w id, logged) refl

  pub IsLogged-is_redelivered : (w : W) (id : Text) → is_redelivered db w id ≡ true → IsLogged w id
  unfolding is_redelivered is_processed
  IsLogged-is_redelivered w id h = ground (arith, h, log-read w id)

  pub handle-irrelevant :
      (topic : Topic) (w : W) (id : Text) (p : Map (Cell Float)) (now later : ℕ)
      → is_relevant topic p ≡ false
      → handle s W db topic w id p now later ≡ (w, true)
  unfolding handle is_relevant handle_tenant_provisioned handle_tenant_deleted
      handle_agent_registered
  handle-irrelevant tenant_provisioned w id p now later h = ground (arith, h)
  handle-irrelevant tenant_deleted w id p now later h = ground (arith, h)
  handle-irrelevant agent_registered w id p now later h = ground (arith, h)

  pub handle-redelivered :
      (topic : Topic) (w : W) (id : Text) (p : Map (Cell Float)) (now later : ℕ)
      → is_redelivered db w id ≡ true
      → handle s W db topic w id p now later ≡ (w, true)
  unfolding handle handle_tenant_provisioned handle_tenant_deleted handle_agent_registered
  handle-redelivered tenant_provisioned w id p now later h = ground (arith, h)
  handle-redelivered tenant_deleted w id p now later h = ground (arith, h)
  handle-redelivered agent_registered w id p now later h = ground (arith, h)

  pub mark_processed-keeps :
      (w : W) (id topic t a h : Text) (now : ℕ) (j : Text)
      → IsLogged w j
      → IsLogged (mark_processed s W db w id topic t a h now) j
  unfolding mark_processed
  mark_processed-keeps w id topic t a h now j logged =
      let row : LogRow = record {
        message_id = id;
        topic = topic;
        tenant_id = t;
        agent_id = a;
        handler = h;
        result = codes "OK";
        processed_at = s.format_time now;
      } in
      elim (Bool-cases (is_empty id)) [
        | inl unnamed ↦ rw unnamed logged
        | inr named ↦ elim (Bool-cases (db.upsert_log w row).1) [
          | inr lost ↦ rw (named, log-failed w row lost) logged
          | inl went ↦ elim (Bool-cases (eq_text id j)) [
            | inr apart ↦ rw (named, log-others w row j apart) logged
            | inl same ↦ rw (named, sym (eq_text_sound id j same)) (log-here w row went)
          ]
        ]
      ]

  tombstone-rows :
      (w : W) (t : Text) (now : ℕ) (j : Text) → rows (tombstone s W db w t now) j ≡ rows w j
  unfolding tombstone
  tombstone-rows w t now j =
      obs.vault_status-log _ _ _ j ∙ obs.case_status-log _ _ _ j ∙ obs.mode-log _ _ _ j

  -- How a handler leaves the tables: as they were, or with a message marked in tables whose log is
  -- the same.
  abbrev pub Marked : W → Text → ℕ → W × Bool → Type 0
  Marked w id later res =
      (w' : W) × (topic : Text) × (t : Text) × (a : Text) × (h : Text) × (res
        ≡ (mark_processed s W db w' id topic t a h later, true))
      × ((j : Text) → rows w' j ≡ rows w j)

  handle-fresh :
      (topic : Topic) (w : W) (id : Text) (p : Map (Cell Float)) (now later : ℕ)
      → is_redelivered db w id ≡ false
      → is_relevant topic p ≡ true
      → let res = handle s W db topic w id p now later in (res ≡ (w, false)) ⊎ Marked w id later res
  unfolding handle is_relevant handle_tenant_provisioned handle_tenant_deleted
      handle_agent_registered
  handle-fresh tenant_provisioned w id p now later fresh relevant =
      let row : Baseline = record {
        tenant_id = string_at (codes "tenant_id") p;
        enforcement_mode = codes "OBSERVE";
        seeded_at = s.format_time now;
        updated_at = s.format_time now;
      } in
      let given = not-eq-true relevant in
      elim (Bool-cases (db.upsert_baseline w row).1) [
        | inl went ↦
            rw (given, fresh, went) (inr (_, _, _, _, _, refl, (λ j. baseline-log w row j)))
        | inr lost ↦
            rw (given, fresh, lost) (inl (ap (λ w. (w, false)) (obs.baseline-failed w row lost)))
      ]
  handle-fresh tenant_deleted w id p now later fresh relevant =
      let given = not-eq-true relevant in
      rw (given, fresh) (inr (_, _, _, _, _, refl, (λ j. tombstone-rows w _ now j)))
  handle-fresh agent_registered w id p now later fresh relevant =
      let row : Vault = record {
        tenant_id = string_at (codes "tenant_id") p;
        agent_id = string_at (codes "agent_id") p;
        agent_name = string_at (codes "agent_name") p;
        vault_status = codes "ACTIVE";
        seeded_at = s.format_time now;
        updated_at = s.format_time now;
      } in
      let (agent, tenant) = and-eq-true _ _ relevant in
      let agent = not-eq-true {b = is_empty (string_at (codes "agent_id") p)} agent in
      let tenant = not-eq-true {b = is_empty (string_at (codes "tenant_id") p)} tenant in
      elim (Bool-cases (db.upsert_vault w row).1) [
        | inl went ↦
            rw (agent, tenant, fresh, went) (inr (_, _, _, _, _, refl, (λ j. vault-log w row j)))
        | inr lost ↦
            rw (agent, tenant, fresh, lost)
              (inl (ap (λ w. (w, false)) (obs.vault-failed w row lost)))
      ]

  pub handle-cases :
      (topic : Topic) (w : W) (id : Text) (p : Map (Cell Float)) (now later : ℕ)
      → let res = handle s W db topic w id p now later in
        ((res ≡ (w, true)) × ((is_redelivered db w id ≡ true) ⊎ (is_relevant topic p ≡ false)))
        ⊎ ((res ≡ (w, false)) ⊎ Marked w id later res)
  handle-cases topic w id p now later = elim (Bool-cases (is_redelivered db w id)) [
    | inl again ↦ inl (handle-redelivered topic w id p now later again, inl again)
    | inr fresh ↦ elim (Bool-cases (is_relevant topic p)) [
      | inr other ↦ inl (handle-irrelevant topic w id p now later other, inr other)
      | inl relevant ↦ inr (handle-fresh topic w id p now later fresh relevant)
    ]
  ]
