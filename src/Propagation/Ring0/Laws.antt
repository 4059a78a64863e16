-- ===== src/Propagation/Ring0/Laws.antt =====
-- What an event of the outbox does, and what it does when it comes again.
use aocs_compliance_svc.Common.{
  ℕ, ◌≡◌, refl, sym, ap, ◌∙◌, inl, inr, true, false, Option, none, some, if◌then◌else◌, is_empty,
  Bool-cases, Option-cases,
}
use aocs_compliance_svc.Text.{Text, codes, eq_text}
use aocs_compliance_svc.Text.Laws.{eq_text_sound}
use aocs_compliance_svc.Text.Maps.{Map, lookup, insert, lookup-insert_self, lookup-insert_ne}
use aocs_compliance_svc.Cases.Store.{Cell, null, other, str, time, float}
use aocs_compliance_svc.Propagation.Store.{LogRow, Database, Observed}
use aocs_compliance_svc.Propagation.Consumers.{Services, Topic, handle}
use aocs_compliance_svc.Propagation.Handlers.{
  handle-redelivered, handle-irrelevant, is_redelivered-IsLogged, handle-cases,
}
use aocs_compliance_svc.Propagation.Once.{mark_processed-logs}
use aocs_compliance_svc.Propagation.Ring0.{
  OutboxEvent, fill, fill_name, merge_event_fields, topic_of, dispatch,
}

-- The first of two cells that is there.
unfoldable pub or_else {ℓ} : {A : Type ℓ} → Option A → Option A → Option A
or_else none b = b
or_else (some a) b = some a

or_else-none {ℓ} : {A : Type ℓ} (a : Option A) → or_else a none ≡ a
unfolding or_else
or_else-none none = refl
or_else-none (some a) = refl

module _ {F : Type 0} where
  -- A text that is not empty, as a cell.
  unfoldable pub given_cell : Text → Option (Cell F)
  given_cell t = if is_empty t then none else some (str t)

  -- A cell that is a string.
  unfoldable pub string_cell : Option (Cell F) → Option (Cell F)
  string_cell (some (str t)) = some (str t)
  string_cell _ = none

  -- What an event has for a key that its payload lacks.
  unfoldable pub supplied : OutboxEvent F → Text → Option (Cell F)
  supplied evt k =
      if eq_text (codes "tenant_id") k
      then given_cell evt.tenant_id
      else if eq_text (codes "agent_id") k
      then given_cell evt.aggregate_id
      else if eq_text (codes "agent_name") k
      then string_cell (lookup (codes "name") evt.payload)
      else none

  -- A key that a map has, one that it lacks and is given, and one that it lacks.
  had-lookup :
      (key : Text) (m : Map (Cell F)) (k : Text) (cell : Cell F) (offer : Option (Cell F))
      → lookup key m ≡ some cell
      → lookup k m ≡ or_else (lookup k m) (if eq_text key k then offer else none)
  unfolding or_else
  had-lookup key m k cell offer there = elim (Bool-cases (eq_text key k)) [
    | inl same ↦ let here = rw (eq_text_sound key k same) at there in rw here refl
    | inr apart ↦ rw apart (sym (or_else-none (lookup k m)))
  ]

  put-lookup :
      (key : Text) (m : Map (Cell F)) (k : Text) (cell : Cell F)
      → lookup key m ≡ none
      → lookup k (insert key cell m)
        ≡ or_else (lookup k m) (if eq_text key k then some cell else none)
  unfolding or_else
  put-lookup key m k cell missing = elim (Bool-cases (eq_text key k)) [
    | inl same ↦
        let e : key ≡ k = eq_text_sound key k same in
        let gone = rw e at missing in rw (same, gone) (rw e (lookup-insert_self k cell m))
    | inr apart ↦ rw apart (lookup-insert_ne key k cell m apart ∙ sym (or_else-none (lookup k m)))
  ]

  none_offered :
      (key : Text) (m : Map (Cell F)) (k : Text)
      → lookup k m ≡ or_else (lookup k m) (if eq_text key k then none else none)
  none_offered key m k = elim (Bool-cases (eq_text key k)) [
    | inl same ↦ rw same (sym (or_else-none (lookup k m)))
    | inr apart ↦ rw apart (sym (or_else-none (lookup k m)))
  ]

  fill-lookup :
      (key value : Text) (m : Map (Cell F)) (k : Text)
      → lookup k (fill key value m)
        ≡ or_else (lookup k m) (if eq_text key k then given_cell value else none)
  unfolding fill given_cell
  fill-lookup key value m k = elim (Option-cases (lookup key m)) [
    | inr (cell, there) ↦ rw (fill, there) (had-lookup key m k cell (given_cell value) there)
    | inl missing ↦ elim (Bool-cases (is_empty value)) [
      | inl nothing ↦ rw (fill, missing, nothing, given_cell) (none_offered key m k)
      | inr given ↦ rw (fill, missing, given, given_cell) (put-lookup key m k (str value) missing)
    ]
  ]

  fill_name-lookup :
      (key : Text) (payload m : Map (Cell F)) (k : Text)
      → lookup k (fill_name key payload m)
        ≡ or_else
            (lookup k m)
            (if eq_text key k then string_cell (lookup (codes "name") payload) else none)
  unfolding fill_name string_cell
  fill_name-lookup key payload m k = elim (Option-cases (lookup key m)) [
    | inr (cell, there) ↦ rw (fill_name, there) (had-lookup key m k cell _ there)
    | inl missing ↦ elim (Option-cases (lookup (codes "name") payload)) [
      | inl unnamed ↦ rw (fill_name, missing, unnamed, string_cell) (none_offered key m k)
      | inr (null, named) ↦ rw (fill_name, missing, named, string_cell) (none_offered key m k)
      | inr (other, named) ↦ rw (fill_name, missing, named, string_cell) (none_offered key m k)
      | inr (time t, named) ↦ rw (fill_name, missing, named, string_cell) (none_offered key m k)
      | inr (float x, named) ↦ rw (fill_name, missing, named, string_cell) (none_offered key m k)
      | inr (str name, named) ↦
          rw (fill_name, missing, named, string_cell) (put-lookup key m k (str name) missing)
    ]
  ]

  merged-lookup :
      (evt : OutboxEvent F) (k : Text)
      → lookup k (merge_event_fields evt)
        ≡ or_else
            (or_else
              (or_else
                (lookup k evt.payload)
                (if eq_text (codes "tenant_id") k then given_cell evt.tenant_id else none))
              (if eq_text (codes "agent_id") k then given_cell evt.aggregate_id else none))
            (if eq_text (codes "agent_name") k
              then string_cell (lookup (codes "name") evt.payload)
              else none)
  unfolding merge_event_fields
  merged-lookup evt k =
      let m1 = fill (codes "tenant_id") evt.tenant_id evt.payload in
      let m2 = fill (codes "agent_id") evt.aggregate_id m1 in
      rw
        (
          fill_name-lookup (codes "agent_name") evt.payload m2 k,
          fill-lookup (codes "agent_id") evt.aggregate_id m1 k,
          fill-lookup (codes "tenant_id") evt.tenant_id evt.payload k,
        )
        refl

  -- What the payload of an event has for a key stays as it is. A key that the payload lacks has,
  -- where it is tenant_id or agent_id, the tenant or the aggregate of the event, unless that is
  -- empty; where it is agent_name, the name of the payload, where that is a string; and nothing
  -- otherwise.
  pub merge_event_fields-lookup :
      (evt : OutboxEvent F) (k : Text)
      → lookup k (merge_event_fields evt) ≡ or_else (lookup k evt.payload) (supplied evt k)
  unfolding merge_event_fields or_else supplied eq_text
  merge_event_fields-lookup evt k = elim (Option-cases (lookup k evt.payload)) [
    | inr (cell, there) ↦ rw (merged-lookup evt k, there) refl
    | inl missing ↦ elim (Bool-cases (eq_text (codes "tenant_id") k)) [
      | inl same ↦
          let e = eq_text_sound (codes "tenant_id") k same in
          rw (merged-lookup evt k, missing)
            (rw (sym e) (or_else-none _ ∙ or_else-none (given_cell evt.tenant_id)))
      | inr not_tenant ↦ elim (Bool-cases (eq_text (codes "agent_id") k)) [
        | inl same ↦
            let e = eq_text_sound (codes "agent_id") k same in
            rw (merged-lookup evt k, missing)
              (rw (sym e) (or_else-none (given_cell evt.aggregate_id)))
        | inr not_agent ↦ rw (merged-lookup evt k, missing, not_tenant, not_agent) refl
      ]
    ]
  ]

module _ (s : Services) (W : Type 0) (db : Database W) (obs : Observed W db)
    (reliable : (w : W) (row : LogRow) → (db.upsert_log w row).1 ≡ true) where
  open s use {Float}

  dispatch_unknown :
      (w : W) (evt : OutboxEvent Float) (now later : ℕ)
      → topic_of evt.event_type ≡ none
      → dispatch s W db w evt now later ≡ (w, true)
  unfolding dispatch
  dispatch_unknown w evt now later unknown = rw (dispatch, unknown) refl

  dispatch_known :
      (topic : Topic) (w : W) (evt : OutboxEvent Float) (now later : ℕ)
      → topic_of evt.event_type ≡ some topic
      → dispatch s W db w evt now later
        ≡ handle s W db topic w evt.event_id (merge_event_fields evt) now later
  unfolding dispatch
  dispatch_known topic w evt now later known = rw (dispatch, known) refl

  -- An event with an id that has been dispatched without an error changes nothing when it is
  -- dispatched again, and gives no error, where nobody else writes through the database, no read
  -- of the log fails, and the log's writes go through.
  pub dispatch_twice :
      (w : W) (evt : OutboxEvent Float) (now later now' later' : ℕ)
      → is_empty evt.event_id ≡ false
      → (dispatch s W db w evt now later).1 ≡ true
      → let w' = (dispatch s W db w evt now later).0 in
        dispatch s W db w' evt now' later' ≡ (w', true)
  dispatch_twice w evt now later now' later' named done =
      elim (Option-cases (topic_of evt.event_type)) [
        | inl unknown ↦
            rw (dispatch_unknown w evt now later unknown)
              (dispatch_unknown w evt now' later' unknown)
        | inr (topic, known) ↦
            let p = merge_event_fields evt in
            let first = dispatch_known topic w evt now later known in
            let done = rw first at done in
            rw (first, dispatch_known topic _ evt now' later' known)
              (elim (handle-cases s W db obs topic w evt.event_id p now later) [
                | inl (same, inl again) ↦
                    rw same (handle-redelivered s W db obs topic w evt.event_id p now' later' again)
                | inl (same, inr unneeded) ↦
                    rw same
                      (handle-irrelevant s W db obs topic w evt.event_id p now' later' unneeded)
                | inr (inl same) ↦ absurd (cc (done, ap (λ r. r.1) same))
                | inr (inr (w', t, u, a, h, same, log)) ↦ rw same (
                    handle-redelivered s W db obs topic _ evt.event_id p now' later' (
                      is_redelivered-IsLogged s W db obs _ evt.event_id named (
                        mark_processed-logs s W db obs reliable w' evt.event_id t u a h later
                          named)))
              ])
      ]
