-- ===== src/Streams/Evidence/Laws.antt =====
-- What a message leaves in the table of evidence records.
use mathlib.Core.List.{Memᴰ}
use aocs_compliance_svc.Common.{
  ℕ, suc, ◌≡◌, refl, sym, ap, ◌∙◌, ◌⊎◌, inl, inr, true, false, ◌||◌, ◌==◌, List, [], ◌∷◌, some,
  is_empty, length, All, Bool-cases, Option-cases, and-eq-true, arith,
}
use aocs_compliance_svc.Text.{eq_text}
use aocs_compliance_svc.Text.Laws.{eq_text_sound}
use aocs_compliance_svc.Propagation.Consumers.{ack, nack}
use aocs_compliance_svc.Streams.Evidence.{
  Evidence, EvidenceRow, Services, row_of, conflicts, overwrite, insert_row, insert_evidence,
  handle_message,
}

-- No two rows have one id and one time, as the primary key of the table asks.
abbrev pub IsKeyed : List EvidenceRow → Type 0
IsKeyed [] = Unit
IsKeyed (r ∷ rows) = All (λ q. conflicts q r ≡ false) rows × IsKeyed rows

insert_row-mem :
    (new : EvidenceRow) (rows : List EvidenceRow)
    → (row : EvidenceRow) × Memᴰ row (insert_row new rows)
      × (row.id ≡ new.id)
      × (row.timestamp ≡ new.timestamp)
      × (row.hash ≡ new.hash)
      × (row.payload ≡ new.payload)
unfolding insert_row conflicts overwrite
insert_row-mem new [] = (new, Memᴰ.head refl, refl, refl, refl, refl)
insert_row-mem new (old ∷ rows) = elim (Bool-cases (conflicts new old)) [
  | inl same ↦
      let (i, t) = and-eq-true (eq_text new.id old.id) (new.timestamp == old.timestamp) same in
      rw (insert_row, same)
        (
          overwrite new old,
          Memᴰ.head refl,
          sym (eq_text_sound new.id old.id i),
          ground (arith, t),
          refl,
          refl,
        )
  | inr apart ↦
      let (row, at, i, t, h, p) = insert_row-mem new rows in
      rw (insert_row, apart) (row, Memᴰ.tail at, i, t, h, p)
]

insert_row-All :
    (new r : EvidenceRow) (rows : List EvidenceRow)
    → conflicts new r ≡ false
    → All (λ q. conflicts q r ≡ false) rows
    → All (λ q. conflicts q r ≡ false) (insert_row new rows)
unfolding insert_row conflicts overwrite
insert_row-All new r [] apart h = (apart, tt)
insert_row-All new r (old ∷ rows) apart (here, h) = elim (Bool-cases (conflicts new old)) [
  | inl same ↦ rw (insert_row, same) (here, h)
  | inr other ↦ rw (insert_row, other) (here, insert_row-All new r rows apart h)
]

insert_row-IsKeyed :
    (new : EvidenceRow) (rows : List EvidenceRow) → IsKeyed rows → IsKeyed (insert_row new rows)
unfolding insert_row conflicts overwrite
insert_row-IsKeyed new [] h = (tt, tt)
insert_row-IsKeyed new (old ∷ rows) (here, h) = elim (Bool-cases (conflicts new old)) [
  | inl same ↦ rw (insert_row, same) (here, h)
  | inr other ↦
      rw (insert_row, other) (insert_row-All new old rows other here, insert_row-IsKeyed new rows h)
]

insert_row-length :
    (new : EvidenceRow) (rows : List EvidenceRow)
    → All (λ r. (new.timestamp == r.timestamp) ≡ false) rows
    → length (insert_row new rows) ≡ suc (length rows)
unfolding insert_row conflicts
insert_row-length new [] h = refl
insert_row-length new (old ∷ rows) (here, h) = ground (arith, here, insert_row-length new rows h)

module _ (s : Services) where
  -- What a message that can be read does: nothing where it lacks its tenant or its hash, and is
  -- acknowledged; nothing where the statement fails; and else its row is inserted.
  handle_message-cases :
      (data_bytes : List ℕ) (now : ℕ) (rows : List EvidenceRow) (e : Evidence)
      → s.unmarshal data_bytes ≡ some e
      → let res = handle_message s data_bytes now rows in
        (((is_empty e.tenant_id || is_empty e.hash) ≡ true) × (res ≡ (rows, ack)))
        ⊎ (((is_empty e.tenant_id || is_empty e.hash) ≡ false)
            × (((s.accepts rows (row_of e now) ≡ false) × (res ≡ (rows, nack)))
                ⊎ ((s.accepts rows (row_of e now) ≡ true)
                    × (res ≡ (insert_row (row_of e now) rows, ack)))))
  unfolding handle_message insert_evidence
  handle_message-cases data_bytes now rows e read =
      elim (Bool-cases (is_empty e.tenant_id || is_empty e.hash)) [
        | inl lacks ↦ inl (lacks, rw (handle_message, read, lacks) refl)
        | inr given ↦ elim (Bool-cases (s.accepts rows (row_of e now))) [
          | inl went ↦
              inr (given, inr (went, rw (handle_message, read, given, insert_evidence, went) refl))
          | inr lost ↦
              inr (given, inl (lost, rw (handle_message, read, given, insert_evidence, lost) refl))
        ]
      ]

  -- A message with a tenant and a hash is acknowledged only where the table has a row with its id,
  -- hash and payload at the time of the delivery, and is refused only where the table is as it was.
  handle_message-stores :
      (data_bytes : List ℕ) (now : ℕ) (rows : List EvidenceRow) (e : Evidence)
      → s.unmarshal data_bytes ≡ some e
      → (is_empty e.tenant_id || is_empty e.hash) ≡ false
      → let (rows', verdict) = handle_message s data_bytes now rows in
        ((verdict ≡ ack)
          × ((row : EvidenceRow) × Memᴰ row rows'
              × (row.id ≡ e.id)
              × (row.timestamp ≡ now)
              × (row.hash ≡ e.hash)
              × (row.payload ≡ e.payload)))
        ⊎ ((verdict ≡ nack) × (rows' ≡ rows))
  unfolding row_of
  handle_message-stores data_bytes now rows e read given =
      elim (handle_message-cases data_bytes now rows e read) [
        | inl (lacks, same) ↦ absurd (cc (lacks, given))
        | inr (named, inl (lost, same)) ↦ rw same (inr (refl, refl))
        | inr (named, inr (went, same)) ↦ rw same (inl (refl, insert_row-mem (row_of e now) rows))
      ]

  -- A message of any kind keeps the rows apart by their id and time.
  pub handle_message-IsKeyed :
      (data_bytes : List ℕ) (now : ℕ) (rows : List EvidenceRow)
      → IsKeyed rows
      → IsKeyed (handle_message s data_bytes now rows).0
  unfolding handle_message
  handle_message-IsKeyed data_bytes now rows h = elim (Option-cases (s.unmarshal data_bytes)) [
    | inl bad ↦ rw (handle_message, bad) h
    | inr (e, read) ↦ elim (handle_message-cases data_bytes now rows e read) [
      | inl (lacks, same) ↦ rw same h
      | inr (named, inl (lost, same)) ↦ rw same h
      | inr (named, inr (went, same)) ↦ rw same (insert_row-IsKeyed (row_of e now) rows h)
    ]
  ]

  handle_message-inserts :
      (data_bytes : List ℕ) (now : ℕ) (rows : List EvidenceRow) (e : Evidence)
      → s.unmarshal data_bytes ≡ some e
      → (is_empty e.tenant_id || is_empty e.hash) ≡ false
      → ((rows : List EvidenceRow) (r : EvidenceRow) → s.accepts rows r ≡ true)
      → handle_message s data_bytes now rows ≡ (insert_row (row_of e now) rows, ack)
  handle_message-inserts data_bytes now rows e read given reliable =
      elim (handle_message-cases data_bytes now rows e read) [
        | inl (lacks, same) ↦ absurd (cc (lacks, given))
        | inr (named, inl (lost, same)) ↦ absurd (cc (lost, reliable rows (row_of e now)))
        | inr (named, inr (went, same)) ↦ same
      ]

  -- A message with a tenant and a hash that is delivered twice, at times that no row has yet, leaves
  -- two more rows, where the statements go through: the conflict on the id and the time never meets
  -- the row of the first delivery.
  pub handle_message_redelivered :
      (data_bytes : List ℕ) (now later : ℕ) (rows : List EvidenceRow) (e : Evidence)
      → s.unmarshal data_bytes ≡ some e
      → (is_empty e.tenant_id || is_empty e.hash) ≡ false
      → ((rows : List EvidenceRow) (r : EvidenceRow) → s.accepts rows r ≡ true)
      → All (λ r. (now == r.timestamp) ≡ false) rows
      → All (λ r. (later == r.timestamp) ≡ false) (handle_message s data_bytes now rows).0
      → let (once, first) = handle_message s data_bytes now rows in
        let (twice, second) = handle_message s data_bytes later once in
        (first ≡ ack) × (second ≡ ack) × (length twice ≡ suc (suc (length rows)))
  unfolding row_of
  handle_message_redelivered data_bytes now later rows e read given reliable fresh fresh' =
      let first = handle_message-inserts data_bytes now rows e read given reliable in
      let once = insert_row (row_of e now) rows in
      let second = handle_message-inserts data_bytes later once e read given reliable in
      let fresh' = rw first at fresh' in
      rw (first, second)
        (
          refl,
          refl,
          insert_row-length (row_of e later) once fresh'
              ∙ ap (λ n. suc n) (insert_row-length (row_of e now) rows fresh),
        )
