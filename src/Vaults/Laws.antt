-- ===== src/Vaults/Laws.antt =====
-- Whether a record that has been created passes the check of its hash.
use aocs_compliance_svc.Common.{
  ℕ, ◌<◌, ◌≡◌, ◌≢◌, ap, inl, inr, true, false, List, [], ◌∷◌, ◌++◌, some, is_empty, length,
  length-append, Bool-cases, Option-cases, arith,
}
use aocs_compliance_svc.Text.{Text}
use aocs_compliance_svc.Text.Laws.{eq_text_sound}
use aocs_compliance_svc.Vaults.{
  Record, CreateBody, Services, Database, created, found, first_hash, record_of, with_hash,
  verify_evidence_hash, create_record, create_evidence, get_evidence,
}

-- The JSON of a record with something after it has the digest of the record's payload, from which
-- it differs.
pub record Collision (s : Services) (draft : Record) (tail : List ℕ) : Type 0 where
  pub bytes : List ℕ
  pub marshalled : s.marshal draft ≡ some bytes
  pub apart : bytes ++ tail ≢ draft.payload
  pub equal : s.sha256_hex (bytes ++ tail) ≡ s.sha256_hex draft.payload

-- A digest is not empty, and the JSON of a record whose payload is compact JSON is longer than the
-- payload, which stands in it.
pub record IsUsual (s : Services) : Type 1 where
  pub Compact : List ℕ → Type 0
  pub digest-named : (bytes : List ℕ) → is_empty (s.sha256_hex bytes) ≡ false
  pub marshal-longer :
      (r : Record) (bytes : List ℕ)
      → Compact r.payload
      → s.marshal r ≡ some bytes
      → length r.payload < length bytes

module _ (s : Services) (usual : IsUsual s) {W : Type 0} (db : Database W) where
  open usual use {Compact, digest-named, marshal-longer}

  -- A record with the hash of more than its payload fails the check, or shows a collision.
  hashed-fails :
      (draft : Record) (bytes tail : List ℕ)
      → Compact draft.payload
      → s.marshal draft ≡ some bytes
      → verify_evidence_hash s (with_hash (s.sha256_hex (bytes ++ tail)) draft) ≡ true
      → Collision s draft tail
  unfolding verify_evidence_hash with_hash
  hashed-fails draft bytes tail compact known passes =
      let longer = marshal-longer draft bytes compact known in
      let whole = length-append bytes tail in
      let same = rw (digest-named) at passes in
      record {
        bytes = bytes;
        marshalled = known;
        apart = λ e. let sizes = ap length e in omega (arith, longer, whole, sizes);
        equal = eq_text_sound _ _ same;
      }

  create_record-hashed :
      (tenant : Text) (body : CreateBody) (id : Text) (w : W) (r : Record)
      → Compact (record_of id tenant body []).payload
      → (create_record s db tenant body id w).1 ≡ created r
      → verify_evidence_hash s r ≡ true
      → (let previous = first_hash (db.query_hashes w tenant) in
          Collision s (record_of id tenant body previous) (s.bytes_of previous))
  unfolding record_of create_record
  create_record-hashed tenant body id w r compact replied passes =
      let previous = first_hash (db.query_hashes w tenant) in
      let draft = record_of id tenant body previous in
      elim (Option-cases (s.marshal draft)) [
        | inl lost ↦ absurd (let h = rw (create_record, lost) at replied in cc)
        | inr (bytes, known) ↦
            let made = with_hash (s.sha256_hex (bytes ++ s.bytes_of previous)) draft in
            elim (Bool-cases (db.insert_record w made).1) [
              | inl went ↦
                  let h = rw (create_record, known, went) at replied in
                  hashed-fails draft bytes (s.bytes_of previous) compact known cc
              | inr lost ↦ absurd (let h = rw (create_record, known, lost) at replied in cc)
            ]
      ]

  get_evidence-passes :
      (tenant id : Text) (w : W) (r : Record) (more : List Record) (got : Record)
      → db.query_record w id tenant ≡ some (r ∷ more)
      → get_evidence s (some db) (some tenant) id w ≡ found got
      → verify_evidence_hash s r ≡ true
  unfolding get_evidence
  get_evidence-passes tenant id w r more got read given = elim (Bool-cases (is_empty id)) [
    | inl e ↦ absurd (let h = rw (get_evidence, e) at given in cc)
    | inr named ↦ elim (Bool-cases (verify_evidence_hash s r)) [
      | inl passes ↦ passes
      | inr fails ↦ absurd (let h = rw (get_evidence, named, read, fails) at given in cc)
    ]
  ]

  -- A record that has been created, and is read back as it was inserted, is never given out by its
  -- id: it is answered as tampered with, unless SHA-256 gives one digest to its JSON with the previous
  -- hash after it and to its payload, which differ; where digests are not empty, the JSON of a record
  -- is longer than its compact payload, and the payload is compact JSON.
  pub create_evidence-get_evidence :
      (tenant : Text) (body : CreateBody) (id : Text) (w w' : W) (r : Record) (more : List Record)
      (got : Record)
      → Compact (record_of id tenant body []).payload
      → (create_evidence s (some db) (some tenant) (some body) id w).1 ≡ created r
      → db.query_record w' id tenant ≡ some (r ∷ more)
      → get_evidence s (some db) (some tenant) id w' ≡ found got
      → (let previous = first_hash (db.query_hashes w tenant) in
          Collision s (record_of id tenant body previous) (s.bytes_of previous))
  unfolding create_evidence
  create_evidence-get_evidence tenant body id w w' r more got compact replied read given =
      elim (Bool-cases (is_empty tenant)) [
        | inl e ↦ absurd (let h = rw (create_evidence, e) at replied in cc)
        | inr tenanted ↦ elim (Bool-cases (is_empty body.type)) [
          | inl e ↦ absurd (let h = rw (create_evidence, tenanted, e) at replied in cc)
          | inr typed ↦ elim (Bool-cases (is_empty body.agent_id)) [
            | inl e ↦ absurd (let h = rw (create_evidence, tenanted, typed, e) at replied in cc)
            | inr agent ↦ elim (Bool-cases (is_empty body.intent_id)) [
              | inl e ↦
                  absurd (let h = rw (create_evidence, tenanted, typed, agent, e) at replied in cc)
              | inr intent ↦
                  create_record-hashed tenant body id w r compact
                    (rw (create_evidence, tenanted, typed, agent, intent) at replied)
                    (get_evidence-passes tenant id w' r more got read given)
            ]
          ]
        ]
      ]
