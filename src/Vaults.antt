-- ===== src/Vaults.antt =====
-- The evidence records of internal/compliance/handlers/evidence/evidence.go: how one is created, read,
-- listed and marked as verified. The log lines are left out, and so are the constant fields of the
-- replies. The database (database.DB) is a parameter; a read is none where it fails.
use aocs_compliance_svc.Common.{
  ℕ, Bool, true, false, not, List, [], ◌∷◌, ◌++◌, map, Option, none, some, is_empty, keep,
  if◌then◌else◌,
}
use aocs_compliance_svc.Text.{Text, codes, eq_text}
pub mod Laws
mod Tests

-- The fields of a database.QCoreEvidenceRecord that are set. A payload is its bytes.
pub record Record : Type 0 where
  pub id : Text
  pub tenant_id : Text
  pub type : Text
  pub action_class : Text
  pub tool_id : Text
  pub transaction_id : Text
  pub payload : List ℕ
  pub agent_id : Text
  pub intent_id : Text
  pub activity_id : Text
  pub execution_id : Text
  pub previous_hash : Text
  pub hash : Text

-- CreateEvidenceRequest, with the JSON of payload_data, none where there is none; the timestamp is
-- read and not used.
pub record CreateBody : Type 0 where
  pub type : Text
  pub action_class : Text
  pub tool_id : Text
  pub trans_id : Text
  pub payload_data : Option (List ℕ)
  pub agent_id : Text
  pub intent_id : Text
  pub activity_id : Text
  pub execution_id : Text

-- The hexadecimal SHA-256 of bytes, the bytes of a text, the JSON of a record, and strings.EqualFold.
pub record Services : Type 0 where
  pub sha256_hex : List ℕ → Text
  pub bytes_of : Text → List ℕ
  pub marshal : Record → Option (List ℕ)
  pub equal_fold : Text → Text → Bool

-- The hashes of the records of a tenant, the records of a tenant, and those with an id in it, with
-- the writes. A record is marked as verified by its id and its timestamp.
pub record Database (W : Type 0) : Type 0 where
  pub query_hashes : W → Text → Option (List Text)
  pub query_all : W → Text → Option (List Record)
  pub query_record : W → Text → Text → Option (List Record)
  pub query_timestamp : W → Text → Text → Option (List Text)
  pub insert_record : W → Record → W × Bool
  pub mark_verified : W → Text → Text → Text → W × Bool

pub data CreateReply : Type 0 where
  no_database no_tenant empty_tenant invalid_body : CreateReply
  missing_type missing_agent missing_intent no_reply insert_failed : CreateReply
  created : Record → CreateReply

pub data GetReply : Type 0 where
  no_database no_tenant missing_id not_found tamper_detected : GetReply
  found : Record → GetReply

pub data ListReply : Type 0 where
  no_database no_tenant empty_tenant query_failed : ListReply
  listed : List (Record × Bool) → ListReply

pub data VerifyReply : Type 0 where
  no_database signing_unavailable no_tenant missing_id not_found update_failed verified :
      VerifyReply

-- The first hash, "" where there is none.
unfoldable pub first_hash : Option (List Text) → Text
first_hash none = []
first_hash (some []) = []
first_hash (some (h ∷ hashes)) = h

unfoldable pub record_of : Text → Text → CreateBody → Text → Record
record_of id tenant body previous = record {
  id = id;
  tenant_id = tenant;
  type = body.type;
  action_class = body.action_class;
  tool_id = body.tool_id;
  transaction_id = body.trans_id;
  payload = elim body.payload_data [ some bytes ↦ bytes | none ↦ codes "{}" ];
  agent_id = body.agent_id;
  intent_id = body.intent_id;
  activity_id = body.activity_id;
  execution_id = body.execution_id;
  previous_hash = previous;
  hash = [];
}

unfoldable pub with_hash : Text → Record → Record
with_hash h r = record r { hash = h }

module _ (s : Services) where
  -- verifyEvidenceHash, the first of its results.
  unfoldable pub verify_evidence_hash : Record → Bool
  verify_evidence_hash r = if is_empty r.hash then true else eq_text r.hash (s.sha256_hex r.payload)

  module _ {W : Type 0} where
    -- HandleCreateEvidence, from its checks of the body on, with the id that is generated.
    unfoldable pub create_record : Database W → Text → CreateBody → Text → W → W × CreateReply
    create_record db tenant body id w =
        let previous = first_hash (db.query_hashes w tenant) in
        let draft = record_of id tenant body previous in
        elim (s.marshal draft) [
          | none ↦ (w, no_reply)
          | some bytes ↦
              let r = with_hash (s.sha256_hex (bytes ++ s.bytes_of previous)) draft in
              let (w', went) = db.insert_record w r in
              (w', if went then created r else insert_failed)
        ]

    unfoldable pub create_evidence :
        Option (Database W) → Option Text → Option CreateBody → Text → W → W × CreateReply
    create_evidence db tenant body id w = elim db [
      | none ↦ (w, no_database)
      | some db ↦ elim tenant [
        | none ↦ (w, no_tenant)
        | some tenant ↦ if is_empty tenant then (w, empty_tenant) else (elim body [
          | none ↦ (w, invalid_body)
          | some body ↦
              if is_empty body.type
              then (w, missing_type)
              else if is_empty body.agent_id
              then (w, missing_agent)
              else if is_empty body.intent_id
              then (w, missing_intent)
              else create_record db tenant body id w
        ])
      ]
    ]

    -- HandleGetEvidence.
    unfoldable pub get_evidence : Option (Database W) → Option Text → Text → W → GetReply
    get_evidence db tenant id w = elim db [
      | none ↦ no_database
      | some db ↦ elim tenant [
        | none ↦ no_tenant
        | some tenant ↦ if is_empty id then missing_id else (elim (db.query_record w id tenant) [
          | none ↦ not_found
          | some rows ↦ elim rows [
            | [] ↦ not_found
            | r ∷ more ↦ if verify_evidence_hash r then found r else tamper_detected
          ]
        ])
      ]
    ]

    -- HandleListEvidence, with the type that is asked for, "" where none is.
    unfoldable pub list_evidence : Option (Database W) → Option Text → Text → W → ListReply
    list_evidence db tenant type w = elim db [
      | none ↦ no_database
      | some db ↦ elim tenant [
        | none ↦ no_tenant
        | some tenant ↦ if is_empty tenant then empty_tenant else (elim (db.query_all w tenant) [
          | none ↦ query_failed
          | some rows ↦
              let kept =
                if is_empty type then rows else keep (λ r. s.equal_fold r.type type) rows in
              listed (map (λ r. (r, verify_evidence_hash r)) kept)
        ])
      ]
    ]

-- HandleVerifyEvidence; `signing` is whether a vault can sign, none where there is no vault.
unfoldable pub verify_evidence :
    {W : Type 0}
    → Option (Database W)
    → Option Bool
    → Option Text
    → Text
    → Text
    → W
    → W × VerifyReply
verify_evidence db signing tenant id now w = elim db [
  | none ↦ (w, no_database)
  | some db ↦
      let enabled : Bool = elim signing [ none ↦ true | some b ↦ b ] in
      if not enabled then (w, signing_unavailable) else (elim tenant [
        | none ↦ (w, no_tenant)
        | some tenant ↦
            if is_empty id then (w, missing_id) else (elim (db.query_timestamp w id tenant) [
              | none ↦ (w, not_found)
              | some rows ↦ elim rows [
                | [] ↦ (w, not_found)
                | ts ∷ more ↦
                    let (w', went) = db.mark_verified w id ts now in
                    (w', if went then verified else update_failed)
              ]
            ])
      ])
]
