-- ===== src/Vaults/Tests.antt =====
-- A vault of toy records in which every digest is the same, and one in which no two are.
use aocs_compliance_svc.Common.{ℕ, ◌≡◌, refl, true, List, [], ◌∷◌, some, none, map, arith}
use aocs_compliance_svc.Text.{Text, codes, eq_text}
use aocs_compliance_svc.Vaults.{
  Record, CreateBody, Services, Database, first_hash, record_of, with_hash, verify_evidence_hash,
  create_record, create_evidence, GetReply, get_evidence,
}
use aocs_compliance_svc.Vaults.Laws.{Collision, IsUsual, create_evidence-get_evidence}

abbrev toy : (List ℕ → Text) → Services
toy digest = record {
  sha256_hex = digest;
  bytes_of = λ t. t;
  marshal = λ r. some (0 ∷ r.payload);
  equal_fold = λ a b. true;
}

abbrev constant : Services
constant = toy (λ bytes. codes "0")

abbrev apart : Services
apart = toy (λ bytes. 1 ∷ bytes)

constant-IsUsual : IsUsual constant
constant-IsUsual = record {
  Compact = λ bytes. bytes ≡ bytes;
  digest-named = λ bytes. refl;
  marshal-longer = λ r bytes compact known. grind (arith, known);
}

abbrev table : Database (List Record)
table = record {
  query_hashes = λ w tenant. some (map (λ r. r.hash) w);
  query_all = λ w tenant. some w;
  query_record = λ w id tenant. some w;
  query_timestamp = λ w id tenant. some [];
  insert_record = λ w r. (r ∷ w, true);
  mark_verified = λ w id ts now. (w, true);
}

abbrev acme : Text
acme = codes "acme"

abbrev request : CreateBody
request = record {
  type = codes "decision";
  action_class = [];
  tool_id = [];
  trans_id = [];
  payload_data = none;
  agent_id = codes "a1";
  intent_id = codes "i1";
  activity_id = [];
  execution_id = [];
}

abbrev made : Record
made = with_hash (codes "0") (record_of (codes "e1") acme request [])

create_evidence-get_evidence_example :
    Collision constant (record_of (codes "e1") acme request []) []
unfolding create_evidence create_record record_of with_hash first_hash get_evidence
    verify_evidence_hash constant-IsUsual eq_text
create_evidence-get_evidence_example =
    create_evidence-get_evidence constant constant-IsUsual table acme request (codes "e1") []
      (made ∷ []) made [] made refl refl refl refl

-- Where digests differ, the record that has just been created is answered as tampered with.
get_evidence-created :
    (let w = (create_evidence apart (some table) (some acme) (some request) (codes "e1") []).0 in
      get_evidence apart (some table) (some acme) (codes "e1") w)
    ≡ GetReply.tamper_detected
unfolding create_evidence create_record record_of with_hash first_hash get_evidence
    verify_evidence_hash eq_text
get_evidence-created = refl
