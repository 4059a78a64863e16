-- ===== src/Zkp/Verifier/Tests.antt =====
-- The theorems on the verifier at a small platform.
use aocs_compliance_svc.Common.{
  ℕ, zero, suc, ◌≡◌, refl, true, false, List, [], ◌∷◌, none, some, arith, ltb, pos, negsuc, length,
  take,
}
use aocs_compliance_svc.Text.{Text, codes, eq_text}
use aocs_compliance_svc.Text.Hex.{hex_encode, hex_decode, hex_digit, from_hex_digit, IsBytes}
use aocs_compliance_svc.Text.Maps.{Map, lookup, insert, delete}
use aocs_compliance_svc.Zkp.Checks.{
  Floats, Value, float, trust_range, Challenge, Proof, not_found, Platform, redis_key, get_float,
  get_string, message_hash, verify_ed25519_proof, verify_range, whole_commitment, verify_claim,
  verify_by_type,
}
use aocs_compliance_svc.Zkp.Verifier.{
  Verifier, generate_challenge, redis_challenge, find_challenge, consume, answer, verify_proof,
}
use aocs_compliance_svc.Zkp.Verifier.SingleUse.{verify_proof_twice, verify_proof_replayed}
use aocs_compliance_svc.Zkp.Verifier.Soundness.{IsProven, verify_proof_sound}
use aocs_compliance_svc.Zkp.Verifier.Completeness.{generate-verify}

-- Scores in hundredths.
abbrev hundredths : Floats
hundredths = record {
  Float = ℕ;
  less = ltb;
  lowest = 0;
  highest = 100;
  of_int = λ n. elim n [ pos k ↦ k | negsuc k ↦ 0 ];
  text_6 = λ x. x ∷ [];
}

abbrev the_challenge : Challenge ℕ
the_challenge = record {
  challenge_id = codes "c1";
  tenant_id = codes "t1";
  proof_type = trust_range;
  nonce = codes "0102";
  issued_at = 5;
  expires_at = 20;
  parameters = [];
}

repeat : ℕ → ℕ → List ℕ
repeat zero x = []
repeat (suc n) x = x ∷ repeat n x

-- A signature is 64 times the key's byte. This Redis holds one challenge, and does not delete.
abbrev toy : Platform
toy = record {
  floats = hundredths;
  sha256 = λ bytes. length bytes ∷ [];
  ed25519_verify = λ key digest sig. eq_text (take 1 sig) key;
  marshal_inputs = λ inputs. some (codes "{}");
  marshal_challenge = λ c. some (codes "c");
  unmarshal_challenge = λ t. some the_challenge;
  Redis = Map Text;
  redis_set = λ r key value ttl. (insert key value r, true);
  redis_get = λ r key. lookup key r;
  redis_del = λ r key. (r, false);
}

abbrev in_memory : Verifier toy
in_memory = record {
  challenges = (codes "c1", the_challenge) ∷ [];
  redis = none;
  ed25519_public_key = 171 ∷ [];
  default_challenge_ttl = 10;
  spawned = [];
}

abbrev in_redis : Verifier toy
in_redis = record in_memory { redis = some ((redis_key (codes "c1"), codes "c") ∷ []) }

abbrev good_proof : Proof ℕ
good_proof = record {
  challenge_id = codes "c1";
  tenant_id = codes "t1";
  commitment = codes "00";
  response = hex_encode (repeat 64 171);
  public_inputs = (codes "min_score", float 40) ∷ (codes "max_score", float 90) ∷ [];
}

run_functions : Unit {0}
unfolding hex_encode hex_decode hex_digit from_hex_digit repeat lookup eq_text get_float get_string
    message_hash verify_ed25519_proof verify_range whole_commitment verify_claim verify_by_type
    redis_challenge find_challenge consume answer verify_proof delete
run_functions = tt

good_proof-valid : (verify_proof toy in_memory good_proof 15 16).1.valid ≡ true
unfolding run_functions
good_proof-valid = refl

verify_proof_sound_example : IsProven toy in_memory good_proof 15
verify_proof_sound_example = verify_proof_sound toy in_memory good_proof 15 16 good_proof-valid

verify_proof_twice_example :
    let r = (verify_proof toy (verify_proof toy in_memory good_proof 15 16).0 good_proof 17 18).1 in
    (r.valid ≡ false) × (r.reason ≡ not_found)
verify_proof_twice_example =
    verify_proof_twice toy in_memory good_proof good_proof 15 16 17 18 (λ r e. absurd cc) refl

ids_differ : eq_text (codes "c1") (codes "c2") ≡ false
unfolding eq_text
ids_differ = refl

held : redis_challenge toy in_redis.redis (codes "c1") ≡ some the_challenge
unfolding redis_challenge lookup eq_text
held = refl

verify_proof_replayed_example :
    let first = verify_proof toy in_redis good_proof 15 16 in
    let second = verify_proof toy first.0 good_proof 17 18 in
    (second.1.valid ≡ first.1.valid) × (second.1.reason ≡ first.1.reason)
verify_proof_replayed_example =
    verify_proof_replayed toy in_redis good_proof the_challenge
      ((redis_key (codes "c1"), codes "c") ∷ []) 15 16 17 18 refl held refl (omega arith)
      (omega arith)

abbrev scores : Map (Value ℕ)
scores = (codes "min_score", float 40) ∷ (codes "max_score", float 90) ∷ []

scores-range : (verify_claim toy trust_range scores).0 ≡ true
unfolding run_functions
scores-range = refl

sign : List ℕ → List ℕ
sign digest = repeat 64 171

sign-accepted : (m : List ℕ) → toy.ed25519_verify (171 ∷ []) m (sign m) ≡ true
unfolding sign repeat eq_text
sign-accepted m = refl

sign-sized : (m : List ℕ) → IsBytes (sign m) × (length (sign m) ≡ 64)
unfolding sign repeat
sign-sized m = (omega arith, refl)

generate-verify_example :
    let v' =
      (generate_challenge toy in_memory
        (codes "t1")
        trust_range
        []
        (some (1 ∷ 2 ∷ []))
        (18 ∷ 52 ∷ [])
        100).0 in
    (verify_proof toy v'
      (record {
        challenge_id = hex_encode (18 ∷ 52 ∷ []);
        tenant_id = codes "t1";
        commitment = codes "00";
        response =
            hex_encode
              (sign (message_hash toy (codes "00") (hex_encode (1 ∷ 2 ∷ [])) (codes "{}")));
        public_inputs = scores;
      })
      105
      106).1.valid
    ≡ true
generate-verify_example =
    generate-verify toy in_memory (codes "t1") trust_range [] (1 ∷ 2 ∷ []) (18 ∷ 52 ∷ []) 100 sign
      (codes "t1") (codes "00") (codes "{}") scores 105 106 (λ r e. absurd cc) sign-accepted
      sign-sized refl scores-range (omega arith)
