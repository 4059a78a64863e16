-- ===== src/Zkp/Checks.antt =====
-- internal/compliance/handlers/zkp/verifier.go: challenges, proofs, and the checks of a proof.
--
-- A reason is a constructor for each text of the source, with what is formatted into it.
use aocs_compliance_svc.Common.{
  ℕ, Bool, true, false, ◌||◌, ◌&&◌, not, List, [], ◌∷◌, ◌++◌, Option, none, some, ℤ, ◌==◌, length,
  is_empty, if◌then◌else◌,
}
use aocs_compliance_svc.Text.{Text, codes, eq_text}
use aocs_compliance_svc.Text.Utf8.{bytes_of_text}
use aocs_compliance_svc.Text.Hex.{hex_encode, hex_decode}
use aocs_compliance_svc.Text.Maps.{Map, lookup}

-- float64 as the verifier uses it: `<`, the bounds 0 and 1, the conversion from int, and
-- big.Float's Text('f', 6).
pub record Floats : Type 1 where
  pub Float : Type 0
  pub less : Float → Float → Bool
  pub lowest : Float
  pub highest : Float
  pub of_int : ℤ → Float
  pub text_6 : Float → Text

-- What map[string]any holds where the verifier reads it.
pub data Value (F : Type 0) : Type 0 where
  str : Text → Value F
  float : F → Value F
  int : ℤ → Value F
  other : Value F

pub data ProofType : Type 0 where
  trust_range identity compliance attestation : ProofType
  unsupported : Text → ProofType

-- ZKPChallenge.
pub record Challenge (F : Type 0) : Type 0 where
  pub challenge_id : Text
  pub tenant_id : Text
  pub proof_type : ProofType
  pub nonce : Text
  pub issued_at : ℕ
  pub expires_at : ℕ
  pub parameters : Map (Value F)

-- The fields of types.ZKPProof that the verifier reads.
pub record Proof (F : Type 0) : Type 0 where
  pub challenge_id : Text
  pub tenant_id : Text
  pub commitment : Text
  pub response : Text
  pub public_inputs : Map (Value F)

pub data Reason (F : Type 0) : Type 0 where
  not_found expired bad_encoding bad_signature marshal_failed bad_range : Reason F
  bad_commitment range_mismatch silent identity_verified : Reason F
  unsupported_type : ProofType → Reason F
  bad_length : ℕ → Reason F
  pedersen_proven attested_range : F → F → Reason F
  compliance_proven attestation_verified : Text → Reason F

-- ZKPVerificationResult; the type is none where the source leaves the field empty.
pub record Result (F : Type 0) : Type 0 where
  pub challenge_id : Text
  pub tenant_id : Text
  pub proof_type : Option ProofType
  pub valid : Bool
  pub reason : Reason F
  pub verified_at : ℕ

-- What the verifier takes from elsewhere: float64, crypto/sha256 and crypto/ed25519, encoding/json,
-- and a client of Redis. `none` is an error; `set` and `del` say whether they went through.
pub record Platform : Type 1 where
  pub floats : Floats
  pub sha256 : List ℕ → List ℕ
  pub ed25519_verify : List ℕ → List ℕ → List ℕ → Bool
  pub marshal_inputs : Map (Value floats.Float) → Option Text
  pub marshal_challenge : Challenge floats.Float → Option Text
  pub unmarshal_challenge : Text → Option (Challenge floats.Float)
  pub Redis : Type 0
  pub redis_set : Redis → Text → Text → ℕ → Redis × Bool
  pub redis_get : Redis → Text → Option Text
  pub redis_del : Redis → Text → Redis × Bool

abbrev pub signature_size : ℕ
signature_size = 64

abbrev pub redis_key : Text → Text
redis_key id = codes "zkp:challenge:" ++ id

abbrev is_nonempty : Text → Bool
is_nonempty t = not (is_empty t)

module _ (p : Platform) where
  open p use {floats, sha256, ed25519_verify}
  open p use {marshal_inputs, marshal_challenge, unmarshal_challenge}
  open p use {Redis, redis_set, redis_get, redis_del}
  open floats use {Float, less, lowest, highest, of_int, text_6}

  -- getFloat, without the flag that the callers drop.
  unfoldable pub get_float : Map (Value Float) → Text → Float
  get_float m key = elim (lookup key m) [
    | some (float x) ↦ x
    | some (int n) ↦ of_int n
    | some (str s) ↦ lowest
    | some other ↦ lowest
    | none ↦ lowest
  ]

  -- `m[key].(string)`, "" where it is no string.
  unfoldable pub get_string : Map (Value Float) → Text → Text
  get_string m key = elim (lookup key m) [
    | some (str s) ↦ s
    | some (float x) ↦ []
    | some (int n) ↦ []
    | some other ↦ []
    | none ↦ []
  ]

  -- The digest that the prover signs.
  unfoldable pub message_hash : Text → Text → Text → List ℕ
  message_hash commitment nonce inputs_json =
      sha256 (bytes_of_text (commitment ++ (b'|' ∷ (nonce ++ (b'|' ∷ inputs_json)))))

  -- verifyEd25519Proof.
  unfoldable pub verify_ed25519_proof : List ℕ → Challenge Float → Proof Float → Bool × Reason Float
  verify_ed25519_proof key challenge proof = elim (marshal_inputs proof.public_inputs) [
    | none ↦ (false, marshal_failed)
    | some inputs_json ↦ elim (hex_decode proof.response) [
      | none ↦ (false, bad_encoding)
      | some sig ↦
          if not (length sig == signature_size)
          then (false, bad_length (length sig))
          else if not
              (ed25519_verify key (message_hash proof.commitment challenge.nonce inputs_json) sig)
          then (false, bad_signature)
          else (true, silent)
    ]
  ]

  -- The digest that binds a commitment to a range.
  unfoldable pub range_hash : Text → Text → Float → Float → Text
  range_hash commit_hex nonce_hex min_score max_score =
      hex_encode (
        sha256
          (bytes_of_text (commit_hex ++ (text_6 min_score ++ (text_6 max_score ++ nonce_hex)))))

  -- verifyRangeCommitment.
  unfoldable pub verify_range_commitment : Text → Text → Text → Float → Float → Bool × Reason Float
  verify_range_commitment commit_hex range_proof_hex nonce_hex min_score max_score =
      elim (hex_decode commit_hex) [
        | none ↦ (false, bad_commitment)
        | some _ ↦
            if eq_text range_proof_hex (range_hash commit_hex nonce_hex min_score max_score)
            then (true, silent)
            else (false, range_mismatch)
      ]

  -- The commitment, the range proof and the nonce are all there.
  unfoldable pub whole_commitment : Map (Value Float) → Bool
  whole_commitment inputs =
      is_nonempty (get_string inputs (codes "commitment_hex"))
      && is_nonempty (get_string inputs (codes "range_proof_hex"))
      && is_nonempty (get_string inputs (codes "nonce_hex"))

  -- The part of verifyTrustRangeProof behind the signature.
  unfoldable pub verify_range : Map (Value Float) → Bool × Reason Float
  verify_range inputs =
      let min_score = get_float inputs (codes "min_score") in
      let max_score = get_float inputs (codes "max_score") in
      let commit_hex = get_string inputs (codes "commitment_hex") in
      let range_proof_hex = get_string inputs (codes "range_proof_hex") in
      let nonce_hex = get_string inputs (codes "nonce_hex") in
      if less min_score lowest || less highest max_score || less max_score min_score
      then (false, bad_range)
      else if whole_commitment inputs
      then (let (ok, reason) =
            verify_range_commitment commit_hex range_proof_hex nonce_hex min_score max_score in
          if not ok then (false, reason) else (true, pedersen_proven min_score max_score))
      else (true, attested_range min_score max_score)

  -- The check that a challenge's type asks for, behind the signature: the rest of
  -- verifyTrustRangeProof, verifyIdentityProof, verifyComplianceProof and verifyAttestationProof.
  unfoldable pub verify_claim : ProofType → Map (Value Float) → Bool × Reason Float
  verify_claim trust_range inputs = verify_range inputs
  verify_claim identity inputs = (true, identity_verified)
  verify_claim compliance inputs = (true, compliance_proven (get_string inputs (codes "policy_id")))
  verify_claim attestation inputs =
      (true, attestation_verified (get_string inputs (codes "peer_id")))
  verify_claim (unsupported t) inputs = (false, unsupported_type (unsupported t))

  -- The `switch` of VerifyProof. An unsupported type is refused before any signature.
  unfoldable pub verify_by_type :
      ProofType → List ℕ → Challenge Float → Proof Float → Bool × Reason Float
  verify_by_type (unsupported t) key challenge proof = (false, unsupported_type (unsupported t))
  verify_by_type type key challenge proof =
      let (ok, reason) = verify_ed25519_proof key challenge proof in
      if not ok then (false, reason) else verify_claim type proof.public_inputs
