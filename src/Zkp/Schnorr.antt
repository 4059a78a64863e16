-- ===== src/Zkp/Schnorr.antt =====
-- internal/compliance/handlers/zkp/generate.go: GenerateSchnorrProof and VerifySchnorrProof.
pub mod Laws
mod Tests
use aocs_compliance_svc.Common.{
  ℕ, ◌+◌, ◌*◌, ◌%◌, Bool, not, ◌||◌, List, [], ◌∷◌, ◌++◌, Option, none, some, ◌==◌, if◌then◌else◌,
}
use aocs_compliance_svc.Text.{Text}
use aocs_compliance_svc.Text.Utf8.{bytes_of_text}
use aocs_compliance_svc.Text.Hex.{hex_encode, hex_decode}
use aocs_compliance_svc.Text.BigInt.{set_bytes, big_bytes}

-- Affine coordinates; crypto/elliptic writes the point at infinity as (0, 0).
abbrev pub Point : Type 0
Point = ℕ × ℕ

-- crypto/elliptic's P256 and crypto/sha256. The scalars that the source passes as bytes are
-- numbers here.
pub record Curve : Type 0 where
  pub order : ℕ
  pub scalar_base_mult : ℕ → Point
  pub scalar_mult : Point → ℕ → Point
  pub add : Point → Point → Point
  pub is_on_curve : Point → Bool
  pub sha256 : List ℕ → List ℕ

-- SchnorrProof, without the constant name of its algorithm.
pub record SchnorrProof : Type 0 where
  pub commit_x : Text
  pub commit_y : Text
  pub response : Text
  pub public_key_x : Text
  pub public_key_y : Text
  pub message : Text
  pub nonce : Text

pub data FailReason : Type 0 where
  invalid_commit_x invalid_commit_y invalid_response : FailReason
  invalid_pub_key_x invalid_pub_key_y invalid_nonce : FailReason
  key_off_curve commitment_off_curve equation_fails : FailReason

-- SchnorrVerifyResult: valid with the message, or invalid for a reason.
pub data VerifyResult : Type 0 where
  valid : Text → VerifyResult
  fail : FailReason → VerifyResult

pub data GenerateError : Type 0 where
  invalid_private_key rand_failed : GenerateError

pub data Generated : Type 0 where
  proof : SchnorrProof → Generated
  error : GenerateError → Generated

-- The decoded parts of a proof.
pub record Decoded : Type 0 where
  pub rx : List ℕ
  pub ry : List ℕ
  pub s : List ℕ
  pub qx : List ℕ
  pub qy : List ℕ
  pub nonce : List ℕ

module _ (curve : Curve) where
  open curve use {order, scalar_base_mult, scalar_mult, add, is_on_curve, sha256}

  -- The challenge e, from the bytes that are hashed.
  unfoldable pub challenge_of : List ℕ → List ℕ → List ℕ → List ℕ → Text → List ℕ → ℕ
  challenge_of qx qy rx ry message nonce =
      set_bytes (sha256 (qx ++ (qy ++ (rx ++ (ry ++ (bytes_of_text message ++ nonce)))))) % order

  unfoldable pub challenge_at : Point → Point → Text → List ℕ → ℕ
  challenge_at q r message nonce =
      challenge_of (big_bytes q.0) (big_bytes q.1) (big_bytes r.0) (big_bytes r.1) message nonce

  -- The message that binds a proof: the agent, the tenant, the type and the hash of the claim.
  unfoldable pub binding_message : Text → Text → Text → List ℕ → Text
  binding_message agent_id tenant_id proof_type claim_bytes =
      agent_id
      ++ (b':' ∷ (tenant_id ++ (b':' ∷ (proof_type ++ (b':' ∷ hex_encode (sha256 claim_bytes))))))

  -- The proof for a private key x and a random r below the order.
  unfoldable pub make_proof : ℕ → ℕ → Text → List ℕ → SchnorrProof
  make_proof x r message fs_nonce =
      let q = scalar_base_mult x in
      let commitment = scalar_base_mult r in
      let e = challenge_at q commitment message fs_nonce in
      let s = (r + e * x) % order in
      record {
        commit_x = hex_encode (big_bytes commitment.0);
        commit_y = hex_encode (big_bytes commitment.1);
        response = hex_encode (big_bytes s);
        public_key_x = hex_encode (big_bytes q.0);
        public_key_y = hex_encode (big_bytes q.1);
        message = message;
        nonce = hex_encode fs_nonce;
      }

  -- GenerateSchnorrProof. The random bytes are arguments, none where rand.Read fails; the claim is
  -- given by its JSON.
  unfoldable pub generate_schnorr_proof :
      Text → Text → Text → Text → List ℕ → Option (List ℕ) → List ℕ → Generated
  generate_schnorr_proof private_key_hex agent_id tenant_id proof_type claim_bytes r_bytes
        fs_nonce =
      elim (hex_decode private_key_hex) [
        | none ↦ error invalid_private_key
        | some [] ↦ error invalid_private_key
        | some (b ∷ bs) ↦ elim r_bytes [
          | none ↦ error rand_failed
          | some rs ↦ proof (
              make_proof (set_bytes (b ∷ bs)) (set_bytes rs % order)
                (binding_message agent_id tenant_id proof_type claim_bytes) fs_nonce)
        ]
      ]

  -- VerifySchnorrProof behind the decoding.
  unfoldable pub verify_decoded : Decoded → Text → VerifyResult
  verify_decoded d message =
      let q : Point = (set_bytes d.qx, set_bytes d.qy) in
      let r : Point = (set_bytes d.rx, set_bytes d.ry) in
      let e = challenge_of d.qx d.qy d.rx d.ry message d.nonce in
      let lhs = scalar_base_mult (set_bytes d.s) in
      let rhs = add r (scalar_mult q e) in
      if not (is_on_curve q)
      then fail key_off_curve
      else if not (is_on_curve r)
      then fail commitment_off_curve
      else if not (lhs.0 == rhs.0) || not (lhs.1 == rhs.1)
      then fail equation_fails
      else valid message

  -- VerifySchnorrProof.
  unfoldable pub verify_schnorr_proof : SchnorrProof → VerifyResult
  verify_schnorr_proof p = elim (hex_decode p.commit_x) [
    | none ↦ fail invalid_commit_x
    | some rx ↦ elim (hex_decode p.commit_y) [
      | none ↦ fail invalid_commit_y
      | some ry ↦ elim (hex_decode p.response) [
        | none ↦ fail invalid_response
        | some s ↦ elim (hex_decode p.public_key_x) [
          | none ↦ fail invalid_pub_key_x
          | some qx ↦ elim (hex_decode p.public_key_y) [
            | none ↦ fail invalid_pub_key_y
            | some qy ↦ elim (hex_decode p.nonce) [
              | none ↦ fail invalid_nonce
              | some nonce ↦
                  verify_decoded
                    (record { rx = rx; ry = ry; s = s; qx = qx; qy = qy; nonce = nonce }) p.message
            ]
          ]
        ]
      ]
    ]
  ]
