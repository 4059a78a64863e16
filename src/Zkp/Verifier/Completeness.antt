-- ===== src/Zkp/Verifier/Completeness.antt =====
-- An honest prover is accepted.
use aocs_compliance_svc.Common.{
  ℕ, ◌+◌, ◌≤◌, ◌≡◌, ◌⊎◌, inl, inr, true, false, List, none, some, arith, ◌∙◌, length, Option-cases,
}
use aocs_compliance_svc.Text.{Text}
use aocs_compliance_svc.Text.Hex.{hex_encode, hex_decode, hex_decode-hex_encode, IsBytes}
use aocs_compliance_svc.Text.Maps.{Map, lookup-insert_self}
use aocs_compliance_svc.Zkp.Verifier.SingleUse.{verify_proof_timely}
use aocs_compliance_svc.Zkp.Checks.{
  Value, ProofType, trust_range, identity, compliance, attestation, unsupported, Challenge, Proof,
  Platform, signature_size, redis_key, message_hash, verify_ed25519_proof, verify_claim,
  verify_by_type,
}
use aocs_compliance_svc.Zkp.Verifier.{
  Verifier, generate_challenge, redis_challenge, find_challenge, verify_proof,
}

module _ (p : Platform) where
  open p use {floats, ed25519_verify, marshal_inputs, marshal_challenge}
  open p use {unmarshal_challenge, Redis, redis_set, redis_get}
  open floats use {Float}

  -- The challenge that GenerateChallenge makes.
  abbrev pub issue :
      Verifier p → Text → ProofType → Map (Value Float) → List ℕ → List ℕ → ℕ → Challenge Float
  issue v tenant_id proof_type params nonce id_bytes now = record {
    challenge_id = hex_encode id_bytes;
    tenant_id = tenant_id;
    proof_type = proof_type;
    nonce = hex_encode nonce;
    issued_at = now;
    expires_at = now + v.default_challenge_ttl;
    parameters = params;
  }

  -- Redis, where there is one, either gives a challenge back that it was handed, or says that it
  -- did not take it and has none.
  abbrev pub Stores : Verifier p → Challenge Float → Type 0
  Stores v c =
      (r : Redis)
      → v.redis ≡ some r
      → (b : Text) × (marshal_challenge c ≡ some b)
        × (let (r', went) = redis_set r (redis_key c.challenge_id) b v.default_challenge_ttl in
            ((redis_get r' (redis_key c.challenge_id) ≡ some b) × (unmarshal_challenge b ≡ some c))
            ⊎ ((went ≡ false) × (redis_get r' (redis_key c.challenge_id) ≡ none)))

  verify_by_type_complete :
      (t : ProofType) (key : List ℕ) (c : Challenge Float) (proof : Proof Float) (json : Text)
      (sig : List ℕ)
      → marshal_inputs proof.public_inputs ≡ some json
      → hex_decode proof.response ≡ some sig
      → length sig ≡ signature_size
      → ed25519_verify key (message_hash p proof.commitment c.nonce json) sig ≡ true
      → (verify_claim p t proof.public_inputs).0 ≡ true
      → (verify_by_type p t key c proof).0 ≡ true
  unfolding verify_by_type verify_ed25519_proof
  verify_by_type_complete trust_range key c proof json sig m d l s h = ground arith
  verify_by_type_complete identity key c proof json sig m d l s h = ground arith
  verify_by_type_complete compliance key c proof json sig m d l s h = ground arith
  verify_by_type_complete attestation key c proof json sig m d l s h = ground arith
  verify_by_type_complete (unsupported t) key c proof json sig m d l s h = unfold verify_claim in h

  module _ (v : Verifier p) (tenant_id : Text) (proof_type : ProofType) (params : Map (Value Float))
      (nonce id_bytes : List ℕ) (now : ℕ) where
    -- A challenge that is issued is found again.
    pub generate_challenge-found :
        let c = issue v tenant_id proof_type params nonce id_bytes now in
        let (v', issued) =
          generate_challenge p v tenant_id proof_type params (some nonce) id_bytes now in
        Stores v c
        → (issued ≡ some c)
          × (find_challenge p v' c.challenge_id ≡ some c)
          × (v'.ed25519_public_key ≡ v.ed25519_public_key)
    unfolding generate_challenge find_challenge redis_challenge
    generate_challenge-found stores =
        let c = issue v tenant_id proof_type params nonce id_bytes now in
        elim (Option-cases v.redis) [
          | inl no_redis ↦ ground (arith, lookup-insert_self (hex_encode id_bytes) c v.challenges)
          | inr (r, e) ↦
              let (b, marshalled, how) = stores r e in
              ground (arith, lookup-insert_self (hex_encode id_bytes) c v.challenges)
        ]

    -- The proof of a prover that signs with a function of its own.
    abbrev pub answer_with :
        (List ℕ → List ℕ) → Text → Text → Text → Map (Value Float) → Proof Float
    answer_with sign prover commitment json inputs = record {
      challenge_id = hex_encode id_bytes;
      tenant_id = prover;
      commitment = commitment;
      response = hex_encode (sign (message_hash p commitment (hex_encode nonce) json));
      public_inputs = inputs;
    }

    -- A prover whose signatures have 64 bytes and are accepted by the verifier's key is accepted
    -- for each challenge that is issued to it, until it expires, where the public inputs can be
    -- marshalled and pass the check of the challenge's type, and Redis, if there is one, gives the
    -- challenge back or says that it did not take it.
    pub generate-verify :
        (sign : List ℕ → List ℕ) (prover commitment json : Text) (inputs : Map (Value Float))
        (now' later : ℕ)
        → Stores v (issue v tenant_id proof_type params nonce id_bytes now)
        → ((m : List ℕ) → ed25519_verify v.ed25519_public_key m (sign m) ≡ true)
        → ((m : List ℕ) → IsBytes (sign m) × (length (sign m) ≡ signature_size))
        → marshal_inputs inputs ≡ some json
        → (verify_claim p proof_type inputs).0 ≡ true
        → now' ≤ now + v.default_challenge_ttl
        → let v' =
            (generate_challenge p v tenant_id proof_type params (some nonce) id_bytes now).0 in
          (verify_proof p v' (answer_with sign prover commitment json inputs) now' later).1.valid
          ≡ true
    generate-verify sign prover commitment json inputs now' later stores good sized marshalled claim
          le =
        let c = issue v tenant_id proof_type params nonce id_bytes now in
        let v' = (generate_challenge p v tenant_id proof_type params (some nonce) id_bytes now).0 in
        let proof = answer_with sign prover commitment json inputs in
        let m = message_hash p commitment (hex_encode nonce) json in
        let (_, found, key) = generate_challenge-found stores in
        let (verdict, _, _, _) = verify_proof_timely p v' proof c now' later found le in
        let (bytes, size) = sized m in
        verdict
        ∙ verify_by_type_complete proof_type v'.ed25519_public_key c proof json (sign m) marshalled
            (hex_decode-hex_encode (sign m) bytes) size (rw key (good m)) claim
