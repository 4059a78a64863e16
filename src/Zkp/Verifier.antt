-- ===== src/Zkp/Verifier.antt =====
-- internal/compliance/handlers/zkp/verifier.go: the challenge store, and the methods that use it.
--
-- A method takes the verifier and returns the new one with its result; the mutex makes each a single
-- step. The clock and the random bytes of a call are its arguments, times in nanoseconds.
pub mod SingleUse
pub mod Soundness
pub mod Completeness
mod Tests
use aocs_compliance_svc.Zkp.Checks.{
  Challenge, Platform, Proof, ProofType, Result, Value, expired, not_found, redis_key,
  verify_by_type,
}
use aocs_compliance_svc.Common.{
  ℕ, ◌+◌, false, List, [], ◌∷◌, ◌++◌, Option, none, some, ltb, length, if◌then◌else◌,
}
use aocs_compliance_svc.Text.{Text}
use aocs_compliance_svc.Text.Hex.{hex_encode}
use aocs_compliance_svc.Text.Maps.{Map, lookup, insert, delete}

module _ (p : Platform) where
  open p use {floats}
  open p use {marshal_challenge, unmarshal_challenge}
  open p use {Redis, redis_set, redis_get, redis_del}
  open floats use {Float}

  -- ZKPVerifier. `spawned` holds the results handed to the goroutines of persistVerification.
  pub record Verifier : Type 0 where
    pub challenges : Map (Challenge Float)
    pub redis : Option Redis
    pub ed25519_public_key : List ℕ
    pub default_challenge_ttl : ℕ
    pub spawned : List (Result Float)

  -- GenerateChallenge. The nonce is none where rand.Read fails.
  unfoldable pub generate_challenge :
      Verifier
      → Text
      → ProofType
      → Map (Value Float)
      → Option (List ℕ)
      → List ℕ
      → ℕ
      → Verifier × Option (Challenge Float)
  generate_challenge v tenant_id proof_type params none id_bytes now = (v, none)
  generate_challenge v tenant_id proof_type params (some nonce) id_bytes now =
      let challenge : Challenge Float = record {
        challenge_id = hex_encode id_bytes;
        tenant_id = tenant_id;
        proof_type = proof_type;
        nonce = hex_encode nonce;
        issued_at = now;
        expires_at = now + v.default_challenge_ttl;
        parameters = params;
      } in
      let kept = record v { challenges = insert challenge.challenge_id challenge v.challenges } in
      elim v.redis [
        | none ↦ (kept, some challenge)
        | some r ↦ elim (marshal_challenge challenge) [
          | none ↦ (v, some challenge)
          | some b ↦
              let (r', went) =
                redis_set r (redis_key challenge.challenge_id) b v.default_challenge_ttl in
              if went
              then (record v { redis = some r' }, some challenge)
              else (record kept { redis = some r' }, some challenge)
        ]
      ]

  -- The lookup in Redis: none where it has no challenge that can be read.
  unfoldable pub redis_challenge : Option Redis → Text → Option (Challenge Float)
  redis_challenge none id = none
  redis_challenge (some r) id = elim (redis_get r (redis_key id)) [
    | none ↦ none
    | some b ↦ unmarshal_challenge b
  ]

  -- The first part of VerifyProof: Redis, then the memory.
  unfoldable pub find_challenge : Verifier → Text → Option (Challenge Float)
  find_challenge v id = elim (redis_challenge v.redis id) [
    | some c ↦ some c
    | none ↦ lookup id v.challenges
  ]

  -- The deletion from both stores.
  unfoldable pub consume : Verifier → Text → Verifier
  consume v id = record v {
    challenges = delete id v.challenges;
    redis = elim v.redis [ none ↦ none | some r ↦ some (redis_del r (redis_key id)).0 ];
  }

  -- VerifyProof behind the lookup, at the challenge that was found.
  unfoldable pub answer : Verifier → Proof Float → Challenge Float → ℕ → ℕ → Verifier × Result Float
  answer v proof challenge now later =
      if ltb challenge.expires_at now
      then (
        consume v proof.challenge_id,
        record {
          challenge_id = proof.challenge_id;
          tenant_id = challenge.tenant_id;
          proof_type = some challenge.proof_type;
          valid = false;
          reason = expired;
          verified_at = later;
        },
      )
      else (let (valid, reason) =
            verify_by_type p challenge.proof_type v.ed25519_public_key challenge proof in
          let result : Result Float = record {
            challenge_id = proof.challenge_id;
            tenant_id = challenge.tenant_id;
            proof_type = some challenge.proof_type;
            valid = valid;
            reason = reason;
            verified_at = later;
          } in
          let v' = consume v proof.challenge_id in
          (record v' { spawned = v'.spawned ++ result ∷ [] }, result))

  -- VerifyProof. The clock is read for the expiry and again for the result.
  unfoldable pub verify_proof : Verifier → Proof Float → ℕ → ℕ → Verifier × Result Float
  verify_proof v proof now later = elim (find_challenge v proof.challenge_id) [
    | none ↦ (
      v,
      record {
        challenge_id = proof.challenge_id;
        tenant_id = proof.tenant_id;
        proof_type = none;
        valid = false;
        reason = not_found;
        verified_at = later;
      },
    )
    | some challenge ↦ answer v proof challenge now later
  ]

  -- PendingChallenges.
  unfoldable pub pending_challenges : Verifier → ℕ
  pending_challenges v = length v.challenges
