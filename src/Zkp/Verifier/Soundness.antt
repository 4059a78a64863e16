-- ===== src/Zkp/Verifier/Soundness.antt =====
-- What a proof that is accepted has shown.
use aocs_compliance_svc.Common.{
  ℕ, ◌≤◌, ◌≡◌, ◌⊎◌, inl, inr, true, false, List, some, arith, length, Bool-cases, Option-cases,
}
use aocs_compliance_svc.Text.{Text, codes}
use aocs_compliance_svc.Text.Laws.{eq_text_sound}
use aocs_compliance_svc.Text.Hex.{hex_decode}
use aocs_compliance_svc.Text.Maps.{Map}
use aocs_compliance_svc.Zkp.Verifier.SingleUse.{verify_proof_known, verify_proof_unknown}
use aocs_compliance_svc.Zkp.Checks.{
  Value, ProofType, trust_range, identity, compliance, attestation, unsupported, Challenge, Proof,
  Platform, signature_size, get_float, get_string, message_hash, verify_ed25519_proof, range_hash,
  verify_range_commitment, verify_range, verify_claim, verify_by_type, whole_commitment,
}
use aocs_compliance_svc.Zkp.Verifier.{Verifier, find_challenge, answer, verify_proof}

module _ (p : Platform) where
  open p use {floats, ed25519_verify, marshal_inputs}
  open floats use {Float, less, lowest, highest}

  -- The response decodes to a signature of 64 bytes over the commitment, the nonce of the challenge
  -- and the public inputs, which the key accepts.
  pub record IsSigned (key : List ℕ) (c : Challenge Float) (proof : Proof Float) : Type 0 where
    pub inputs_json : Text
    pub signature : List ℕ
    pub marshalled : marshal_inputs proof.public_inputs ≡ some inputs_json
    pub decoded : hex_decode proof.response ≡ some signature
    pub size : length signature ≡ signature_size
    pub accepted :
        ed25519_verify key (message_hash p proof.commitment c.nonce inputs_json) signature ≡ true

  -- The range is within the bounds, and a commitment that comes whole is bound to it.
  pub record IsRange (inputs : Map (Value Float)) : Type 0 where
    pub above : less (get_float p inputs (codes "min_score")) lowest ≡ false
    pub below : less highest (get_float p inputs (codes "max_score")) ≡ false
    pub ordered :
        less (get_float p inputs (codes "max_score")) (get_float p inputs (codes "min_score"))
        ≡ false
    pub bound :
        (whole_commitment p inputs ≡ false)
        ⊎ (get_string p inputs (codes "range_proof_hex")
            ≡ range_hash p
                (get_string p inputs (codes "commitment_hex"))
                (get_string p inputs (codes "nonce_hex"))
                (get_float p inputs (codes "min_score"))
                (get_float p inputs (codes "max_score")))

  -- What a challenge's type asks for besides the signature.
  abbrev pub Claims : ProofType → Map (Value Float) → Type 0
  Claims trust_range inputs = IsRange inputs
  Claims identity inputs = Unit
  Claims compliance inputs = Unit
  Claims attestation inputs = Unit
  Claims (unsupported t) inputs = ⊥

  verify_ed25519_proof_sound :
      (key : List ℕ) (c : Challenge Float) (proof : Proof Float)
      → (verify_ed25519_proof p key c proof).0 ≡ true
      → IsSigned key c proof
  unfolding verify_ed25519_proof
  verify_ed25519_proof_sound key c proof h =
      elim (Option-cases (marshal_inputs proof.public_inputs)) [
        | inl failed ↦ absurd (ground arith)
        | inr (json, e) ↦ elim (Option-cases (hex_decode proof.response)) [
          | inl failed ↦ absurd (ground arith)
          | inr (sig, e') ↦ record {
            inputs_json = json;
            signature = sig;
            marshalled = e;
            decoded = e';
            size = ground arith;
            accepted = ground arith;
          }
        ]
      ]

  verify_range_sound :
      (inputs : Map (Value Float)) → (verify_range p inputs).0 ≡ true → IsRange inputs
  unfolding verify_range verify_range_commitment
  verify_range_sound inputs h = record {
    above = ground arith;
    below = ground arith;
    ordered = ground arith;
    bound = elim (Bool-cases (whole_commitment p inputs)) [
      | inl whole ↦
          inr (eq_text_sound (get_string p inputs (codes "range_proof_hex")) _ (ground arith))
      | inr part ↦ inl part
    ];
  }

  verify_by_type_sound :
      (t : ProofType) (key : List ℕ) (c : Challenge Float) (proof : Proof Float)
      → (verify_by_type p t key c proof).0 ≡ true
      → IsSigned key c proof × Claims t proof.public_inputs
  unfolding verify_by_type verify_claim
  verify_by_type_sound trust_range key c proof h = (
    verify_ed25519_proof_sound key c proof (ground arith),
    verify_range_sound proof.public_inputs (ground arith),
  )
  verify_by_type_sound identity key c proof h =
      (verify_ed25519_proof_sound key c proof (ground arith), tt)
  verify_by_type_sound compliance key c proof h =
      (verify_ed25519_proof_sound key c proof (ground arith), tt)
  verify_by_type_sound attestation key c proof h =
      (verify_ed25519_proof_sound key c proof (ground arith), tt)
  verify_by_type_sound (unsupported t) key c proof h = cc

  -- What an accepted proof has shown of the challenge that it names.
  pub record IsProven (v : Verifier p) (proof : Proof Float) (now : ℕ) : Type 0 where
    pub challenge : Challenge Float
    pub issued : find_challenge p v proof.challenge_id ≡ some challenge
    pub timely : now ≤ challenge.expires_at
    pub signed : IsSigned v.ed25519_public_key challenge proof
    pub claims : Claims challenge.proof_type proof.public_inputs

  answer_sound :
      (v : Verifier p) (proof : Proof Float) (c : Challenge Float) (now later : ℕ)
      → (answer p v proof c now later).1.valid ≡ true
      → (now ≤ c.expires_at)
        × ((verify_by_type p c.proof_type v.ed25519_public_key c proof).0 ≡ true)
  unfolding answer
  answer_sound v proof c now later h = ground arith

  -- A proof is accepted only for a challenge that the stores hold and that has not expired, with a
  -- signature over its nonce that the verifier's key accepts; a trust range lies within the
  -- bounds, and is bound to the commitment where commitment, range proof and nonce all come with
  -- it.
  pub verify_proof_sound :
      (v : Verifier p) (proof : Proof Float) (now later : ℕ)
      → (verify_proof p v proof now later).1.valid ≡ true
      → IsProven v proof now
  verify_proof_sound v proof now later h =
      elim (Option-cases (find_challenge p v proof.challenge_id)) [
        | inl unknown ↦ absurd (ground (arith, verify_proof_unknown p v proof now later unknown))
        | inr (c, known) ↦
            let (timely, verdict) =
              answer_sound v proof c now later
                (rw (verify_proof_known p v proof c now later known) at h) in
            let (signed, claims) =
              verify_by_type_sound c.proof_type v.ed25519_public_key c proof verdict in
            record {
              challenge = c;
              issued = known;
              timely = timely;
              signed = signed;
              claims = claims;
            }
      ]
