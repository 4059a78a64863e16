-- ===== src/Zkp/Verifier/SingleUse.antt =====
-- A challenge is used once, as long as its deletion goes through.
use aocs_compliance_svc.Common.{
  ℕ, ◌≤◌, ◌≡◌, inl, inr, false, none, some, arith, ap, sym, ◌∙◌, Option-cases,
}
use aocs_compliance_svc.Text.{Text, eq_text}
use aocs_compliance_svc.Text.Maps.{lookup-delete_self, lookup-delete_ne}
use aocs_compliance_svc.Zkp.Checks.{
  Challenge, Proof, not_found, Platform, redis_key, verify_by_type,
}
use aocs_compliance_svc.Zkp.Verifier.{
  Verifier, redis_challenge, find_challenge, consume, answer, verify_proof,
}

module _ (p : Platform) where
  open p use {floats, Redis, redis_get, redis_del}
  open floats use {Float}

  -- Redis, where there is one, forgets a key that is deleted.
  abbrev pub Forgets : Verifier p → Text → Type 0
  Forgets v id =
      (r : Redis)
      → v.redis ≡ some r
      → redis_get (redis_del r (redis_key id)).0 (redis_key id) ≡ none

  -- Redis, where there is one, keeps the other keys.
  abbrev pub KeepsOthers : Verifier p → Text → Text → Type 0
  KeepsOthers v id other_id =
      (r : Redis)
      → v.redis ≡ some r
      → redis_get (redis_del r (redis_key id)).0 (redis_key other_id)
        ≡ redis_get r (redis_key other_id)

  find_challenge-consume :
      (v : Verifier p) (id : Text) → Forgets v id → find_challenge p (consume p v id) id ≡ none
  unfolding find_challenge redis_challenge consume
  find_challenge-consume v id forgets = elim (Option-cases v.redis) [
    | inl no_redis ↦ ground (arith, lookup-delete_self id v.challenges)
    | inr (r, e) ↦ ground (arith, lookup-delete_self id v.challenges, forgets r e)
  ]

  find_challenge-consume_ne :
      (v : Verifier p) (id other_id : Text)
      → eq_text id other_id ≡ false
      → KeepsOthers v id other_id
      → find_challenge p (consume p v id) other_id ≡ find_challenge p v other_id
  unfolding find_challenge redis_challenge consume
  find_challenge-consume_ne v id other_id ne keeps = elim (Option-cases v.redis) [
    | inl no_redis ↦ ground (arith, lookup-delete_ne id other_id v.challenges)
    | inr (r, e) ↦ ground (arith, lookup-delete_ne id other_id v.challenges, keeps r e)
  ]

  -- The challenges of two verifiers are the same.
  abbrev SameStores : Verifier p → Verifier p → Type 0
  SameStores v v' = (v.challenges ≡ v'.challenges) × (v.redis ≡ v'.redis)

  find_challenge_same :
      (v v' : Verifier p) (id : Text)
      → SameStores v v'
      → find_challenge p v id ≡ find_challenge p v' id
  unfolding find_challenge
  find_challenge_same v v' id (e, e') = rw (e, e')

  answer-SameStores :
      (v : Verifier p) (proof : Proof Float) (c : Challenge Float) (now later : ℕ)
      → SameStores (answer p v proof c now later).0 (consume p v proof.challenge_id)
  unfolding answer
  answer-SameStores v proof c now later = ground arith

  -- VerifyProof of an unknown challenge, and of a known one.
  pub verify_proof_unknown :
      (v : Verifier p) (proof : Proof Float) (now later : ℕ)
      → find_challenge p v proof.challenge_id ≡ none
      → let (v', r) = verify_proof p v proof now later in
        (v' ≡ v) × (r.valid ≡ false) × (r.reason ≡ not_found)
  unfolding verify_proof
  verify_proof_unknown v proof now later h = ground arith

  pub verify_proof_known :
      (v : Verifier p) (proof : Proof Float) (c : Challenge Float) (now later : ℕ)
      → find_challenge p v proof.challenge_id ≡ some c
      → verify_proof p v proof now later ≡ answer p v proof c now later
  unfolding verify_proof
  verify_proof_known v proof c now later h = rw (h, verify_proof)

  verify_proof-forgotten :
      (v : Verifier p) (proof : Proof Float) (now later : ℕ)
      → Forgets v proof.challenge_id
      → find_challenge p (verify_proof p v proof now later).0 proof.challenge_id ≡ none
  verify_proof-forgotten v proof now later forgets =
      elim (Option-cases (find_challenge p v proof.challenge_id)) [
        | inl unknown ↦ rw (verify_proof_unknown v proof now later unknown).0 unknown
        | inr (c, known) ↦ rw (verify_proof_known v proof c now later known) (
            find_challenge_same _ _ proof.challenge_id (answer-SameStores v proof c now later)
            ∙ find_challenge-consume v proof.challenge_id forgets)
      ]

  -- Whatever a proof's verdict was, a second proof for its challenge is refused as not found,
  -- where Redis, if there is one, forgets the deleted key.
  pub verify_proof_twice :
      (v : Verifier p) (proof proof' : Proof Float) (now later now' later' : ℕ)
      → Forgets v proof.challenge_id
      → proof'.challenge_id ≡ proof.challenge_id
      → let r = (verify_proof p (verify_proof p v proof now later).0 proof' now' later').1 in
        (r.valid ≡ false) × (r.reason ≡ not_found)
  verify_proof_twice v proof proof' now later now' later' forgets same =
      let v' = (verify_proof p v proof now later).0 in
      let (_, invalid, reason) =
        verify_proof_unknown v' proof' now' later'
          (rw same (verify_proof-forgotten v proof now later forgets)) in
      (invalid, reason)

  -- A proof leaves the challenges with other ids as they are, where Redis, if there is one, keeps
  -- its other keys.
  pub verify_proof_others :
      (v : Verifier p) (proof : Proof Float) (now later : ℕ) (other_id : Text)
      → eq_text proof.challenge_id other_id ≡ false
      → KeepsOthers v proof.challenge_id other_id
      → find_challenge p (verify_proof p v proof now later).0 other_id ≡ find_challenge p v other_id
  verify_proof_others v proof now later other_id ne keeps =
      elim (Option-cases (find_challenge p v proof.challenge_id)) [
        | inl unknown ↦ rw (verify_proof_unknown v proof now later unknown).0
        | inr (c, known) ↦ rw (verify_proof_known v proof c now later known) (
            find_challenge_same _ _ other_id (answer-SameStores v proof c now later)
            ∙ find_challenge-consume_ne v proof.challenge_id other_id ne keeps)
      ]

  pub find_challenge_redis :
      (v : Verifier p) (id : Text) (c : Challenge Float)
      → redis_challenge p v.redis id ≡ some c
      → find_challenge p v id ≡ some c
  unfolding find_challenge
  find_challenge_redis v id c h = rw (h, find_challenge)

  redis_challenge-consume :
      (v : Verifier p) (id : Text) (r : Redis)
      → v.redis ≡ some r
      → redis_get (redis_del r (redis_key id)).0 (redis_key id) ≡ redis_get r (redis_key id)
      → redis_challenge p (consume p v id).redis id ≡ redis_challenge p v.redis id
  unfolding redis_challenge consume
  redis_challenge-consume v id r e stays = ground arith

  pub answer_timely :
      (v : Verifier p) (proof : Proof Float) (c : Challenge Float) (now later : ℕ)
      → now ≤ c.expires_at
      → let (v', r) = answer p v proof c now later in
        let verdict = verify_by_type p c.proof_type v.ed25519_public_key c proof in
        (r.valid ≡ verdict.0)
        × (r.reason ≡ verdict.1)
        × (v'.ed25519_public_key ≡ v.ed25519_public_key)
  unfolding answer consume
  answer_timely v proof c now later le = ground arith

  pub verify_proof_timely :
      (v : Verifier p) (proof : Proof Float) (c : Challenge Float) (now later : ℕ)
      → find_challenge p v proof.challenge_id ≡ some c
      → now ≤ c.expires_at
      → let (v', r) = verify_proof p v proof now later in
        let verdict = verify_by_type p c.proof_type v.ed25519_public_key c proof in
        (r.valid ≡ verdict.0)
        × (r.reason ≡ verdict.1)
        × (v'.ed25519_public_key ≡ v.ed25519_public_key)
        × (v'.redis ≡ (consume p v proof.challenge_id).redis)
  verify_proof_timely v proof c now later known le =
      let (verdict, reason, key) = answer_timely v proof c now later le in
      let (_, redis) = answer-SameStores v proof c now later in
      rw (verify_proof_known v proof c now later known) (verdict, reason, key, redis)

  -- Where Redis has the challenge, and still has it after the deletion, a second run of the same
  -- proof gets the verdict of the first, as long as neither comes after the expiry.
  pub verify_proof_replayed :
      (v : Verifier p) (proof : Proof Float) (c : Challenge Float) (r : Redis)
      (now later now' later' : ℕ)
      → v.redis ≡ some r
      → redis_challenge p (some r) proof.challenge_id ≡ some c
      → redis_get (redis_del r (redis_key proof.challenge_id)).0 (redis_key proof.challenge_id)
        ≡ redis_get r (redis_key proof.challenge_id)
      → now ≤ c.expires_at
      → now' ≤ c.expires_at
      → let first = verify_proof p v proof now later in
        let second = verify_proof p first.0 proof now' later' in
        (second.1.valid ≡ first.1.valid) × (second.1.reason ≡ first.1.reason)
  verify_proof_replayed v proof c r now later now' later' e known stays le le' =
      let v' = (verify_proof p v proof now later).0 in
      let held : redis_challenge p v.redis proof.challenge_id ≡ some c = rw e known in
      let found = find_challenge_redis v proof.challenge_id c held in
      let (verdict, reason, key, redis) = verify_proof_timely v proof c now later found le in
      let again : redis_challenge p v'.redis proof.challenge_id ≡ some c =
        rw redis (redis_challenge-consume v proof.challenge_id r e stays ∙ held) in
      let found' = find_challenge_redis v' proof.challenge_id c again in
      let (verdict', reason', _, _) = verify_proof_timely v' proof c now' later' found' le' in
      let same = ap (λ k. verify_by_type p c.proof_type k c proof) key in
      (verdict' ∙ ap (λ t. t.0) same ∙ sym verdict, reason' ∙ ap (λ t. t.1) same ∙ sym reason)
