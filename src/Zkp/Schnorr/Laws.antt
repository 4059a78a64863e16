-- ===== src/Zkp/Schnorr/Laws.antt =====
-- The Schnorr proof is complete, and two proofs with one commitment determine the key.
use native.Mathlib.Nat.{mod-add-mod, add-mod, add-mod-mod, add-mul-mod_self_left, mod-mod, zero-mod}
use aocs_compliance_svc.Common.{
  ℕ, zero, suc, ◌+◌, ◌*◌, ◌-◌, ◌%◌, ◌<◌, ◌≡◌, refl, ◌≢◌, true, List, [], ◌∷◌, some, arith, ap, sym,
  ◌∙◌, ◌==◌, ==_refl, ==_iff, Bool-cases, inl, inr,
}
use aocs_compliance_svc.Text.{Text}
use aocs_compliance_svc.Text.Hex.{hex_decode, hex_decode-hex_encode, IsBytes}
use aocs_compliance_svc.Text.BigInt.{
  set_bytes, set_bytes-nil, big_bytes, set_bytes-big_bytes, IsBytes-big_bytes,
}
use aocs_compliance_svc.Zkp.Schnorr.{
  Point, Curve, SchnorrProof, valid, proof, challenge_of, challenge_at, binding_message, make_proof,
  generate_schnorr_proof, Decoded, verify_decoded, verify_schnorr_proof,
}

-- The curve is a cyclic group of the order that the source reduces by, with generator G: what
-- crypto/elliptic documents of P-256, whose cofactor is 1.
pub record IsCyclic (c : Curve) : Type 0 where
  pub order_pos : 0 < c.order
  pub base-mod : (k : ℕ) → c.scalar_base_mult (k % c.order) ≡ c.scalar_base_mult k
  pub add-mult :
      (a b e : ℕ)
      → c.add (c.scalar_base_mult a) (c.scalar_mult (c.scalar_base_mult b) e)
        ≡ c.scalar_base_mult (a + e * b)
  pub base-on_curve : (k : ℕ) → k % c.order ≢ 0 → c.is_on_curve (c.scalar_base_mult k) ≡ true
  pub on_curve-base : (p : Point) → c.is_on_curve p ≡ true → (k : ℕ) × (p ≡ c.scalar_base_mult k)
  pub base_injective :
      (a b : ℕ) → c.scalar_base_mult a ≡ c.scalar_base_mult b → a % c.order ≡ b % c.order

-- The parts that decoding the texts of a proof gives.
pub record IsDecoded (p : SchnorrProof) (d : Decoded) : Type 0 where
  pub rx-eq : hex_decode p.commit_x ≡ some d.rx
  pub ry-eq : hex_decode p.commit_y ≡ some d.ry
  pub s-eq : hex_decode p.response ≡ some d.s
  pub qx-eq : hex_decode p.public_key_x ≡ some d.qx
  pub qy-eq : hex_decode p.public_key_y ≡ some d.qy
  pub nonce-eq : hex_decode p.nonce ≡ some d.nonce

spread_left : (d s e x : ℕ) → d * s + d * (e * x) ≡ d * (s + e * x)
spread_left d s e x = grind arith

spread_right : (d s e x : ℕ) → d * (s + e * x) ≡ d * s + x * (d * e)
spread_right d s e x = grind arith

gather : (d s e x : ℕ) → d * s + x * (d * e + 1) ≡ d * s + x + d * (e * x)
gather d s e x = grind arith

swap : (a b c : ℕ) → a + b + c ≡ b + a + c
swap a b c = omega arith

nothing_times : (a b : ℕ) → zero * a ≡ zero * b
nothing_times a b = grind arith

at_least : (n : ℕ) → 0 < n → (k : ℕ) × (n ≡ suc k)
at_least zero pos = absurd (omega (arith, pos))
at_least (suc k) pos = (k, refl)

module _ (c : Curve) (cyclic : IsCyclic c) where
  open c use {order, scalar_base_mult, scalar_mult, add, is_on_curve}

  -- The equation of the proof.
  response_equation :
      (x r e : ℕ)
      → scalar_base_mult ((r + e * x) % order)
        ≡ add (scalar_base_mult r) (scalar_mult (scalar_base_mult x) e)
  response_equation x r e = cyclic.base-mod (r + e * x) ∙ sym (cyclic.add-mult r x e)

  verify_decoded_complete :
      (q r : Point) (s : ℕ) (message : Text) (nonce : List ℕ)
      → is_on_curve q ≡ true
      → is_on_curve r ≡ true
      → scalar_base_mult s ≡ add r (scalar_mult q (challenge_at c q r message nonce))
      → verify_decoded c
          (record {
            rx = big_bytes r.0;
            ry = big_bytes r.1;
            s = big_bytes s;
            qx = big_bytes q.0;
            qy = big_bytes q.1;
            nonce = nonce;
          })
          message
        ≡ valid message
  unfolding verify_decoded challenge_at
  verify_decoded_complete (qx, qy) (rx, ry) s message nonce on on' eq =
      let p =
        add (rx, ry) (scalar_mult (qx, qy) (challenge_at c (qx, qy) (rx, ry) message nonce)) in
      rw
        (
          set_bytes-big_bytes qx,
          set_bytes-big_bytes qy,
          set_bytes-big_bytes rx,
          set_bytes-big_bytes ry,
          set_bytes-big_bytes s,
          on,
          on',
          eq,
          ==_refl p.0,
          ==_refl p.1,
        )
        refl

  make_proof-valid :
      (x r : ℕ) (message : Text) (nonce : List ℕ)
      → x % order ≢ 0
      → r % order ≢ 0
      → IsBytes nonce
      → verify_schnorr_proof c (make_proof c x r message nonce) ≡ valid message
  unfolding verify_schnorr_proof make_proof
  make_proof-valid x r message nonce hx hr bytes =
      let q = scalar_base_mult x in
      let k = scalar_base_mult r in
      let s = (r + challenge_at c q k message nonce * x) % order in
      rw
        (
          hex_decode-hex_encode (big_bytes k.0) (IsBytes-big_bytes k.0),
          hex_decode-hex_encode (big_bytes k.1) (IsBytes-big_bytes k.1),
          hex_decode-hex_encode (big_bytes s) (IsBytes-big_bytes s),
          hex_decode-hex_encode (big_bytes q.0) (IsBytes-big_bytes q.0),
          hex_decode-hex_encode (big_bytes q.1) (IsBytes-big_bytes q.1),
          hex_decode-hex_encode nonce bytes,
          verify_schnorr_proof,
        )
        (verify_decoded_complete q k s message nonce (cyclic.base-on_curve x hx)
          (cyclic.base-on_curve r hr) (response_equation x r (challenge_at c q k message nonce)))

  -- Over a cyclic group, a private key that decodes to no multiple of the order signs, with random
  -- bytes that are no multiple of the order either and a nonce of bytes, a proof that the verifier
  -- accepts with the binding message.
  pub generate-verify_schnorr :
      (private_key_hex agent_id tenant_id proof_type : Text) (claim_bytes key rs fs_nonce : List ℕ)
      → hex_decode private_key_hex ≡ some key
      → set_bytes key % order ≢ 0
      → set_bytes rs % order ≢ 0
      → IsBytes fs_nonce
      → (p : SchnorrProof) × (generate_schnorr_proof c private_key_hex agent_id tenant_id proof_type
            claim_bytes
            (some rs)
            fs_nonce
          ≡ proof p)
        × (verify_schnorr_proof c p
            ≡ valid (binding_message c agent_id tenant_id proof_type claim_bytes))
  unfolding generate_schnorr_proof
  generate-verify_schnorr pk agent tenant kind claim [] rs nonce decoded hx hr bytes =
      absurd (hx (rw set_bytes-nil (zero-mod order)))
  generate-verify_schnorr pk agent tenant kind claim (b ∷ bs) rs nonce decoded hx hr bytes =
      let m = binding_message c agent tenant kind claim in
      (
        make_proof c (set_bytes (b ∷ bs)) (set_bytes rs % order) m nonce,
        rw (decoded, generate_schnorr_proof) refl,
        make_proof-valid (set_bytes (b ∷ bs)) (set_bytes rs % order) m nonce hx
            (rw (mod-mod (set_bytes rs) order) hr) bytes,
      )

  -- What the verifier has checked when it accepts.
  verify_decoded-accepted :
      (d : Decoded) (message message' : Text)
      → verify_decoded c d message ≡ valid message'
      → let q : Point = (set_bytes d.qx, set_bytes d.qy) in
        let r : Point = (set_bytes d.rx, set_bytes d.ry) in
        let e = challenge_of c d.qx d.qy d.rx d.ry message d.nonce in
        (is_on_curve q ≡ true)
        × (is_on_curve r ≡ true)
        × (scalar_base_mult (set_bytes d.s) ≡ add r (scalar_mult q e))
  unfolding verify_decoded
  verify_decoded-accepted d m m' h =
      let q : Point = (set_bytes d.qx, set_bytes d.qy) in
      let r : Point = (set_bytes d.rx, set_bytes d.ry) in
      let lhs = scalar_base_mult (set_bytes d.s) in
      let rhs = add r (scalar_mult q (challenge_of c d.qx d.qy d.rx d.ry m d.nonce)) in
      elim (Bool-cases (is_on_curve q)) [
        | inr off ↦ absurd (let h = rw off at h in cc)
        | inl on ↦ elim (Bool-cases (is_on_curve r)) [
          | inr off ↦ absurd (let h = rw (on, off) at h in cc)
          | inl on' ↦ elim (Bool-cases (lhs.0 == rhs.0)) [
            | inr ne ↦ absurd (let h = rw (on, on', ne) at h in cc)
            | inl eq ↦ elim (Bool-cases (lhs.1 == rhs.1)) [
              | inr ne ↦ absurd (let h = rw (on, on', eq, ne) at h in cc)
              | inl eq' ↦
                  (on, on', λ i. ((==_iff lhs.0 rhs.0).0 eq i, (==_iff lhs.1 rhs.1).0 eq' i))
            ]
          ]
        ]
      ]

  -- What an accepted proof says in the exponent.
  accepted-response :
      (d : Decoded) (message message' : Text) (x : ℕ)
      → verify_decoded c d message ≡ valid message'
      → (set_bytes d.qx, set_bytes d.qy) ≡ scalar_base_mult x
      → (k : ℕ) → (set_bytes d.rx, set_bytes d.ry) ≡ scalar_base_mult k
      → set_bytes d.s % order ≡ (k + challenge_of c d.qx d.qy d.rx d.ry message d.nonce * x) % order
  accepted-response d m m' x h q-eq k r-eq =
      let e = challenge_of c d.qx d.qy d.rx d.ry m d.nonce in
      let (_, _, eq) = verify_decoded-accepted d m m' h in
      cyclic.base_injective (set_bytes d.s) (k + e * x)
        (eq ∙ (λ i. add (r-eq i) (scalar_mult (q-eq i) e)) ∙ cyclic.add-mult k x e)

  -- Two linear equations with one unknown k.
  cross :
      (s s' e e' x k : ℕ)
      → s % order ≡ (k + e * x) % order
      → s' % order ≡ (k + e' * x) % order
      → (s + e' * x) % order ≡ (s' + e * x) % order
  cross s s' e e' x k same same' =
      sym (mod-add-mod s order (e' * x))
      ∙ ap (λ t. (t + e' * x) % order) same
      ∙ mod-add-mod (k + e * x) order (e' * x)
      ∙ ap (λ t. t % order) (omega arith)
      ∙ sym (mod-add-mod (k + e' * x) order (e * x))
      ∙ ap (λ t. (t + e * x) % order) (sym same')
      ∙ mod-add-mod s' order (e * x)

  verify_schnorr_proof-decoded :
      (p : SchnorrProof) (d : Decoded)
      → IsDecoded p d
      → verify_schnorr_proof c p ≡ verify_decoded c d p.message
  unfolding verify_schnorr_proof
  verify_schnorr_proof-decoded p d h =
      rw (h.rx-eq, h.ry-eq, h.s-eq, h.qx-eq, h.qy-eq, h.nonce-eq, verify_schnorr_proof) refl

  whole : (a t : ℕ) → a + order * t ≡ a + t + (order - 1) * t
  whole a t = let (k, is_suc) = at_least order cyclic.order_pos in rw is_suc (grind arith)

  -- What is added on both sides can be taken off.
  mod-cancel : (a b t : ℕ) → (a + t) % order ≡ (b + t) % order → a % order ≡ b % order
  mod-cancel a b t same =
      sym (add-mul-mod_self_left a order t)
      ∙ ap (λ y. y % order) (whole a t)
      ∙ sym (mod-add-mod (a + t) order ((order - 1) * t))
      ∙ ap (λ y. (y + (order - 1) * t) % order) same
      ∙ mod-add-mod (b + t) order ((order - 1) * t)
      ∙ ap (λ y. y % order) (sym (whole b t))
      ∙ add-mul-mod_self_left b order t

  scale_step : (d a : ℕ) → suc d * a ≡ a + d * a
  scale_step d a = grind arith

  mod-scale : (d a b : ℕ) → a % order ≡ b % order → (d * a) % order ≡ (d * b) % order
  mod-scale zero a b same = ap (λ y. y % order) (nothing_times a b)
  mod-scale (suc d) a b same =
      ap (λ y. y % order) (scale_step d a)
      ∙ add-mod a (d * a) order
      ∙ (λ i. (same i + mod-scale d a b same i) % order)
      ∙ sym (add-mod b (d * b) order)
      ∙ ap (λ y. y % order) (sym (scale_step d b))

  -- An inverse d of the difference of the challenges solves the equation for x.
  solve :
      (d s s' e e' x : ℕ)
      → (s + e' * x) % order ≡ (s' + e * x) % order
      → (d * e) % order ≡ (d * e' + 1) % order
      → x % order ≡ (d * s + (order - 1) * (d * s')) % order
  solve d s s' e e' x same inverse =
      let difference = mod-cancel (d * s) (d * s' + x) (d * (e' * x)) (
        ap (λ y. y % order) (spread_left d s e' x)
        ∙ mod-scale d (s + e' * x) (s' + e * x) same
        ∙ ap (λ y. y % order) (spread_right d s' e x)
        ∙ sym (add-mod-mod (d * s') (x * (d * e)) order)
        ∙ ap (λ y. (d * s' + y) % order) (mod-scale x (d * e) (d * e' + 1) inverse)
        ∙ add-mod-mod (d * s') (x * (d * e' + 1)) order
        ∙ ap (λ y. y % order) (gather d s' e' x)) in
      sym (add-mul-mod_self_left x order (d * s'))
      ∙ ap (λ y. y % order) (whole x (d * s') ∙ swap x (d * s') ((order - 1) * (d * s')))
      ∙ sym (mod-add-mod (d * s' + x) order ((order - 1) * (d * s')))
      ∙ ap (λ y. (y + (order - 1) * (d * s')) % order) (sym difference)
      ∙ mod-add-mod (d * s) order ((order - 1) * (d * s'))

  -- Over a cyclic group, two accepted proofs with the same key and the same commitment, with
  -- responses s and s' and challenges e and e', give the private key away to whoever has an inverse d
  -- of e - e' modulo the order n, where d e = d e' + 1: the key is the multiple of the generator by
  -- d s + (n - 1) d s', which is d (s - s') modulo n, and every private key of it is that number
  -- modulo n.
  pub verify_schnorr-extracts :
      (p p' : SchnorrProof) (d d' : Decoded) (m m' : Text) (inv : ℕ)
      → IsDecoded p d
      → IsDecoded p' d'
      → verify_schnorr_proof c p ≡ valid m
      → verify_schnorr_proof c p' ≡ valid m'
      → set_bytes d'.qx ≡ set_bytes d.qx
      → set_bytes d'.qy ≡ set_bytes d.qy
      → set_bytes d'.rx ≡ set_bytes d.rx
      → set_bytes d'.ry ≡ set_bytes d.ry
      → (inv * challenge_of c d.qx d.qy d.rx d.ry p.message d.nonce) % order
        ≡ (inv * challenge_of c d'.qx d'.qy d'.rx d'.ry p'.message d'.nonce + 1) % order
      → let found = inv * set_bytes d.s + (order - 1) * (inv * set_bytes d'.s) in
        ((set_bytes d.qx, set_bytes d.qy) ≡ scalar_base_mult found)
        × ((x : ℕ)
            → (set_bytes d.qx, set_bytes d.qy) ≡ scalar_base_mult x
            → x % order ≡ found % order)
  verify_schnorr-extracts p p' d d' m m' inv dec dec' acc acc' qx qy rx ry inverse =
      let e = challenge_of c d.qx d.qy d.rx d.ry p.message d.nonce in
      let e' = challenge_of c d'.qx d'.qy d'.rx d'.ry p'.message d'.nonce in
      let found = inv * set_bytes d.s + (order - 1) * (inv * set_bytes d'.s) in
      let h = sym (verify_schnorr_proof-decoded p d dec) ∙ acc in
      let h' = sym (verify_schnorr_proof-decoded p' d' dec') ∙ acc' in
      let (on-q, on-r, _) = verify_decoded-accepted d p.message m h in
      let (x, q-eq) = cyclic.on_curve-base (set_bytes d.qx, set_bytes d.qy) on-q in
      let (k, r-eq) = cyclic.on_curve-base (set_bytes d.rx, set_bytes d.ry) on-r in
      let same = accepted-response d p.message m x h q-eq k r-eq in
      let same' =
        accepted-response d' p'.message m' x h' ((λ i. (qx i, qy i)) ∙ q-eq) k
          ((λ i. (rx i, ry i)) ∙ r-eq) in
      let linear = cross (set_bytes d.s) (set_bytes d'.s) e e' x k same same' in
      let solved = solve inv (set_bytes d.s) (set_bytes d'.s) e e' x linear inverse in
      (
        q-eq ∙ sym (cyclic.base-mod x) ∙ ap scalar_base_mult solved ∙ cyclic.base-mod found,
        λ y y-eq. cyclic.base_injective y x (sym y-eq ∙ q-eq) ∙ solved,
      )
