-- ===== src/Zkp/Schnorr/Tests.antt =====
-- The Schnorr theorems on a small cyclic group.
use native.Mathlib.Nat.{mod-mod, mod-add-mod, add-mod-mod, mod-eq_of_lt, add-mul-mod_self_left}
use aocs_compliance_svc.Common.{
  ℕ, ◌+◌, ◌*◌, ◌%◌, ◌/◌, ◌≡◌, refl, true, [], ◌∷◌, some, arith, ap, sym, ◌∙◌, ◌==◌, ==_iff, ◌&&◌,
  not, ltb, ltb→lt, and-eq-true,
}
use aocs_compliance_svc.Text.{Text, codes}
use aocs_compliance_svc.Text.Hex.{hex_decode, from_hex_digit}
use aocs_compliance_svc.Text.Utf8.{bytes_of_text}
use aocs_compliance_svc.Text.BigInt.{set_bytes, set_bytes_from}
use aocs_compliance_svc.Zkp.Schnorr.{
  Point, Curve, SchnorrProof, valid, proof, challenge_of, binding_message, generate_schnorr_proof,
  Decoded, verify_decoded, verify_schnorr_proof,
}
use aocs_compliance_svc.Zkp.Schnorr.Laws.{
  IsCyclic, IsDecoded, generate-verify_schnorr, verify_schnorr-extracts,
}

-- The numbers below 5, each point with its coordinate twice.
abbrev toy : Curve
toy = record {
  order = 5;
  scalar_base_mult = λ k. (k % 5, k % 5);
  scalar_mult = λ p e. ((e * p.0) % 5, (e * p.0) % 5);
  add = λ p q. ((p.0 + q.0) % 5, (p.0 + q.0) % 5);
  is_on_curve = λ p. not (p.0 == 0) && (p.0 == p.1) && ltb p.0 5;
  sha256 = λ bytes. bytes;
}

split-mul : (e r q : ℕ) → e * r + 5 * (e * q) ≡ e * (r + 5 * q)
split-mul e r q = grind arith

mul-mod_5 : (e b : ℕ) → (e * (b % 5)) % 5 ≡ (e * b) % 5
mul-mod_5 e b =
    sym (add-mul-mod_self_left (e * (b % 5)) 5 (e * (b / 5)))
    ∙ ap (λ t. t % 5) (split-mul e (b % 5) (b / 5) ∙ ap (λ t. e * t) (omega arith))

toy-add-mult : (a b e : ℕ) → (a % 5 + (e * (b % 5)) % 5) % 5 ≡ (a + e * b) % 5
toy-add-mult a b e =
    mod-add-mod a 5 ((e * (b % 5)) % 5)
    ∙ ap (λ t. (a + t) % 5) (mul-mod_5 e b)
    ∙ add-mod-mod a (e * b) 5

toy-on_curve : (p : Point) → toy.is_on_curve p ≡ true → p ≡ toy.scalar_base_mult p.0
toy-on_curve (x, y) on =
    let (both, below) = and-eq-true (not (x == 0) && (x == y)) (ltb x 5) on in
    let (_, same) = and-eq-true (not (x == 0)) (x == y) both in
    let eq = (==_iff x y).0 same in
    let small : x ≡ x % 5 = sym (mod-eq_of_lt (ltb→lt x 5 below)) in
    λ i. (small i, (sym eq ∙ small) i)

toy-IsCyclic : IsCyclic toy
toy-IsCyclic = record {
  order_pos = omega arith;
  base-mod = λ k i. (mod-mod k 5 i, mod-mod k 5 i);
  add-mult = λ a b e i. (toy-add-mult a b e i, toy-add-mult a b e i);
  base-on_curve = λ k h. ground arith;
  on_curve-base = λ p on. (p.0, toy-on_curve p on);
  base_injective = λ a b eq. ap (λ p. p.0) eq;
}

abbrev message : Text
message = binding_message toy (codes "agent") (codes "t1") (codes "identity") (1 ∷ 2 ∷ [])

generate-verify_schnorr_example :
    (p : SchnorrProof) × (generate_schnorr_proof toy
        (codes "03")
        (codes "agent")
        (codes "t1")
        (codes "identity")
        (1 ∷ 2 ∷ [])
        (some (2 ∷ []))
        (7 ∷ [])
      ≡ proof p)
    × (verify_schnorr_proof toy p ≡ valid message)
unfolding hex_decode from_hex_digit set_bytes set_bytes_from
generate-verify_schnorr_example =
    generate-verify_schnorr toy toy-IsCyclic (codes "03") (codes "agent") (codes "t1")
      (codes "identity") (1 ∷ 2 ∷ []) (3 ∷ []) (2 ∷ []) (7 ∷ []) refl (omega arith) (omega arith)
      (omega arith, tt)

-- Two proofs for the key 3 with the commitment 2.
abbrev first_proof : SchnorrProof
first_proof = record {
  commit_x = codes "02";
  commit_y = codes "02";
  response = codes "03";
  public_key_x = codes "03";
  public_key_y = codes "03";
  message = codes "m";
  nonce = codes "08";
}

abbrev second_proof : SchnorrProof
second_proof = record {
  commit_x = codes "02";
  commit_y = codes "02";
  response = codes "01";
  public_key_x = codes "03";
  public_key_y = codes "03";
  message = codes "m";
  nonce = codes "09";
}

abbrev decoded_with : ℕ → ℕ → Decoded
decoded_with s nonce = record {
  rx = 2 ∷ [];
  ry = 2 ∷ [];
  s = s ∷ [];
  qx = 3 ∷ [];
  qy = 3 ∷ [];
  nonce = nonce ∷ [];
}

first_proof-IsDecoded : IsDecoded first_proof (decoded_with 3 8)
unfolding hex_decode from_hex_digit
first_proof-IsDecoded = record {
  rx-eq = refl;
  ry-eq = refl;
  s-eq = refl;
  qx-eq = refl;
  qy-eq = refl;
  nonce-eq = refl;
}

second_proof-IsDecoded : IsDecoded second_proof (decoded_with 1 9)
unfolding hex_decode from_hex_digit
second_proof-IsDecoded = record {
  rx-eq = refl;
  ry-eq = refl;
  s-eq = refl;
  qx-eq = refl;
  qy-eq = refl;
  nonce-eq = refl;
}

first_proof-valid : verify_schnorr_proof toy first_proof ≡ valid (codes "m")
unfolding hex_decode from_hex_digit set_bytes set_bytes_from verify_schnorr_proof verify_decoded
    challenge_of bytes_of_text
first_proof-valid = refl

second_proof-valid : verify_schnorr_proof toy second_proof ≡ valid (codes "m")
unfolding hex_decode from_hex_digit set_bytes set_bytes_from verify_schnorr_proof verify_decoded
    challenge_of bytes_of_text
second_proof-valid = refl

-- The two challenges differ by 4 modulo 5, and 4 is its own inverse.
verify_schnorr-extracts_example :
    let found = 4 * set_bytes (3 ∷ []) + 4 * (4 * set_bytes (1 ∷ [])) in
    ((set_bytes (3 ∷ []), set_bytes (3 ∷ [])) ≡ toy.scalar_base_mult found)
    × ((x : ℕ)
        → (set_bytes (3 ∷ []), set_bytes (3 ∷ [])) ≡ toy.scalar_base_mult x
        → x % 5 ≡ found % 5)
unfolding set_bytes set_bytes_from challenge_of bytes_of_text
verify_schnorr-extracts_example =
    verify_schnorr-extracts toy toy-IsCyclic first_proof second_proof (decoded_with 3 8)
      (decoded_with 1 9) (codes "m") (codes "m") 4 first_proof-IsDecoded second_proof-IsDecoded
      first_proof-valid second_proof-valid refl refl refl refl refl
