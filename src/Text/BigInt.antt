-- ===== src/Text/BigInt.antt =====
-- math/big: Int.Bytes and Int.SetBytes of a number that is not negative.
use aocs_compliance_svc.Common.{
  ℕ, zero, suc, ◌+◌, ◌*◌, ◌/◌, ◌%◌, ◌≤◌, ◌≡◌, refl, List, [], ◌∷◌, arith, ◌==◌, true, false,
  Bool-cases, inl, inr, ◌∙◌, ap,
}
use aocs_compliance_svc.Text.Hex.{IsBytes}

-- SetBytes, from the value of the bytes before.
unfoldable pub set_bytes_from : ℕ → List ℕ → ℕ
set_bytes_from acc [] = acc
set_bytes_from acc (b ∷ bs) = set_bytes_from (acc * 256 + b) bs

unfoldable pub set_bytes : List ℕ → ℕ
set_bytes bs = set_bytes_from 0 bs

-- Bytes, before the bytes already made; each round takes one off, so that as much fuel as the
-- number is enough.
unfoldable pub bytes_before : ℕ → ℕ → List ℕ → List ℕ
bytes_before zero n acc = acc
bytes_before (suc fuel) n acc = elim (n == 0) [
  | true ↦ acc
  | false ↦ bytes_before fuel (n / 256) ((n % 256) ∷ acc)
]

-- The big-endian bytes, with no zero in front.
unfoldable pub big_bytes : ℕ → List ℕ
big_bytes n = bytes_before n n []

set_bytes_from-bytes_before :
    (fuel n : ℕ) (acc : List ℕ)
    → n ≤ fuel
    → set_bytes_from 0 (bytes_before fuel n acc) ≡ set_bytes_from n acc
unfolding set_bytes_from bytes_before
set_bytes_from-bytes_before zero n acc h = ap (λ k. set_bytes_from k acc) (omega arith)
set_bytes_from-bytes_before (suc fuel) n acc h = elim (Bool-cases (n == 0)) [
  | inl done ↦ rw (done, bytes_before) (ap (λ k. set_bytes_from k acc) (ground arith))
  | inr more ↦
      rw (more, bytes_before)
        (set_bytes_from-bytes_before fuel (n / 256) ((n % 256) ∷ acc) (ground arith)
          ∙ ap (λ k. set_bytes_from k acc) (omega arith))
]

pub set_bytes-big_bytes : (n : ℕ) → set_bytes (big_bytes n) ≡ n
unfolding set_bytes big_bytes
set_bytes-big_bytes n =
    set_bytes_from-bytes_before n n [] (omega arith) ∙ unfold set_bytes_from in refl

IsBytes-bytes_before : (fuel n : ℕ) (acc : List ℕ) → IsBytes acc → IsBytes (bytes_before fuel n acc)
unfolding bytes_before
IsBytes-bytes_before zero n acc h = h
IsBytes-bytes_before (suc fuel) n acc h = elim (Bool-cases (n == 0)) [
  | inl done ↦ rw (done, bytes_before) h
  | inr more ↦
      rw (more, bytes_before)
        (IsBytes-bytes_before fuel (n / 256) ((n % 256) ∷ acc) (omega arith, h))
]

pub IsBytes-big_bytes : (n : ℕ) → IsBytes (big_bytes n)
unfolding big_bytes
IsBytes-big_bytes n = IsBytes-bytes_before n n [] tt

pub set_bytes-nil : set_bytes [] ≡ 0
unfolding set_bytes set_bytes_from
set_bytes-nil = refl
