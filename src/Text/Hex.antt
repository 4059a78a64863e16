-- ===== src/Text/Hex.antt =====
-- encoding/hex: EncodeToString and DecodeString, over lists of bytes. `none` is DecodeString's
-- error, for an odd length or a rune that is no digit.
use aocs_compliance_svc.Common.{
  ◌>>=◌, ℕ, ◌+◌, ◌-◌, ◌*◌, ◌/◌, ◌%◌, ◌<◌, ◌≡◌, refl, List, [], ◌∷◌, Option, none, some, arith, ltb,
  within, All, if◌then◌else◌, ◌≤◌,
}
use aocs_compliance_svc.Text.{Text}

abbrev pub IsBytes : List ℕ → Type 0
IsBytes = All (λ b. b < 256)

unfoldable pub hex_digit : ℕ → ℕ
hex_digit d = if ltb d 10 then b'0' + d else b'a' + (d - 10)

unfoldable pub hex_encode : List ℕ → Text
hex_encode [] = []
hex_encode (b ∷ bs) = hex_digit (b / 16) ∷ hex_digit (b % 16) ∷ hex_encode bs

unfoldable pub from_hex_digit : ℕ → Option ℕ
from_hex_digit c =
    if within b'0' b'9' c
    then some (c - b'0')
    else if within b'a' b'f' c
    then some (c - b'a' + 10)
    else if within b'A' b'F' c
    then some (c - b'A' + 10)
    else none

unfoldable pub hex_decode : Text → Option (List ℕ)
hex_decode [] = some []
hex_decode (c ∷ []) = none
hex_decode (h ∷ l ∷ t) = do
  hi ← from_hex_digit h
  lo ← from_hex_digit l
  rest ← hex_decode t
  some ((hi * 16 + lo) ∷ rest)

from_hex_digit-hex_digit : (d : ℕ) → d < 16 → from_hex_digit (hex_digit d) ≡ some d
unfolding from_hex_digit hex_digit
from_hex_digit-hex_digit d h = ground arith

pub hex_digit_bounds : (d : ℕ) → d < 16 → (48 ≤ hex_digit d) × (hex_digit d ≤ 102)
unfolding hex_digit
hex_digit_bounds d h = ground arith

pub hex_decode-hex_encode : (bs : List ℕ) → IsBytes bs → hex_decode (hex_encode bs) ≡ some bs
unfolding hex_encode hex_decode
hex_decode-hex_encode [] h = refl
hex_decode-hex_encode (b ∷ bs) h =
    let same : b / 16 * 16 + b % 16 ≡ b = omega arith in
    rw
      (
        from_hex_digit-hex_digit (b / 16) (omega (arith, h.0)),
        from_hex_digit-hex_digit (b % 16) (omega arith),
        hex_decode-hex_encode bs h.1,
      )
      (rw same)
