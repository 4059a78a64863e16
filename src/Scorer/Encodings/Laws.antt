-- ===== src/Scorer/Encodings/Laws.antt =====
-- Laws of the decoders of ent_local_scorer.go.
use aocs_compliance_svc.Common.{
  ℕ, ◌+◌, ◌*◌, ◌/◌, ◌%◌, ◌<◌, ◌≤◌, ◌≡◌, refl, ◌≢◌, List, [], ◌∷◌, ◌++◌, some, arith, true, false,
  length, All, all, ◌∙◌, ap,
}
use aocs_compliance_svc.Text.{Text, byte_len, fields_func}
use aocs_compliance_svc.Text.Laws.{fields_func-append, fields_func_word}
use aocs_compliance_svc.Text.Hex.{IsBytes, hex_digit, hex_encode, hex_digit_bounds}
use aocs_compliance_svc.Scorer.Encodings.{
  rot13_rune, rot13_decode, hex_val, is_hex_digit, decode_pairs, hex_field, hex_separator,
  first_hex_field, hex_decode_payload,
}

rot13_rune_twice : (r : ℕ) → rot13_rune (rot13_rune r) ≡ r
unfolding rot13_rune
rot13_rune_twice r = ground arith

-- ROT13 decoding twice gives the text back.
pub rot13_decode_twice : (t : Text) → rot13_decode (rot13_decode t) ≡ t
unfolding rot13_decode
rot13_decode_twice [] = refl
rot13_decode_twice (c ∷ t) = cc (rot13_rune_twice c, rot13_decode_twice t)

hex_val-hex_digit : (d : ℕ) → d < 16 → hex_val (hex_digit d) ≡ some d
unfolding hex_val hex_digit
hex_val-hex_digit d h = ground arith

is_hex_digit-hex_digit : (d : ℕ) → d < 16 → is_hex_digit (hex_digit d) ≡ true
unfolding is_hex_digit hex_digit
is_hex_digit-hex_digit d h = ground arith

decode_pairs-hex_encode : (bs : List ℕ) → IsBytes bs → decode_pairs (hex_encode bs) ≡ some bs
unfolding decode_pairs hex_encode
decode_pairs-hex_encode [] h = refl
decode_pairs-hex_encode (b ∷ bs) h =
    let same : b / 16 * 16 + b % 16 ≡ b = omega arith in
    rw
      (
        hex_val-hex_digit (b / 16) (omega (arith, h.0)),
        hex_val-hex_digit (b % 16) (omega arith),
        decode_pairs-hex_encode bs h.1,
      )
      (rw same)

all-hex_encode : (bs : List ℕ) → IsBytes bs → all is_hex_digit (hex_encode bs) ≡ true
unfolding hex_encode
all-hex_encode [] h = refl
all-hex_encode (b ∷ bs) h = rw (
  is_hex_digit-hex_digit (b / 16) (omega (arith, h.0)),
  is_hex_digit-hex_digit (b % 16) (omega arith),
  all-hex_encode bs h.1,
)

byte_len-hex_encode : (bs : List ℕ) → IsBytes bs → byte_len (hex_encode bs) ≡ length bs * 2
unfolding hex_encode byte_len
byte_len-hex_encode [] h = refl
byte_len-hex_encode (b ∷ bs) h =
    ground
      (arith, hex_digit_bounds (b / 16), hex_digit_bounds (b % 16), byte_len-hex_encode bs h.1, h.0)

hex_field-hex_encode :
    (bs : List ℕ) → IsBytes bs → 8 ≤ length bs → hex_field (hex_encode bs) ≡ some bs
unfolding hex_field
hex_field-hex_encode bs h long =
    ground (arith, byte_len-hex_encode bs h, all-hex_encode bs h, decode_pairs-hex_encode bs h)

first_hex_field-append :
    (xs ys : List Text) → first_hex_field xs ≡ [] → first_hex_field (xs ++ ys) ≡ first_hex_field ys
unfolding first_hex_field
first_hex_field-append [] ys h = refl
first_hex_field-append (x ∷ xs) ys h = ground (arith, first_hex_field-append xs ys)

hex_separator-hex_digit : (d : ℕ) → d < 16 → hex_separator (hex_digit d) ≡ false
unfolding hex_separator hex_digit
hex_separator-hex_digit d h = ground arith

hex_encode-no_separator :
    (bs : List ℕ) → IsBytes bs → All (λ c. hex_separator c ≡ false) (hex_encode bs)
unfolding hex_encode
hex_encode-no_separator [] h = tt
hex_encode-no_separator (b ∷ bs) h = (
  hex_separator-hex_digit (b / 16) (omega (arith, h.0)),
  (hex_separator-hex_digit (b % 16) (omega arith), hex_encode-no_separator bs h.1),
)

first_hex_field_found :
    (w : Text) (ws : List Text) (bs : List ℕ)
    → hex_field w ≡ some bs
    → bs ≢ []
    → first_hex_field (w ∷ ws) ≡ bs
unfolding first_hex_field
first_hex_field_found w ws [] e some_bytes = absurd (some_bytes refl)
first_hex_field_found w ws (b ∷ bs) e some_bytes = rw (e, first_hex_field)

hex_fields :
    (after : Text) (s : ℕ) (bs : List ℕ)
    → hex_separator s ≡ true
    → IsBytes bs
    → 8 ≤ length bs
    → fields_func hex_separator (hex_encode bs ++ s ∷ after)
      ≡ hex_encode bs ∷ fields_func hex_separator after
unfolding hex_encode
hex_fields after s [] hs bytes long = absurd (omega arith)
hex_fields after s (b ∷ bs) hs bytes long =
    let word = hex_encode (b ∷ bs) in
    fields_func-append hex_separator word s after hs
    ∙ ap (λ ws. ws ++ fields_func hex_separator after)
        (fields_func_word hex_separator word (hex_encode-no_separator (b ∷ bs) bytes) (λ e. cc))

-- The hexadecimal digits of eight bytes or more, between two separators, are decoded to the bytes,
-- where no field before them decodes, whatever stands behind them.
pub hex_decode_payload-hex_encode :
    (before after : Text) (s s' : ℕ) (bs : List ℕ)
    → hex_separator s ≡ true
    → hex_separator s' ≡ true
    → hex_decode_payload before ≡ []
    → IsBytes bs
    → 8 ≤ length bs
    → hex_decode_payload (before ++ s ∷ (hex_encode bs ++ s' ∷ after)) ≡ bs
unfolding hex_decode_payload
hex_decode_payload-hex_encode before after s s' bs hs hs' nothing bytes long =
    let rest = hex_encode bs ++ s' ∷ after in
    ap first_hex_field (fields_func-append hex_separator before s rest hs)
    ∙ first_hex_field-append (fields_func hex_separator before) (fields_func hex_separator rest)
        nothing
    ∙ ap first_hex_field (hex_fields after s' bs hs' bytes long)
    ∙ first_hex_field_found (hex_encode bs) (fields_func hex_separator after) bs
        (hex_field-hex_encode bs bytes long) (λ e. absurd (omega (arith, ap length e)))
