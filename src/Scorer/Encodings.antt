-- ===== src/Scorer/Encodings.antt =====
-- The decoders of ent_local_scorer.go: rot13Decode, hexVal, hexDecodePayload, extractBase64Tokens,
-- and the part of encoding/base64 that the last one calls.
pub mod Laws
use aocs_compliance_svc.Common.{
  ◌>>=◌, ℕ, ◌+◌, ◌-◌, ◌*◌, ◌/◌, ◌%◌, Bool, true, false, not, ◌||◌, ◌&&◌, List, [], ◌∷◌, ◌++◌, map,
  Option, none, some, ltb, within, ◌==◌, all, if◌then◌else◌,
}
use aocs_compliance_svc.Text.{Text, byte_len, fields_func}
use aocs_compliance_svc.Text.Utf8.{runes_of_bytes}

-- rot13Decode, rune by rune.
unfoldable pub rot13_rune : ℕ → ℕ
rot13_rune r =
    if within b'a' b'z' r
    then b'a' + (r - b'a' + 13) % 26
    else if within b'A' b'Z' r
    then b'A' + (r - b'A' + 13) % 26
    else r

unfoldable pub rot13_decode : Text → Text
rot13_decode t = map rot13_rune t

-- hexVal, with `none` for -1.
unfoldable pub hex_val : ℕ → Option ℕ
hex_val c =
    if within b'0' b'9' c
    then some (c - b'0')
    else if within b'a' b'f' c
    then some (c - b'a' + 10)
    else if within b'A' b'F' c
    then some (c - b'A' + 10)
    else none

unfoldable pub is_hex_digit : ℕ → Bool
is_hex_digit c = within b'0' b'9' c || within b'a' b'f' c || within b'A' b'F' c

-- The loop over the pairs of digits; `none` where the source sets isHex to false.
unfoldable pub decode_pairs : Text → Option (List ℕ)
decode_pairs (h ∷ l ∷ t) = do
  hi ← hex_val h
  lo ← hex_val l
  rest ← decode_pairs t
  some ((hi * 16 + lo) ∷ rest)
decode_pairs _ = some []

-- One round of the loop of hexDecodePayload: `none` where it continues with the next field.
unfoldable pub hex_field : Text → Option (List ℕ)
hex_field f =
    if ltb (byte_len f) 16 || not (byte_len f % 2 == 0)
    then none
    else if all is_hex_digit f
    then decode_pairs f
    else none

unfoldable pub first_hex_field : List Text → List ℕ
first_hex_field [] = []
first_hex_field (f ∷ fs) = elim (hex_field f) [
  | some (b ∷ bs) ↦ b ∷ bs
  | some [] ↦ first_hex_field fs
  | none ↦ first_hex_field fs
]

unfoldable pub hex_separator : ℕ → Bool
hex_separator r = r == b' ' || r == 10 || r == 9 || r == 34 || r == 39

-- hexDecodePayload: the bytes of the first field that decodes, or none.
unfoldable pub hex_decode_payload : Text → List ℕ
hex_decode_payload text = first_hex_field (fields_func hex_separator text)

-- An alphabet of encoding/base64 gives a digit's value.
unfoldable pub std_digit : ℕ → Option ℕ
std_digit c =
    if within b'A' b'Z' c
    then some (c - b'A')
    else if within b'a' b'z' c
    then some (c - b'a' + 26)
    else if within b'0' b'9' c
    then some (c - b'0' + 52)
    else if c == b'+'
    then some 62
    else if c == b'/'
    then some 63
    else none

unfoldable pub url_digit : ℕ → Option ℕ
url_digit c =
    if within b'A' b'Z' c
    then some (c - b'A')
    else if within b'a' b'z' c
    then some (c - b'a' + 26)
    else if within b'0' b'9' c
    then some (c - b'0' + 52)
    else if c == b'-'
    then some 62
    else if c == b'_'
    then some 63
    else none

module _ (digit : ℕ → Option ℕ) where
  -- The last digits of a text: two give one byte, three give two. Bits left over are ignored.
  unfoldable pub decode_two : ℕ → ℕ → Option (List ℕ)
  decode_two a b = do x ← digit a; y ← digit b; some ((x * 4 + y / 16) ∷ [])

  unfoldable pub decode_three : ℕ → ℕ → ℕ → Option (List ℕ)
  decode_three a b c = do
    x ← digit a
    y ← digit b
    z ← digit c
    some ((x * 4 + y / 16) ∷ (y % 16 * 16 + z / 4) ∷ [])

  unfoldable pub decode_four : ℕ → ℕ → ℕ → ℕ → Option (List ℕ)
  decode_four a b c d = do
    x ← digit a
    y ← digit b
    z ← digit c
    w ← digit d
    some ((x * 4 + y / 16) ∷ (y % 16 * 16 + z / 4) ∷ (z % 4 * 64 + w) ∷ [])

  -- The last four runes of a padded text.
  unfoldable pub decode_last : ℕ → ℕ → ℕ → ℕ → Option (List ℕ)
  decode_last a b c d =
      if d == b'='
      then if c == b'=' then decode_two a b else decode_three a b c
      else decode_four a b c d

  -- base64 with padding.
  unfoldable pub decode_padded : Text → Option (List ℕ)
  decode_padded [] = some []
  decode_padded (a ∷ b ∷ c ∷ d ∷ []) = decode_last a b c d
  decode_padded (a ∷ b ∷ c ∷ d ∷ t) = do
    bytes ← decode_four a b c d
    rest ← decode_padded t
    some (bytes ++ rest)
  decode_padded _ = none

  -- base64 without padding.
  unfoldable pub decode_raw : Text → Option (List ℕ)
  decode_raw [] = some []
  decode_raw (a ∷ []) = none
  decode_raw (a ∷ b ∷ []) = decode_two a b
  decode_raw (a ∷ b ∷ c ∷ []) = decode_three a b c
  decode_raw (a ∷ b ∷ c ∷ d ∷ t) = do
    bytes ← decode_four a b c d
    rest ← decode_raw t
    some (bytes ++ rest)

unfoldable pub is_base64_rune : ℕ → Bool
is_base64_rune c =
    within b'A' b'Z' c
    || within b'a' b'z' c
    || within b'0' b'9' c
    || c == b'+'
    || c == b'/'
    || c == b'='

-- The three attempts at one token, in the source's order.
unfoldable pub decode_base64 : Text → Option (List ℕ)
decode_base64 token = elim (decode_padded std_digit token) [
  | some b ↦ some b
  | none ↦ elim (decode_padded url_digit token) [
    | some b ↦ some b
    | none ↦ decode_raw std_digit token
  ]
]

-- One round of the loop of extractBase64Tokens.
unfoldable pub base64_token : Text → List (List ℕ)
base64_token token =
    if ltb (byte_len token) 20
    then []
    else if all is_base64_rune token
    then elim (decode_base64 token) [ some b ↦ b ∷ [] | none ↦ [] ]
    else []

unfoldable pub base64_separator : ℕ → Bool
base64_separator r = r == b' ' || r == 10 || r == 9 || r == 34 || r == 39 || r == 96

unfoldable pub base64_tokens : List Text → List Text
base64_tokens [] = []
base64_tokens (t ∷ ts) = map runes_of_bytes (base64_token t) ++ base64_tokens ts

-- extractBase64Tokens.
unfoldable pub extract_base64_tokens : Text → List Text
extract_base64_tokens text = base64_tokens (fields_func base64_separator text)
