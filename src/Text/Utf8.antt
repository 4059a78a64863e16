-- ===== src/Text/Utf8.antt =====
-- unicode/utf8: the runes of a byte string, and the bytes of a text. A byte that begins no valid sequence is one U+FFFD.
use aocs_compliance_svc.Common.{
  ℕ, zero, suc, ◌+◌, ◌-◌, ◌*◌, ◌/◌, ◌%◌, ◌++◌, Bool, ◌&&◌, List, [], ◌∷◌, ltb, within, ◌==◌,
  if◌then◌else◌,
}

abbrev rune_error : ℕ × ℕ
rune_error = (0xFFFD, 1)

abbrev is_continuation : ℕ → Bool
is_continuation b = within 0x80 0xBF b

-- The least second byte that may follow a first byte, and the greatest: no overlong form, no
-- surrogate and nothing beyond U+10FFFF.
abbrev second_least : ℕ → ℕ
second_least b = if b == 0xE0 then 0xA0 else if b == 0xF0 then 0x90 else 0x80

abbrev second_greatest : ℕ → ℕ
second_greatest b = if b == 0xED then 0x9F else if b == 0xF4 then 0x8F else 0xBF

rune_of_two : ℕ → List ℕ → ℕ × ℕ
rune_of_two b (c ∷ _) = if is_continuation c then ((b - 0xC0) * 64 + (c - 0x80), 2) else rune_error
rune_of_two b [] = rune_error

rune_of_three : ℕ → List ℕ → ℕ × ℕ
rune_of_three b (c ∷ d ∷ _) =
    if within (second_least b) (second_greatest b) c && is_continuation d
    then ((b - 0xE0) * 4096 + (c - 0x80) * 64 + (d - 0x80), 3)
    else rune_error
rune_of_three b _ = rune_error

rune_of_four : ℕ → List ℕ → ℕ × ℕ
rune_of_four b (c ∷ d ∷ e ∷ _) =
    if within (second_least b) (second_greatest b) c && is_continuation d && is_continuation e
    then ((b - 0xF0) * 262144 + (c - 0x80) * 4096 + (d - 0x80) * 64 + (e - 0x80), 4)
    else rune_error
rune_of_four b _ = rune_error

-- utf8.DecodeRune, at a first byte and the bytes behind it: the rune and its width.
decode_rune : ℕ → List ℕ → ℕ × ℕ
unfolding rune_of_two rune_of_three rune_of_four
decode_rune b rest =
    if ltb b 0x80
    then (b, 1)
    else if within 0xC2 0xDF b
    then rune_of_two b rest
    else if within 0xE0 0xEF b
    then rune_of_three b rest
    else if within 0xF0 0xF4 b
    then rune_of_four b rest
    else rune_error

-- `skip` counts the bytes of the current rune that are still to be passed over.
runes_skip : ℕ → List ℕ → List ℕ
runes_skip skip [] = []
runes_skip zero (b ∷ bs) = let (r, w) = decode_rune b bs in r ∷ runes_skip (w - 1) bs
runes_skip (suc k) (b ∷ bs) = runes_skip k bs

unfoldable pub runes_of_bytes : List ℕ → List ℕ
unfolding decode_rune runes_skip
runes_of_bytes bs = runes_skip 0 bs

utf8_bytes : ℕ → List ℕ
utf8_bytes c =
    if ltb c 0x80
    then c ∷ []
    else if ltb c 0x800
    then (0xC0 + c / 64) ∷ (0x80 + c % 64) ∷ []
    else if ltb c 0x10000
    then (0xE0 + c / 4096) ∷ (0x80 + c / 64 % 64) ∷ (0x80 + c % 64) ∷ []
    else (0xF0 + c / 262144) ∷ (0x80 + c / 4096 % 64) ∷ (0x80 + c / 64 % 64) ∷ (0x80 + c % 64) ∷ []

-- []byte(s).
unfoldable pub bytes_of_text : List ℕ → List ℕ
unfolding utf8_bytes
bytes_of_text [] = []
bytes_of_text (c ∷ t) = utf8_bytes c ++ bytes_of_text t
