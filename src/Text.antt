-- ===== src/Text.antt =====
-- Go strings as the service uses them, and what it takes from the packages strings, unicode and
-- unicode/utf8. A text is the list of the runes that `range` yields, with an invalid byte read as
-- U+FFFD. The phrases that the service looks for are ASCII, and a substring test for these gives
-- the same answer on runes as on bytes. Bytes that the service decodes enter by `runes_of_bytes`.
pub mod Utf8
pub mod Hex
pub mod BigInt
pub mod Laws
pub mod Maps
use Prim.Native.Char.{code}
use Prim.Native.String.{String}
use aocs_compliance_svc.Common.{
  ℕ, ◌+◌, ◌<◌, Bool, true, false, not, ◌||◌, ◌&&◌, List, [], ◌∷◌, map, ltb, within, ◌==◌, is_empty,
  keep, All, if◌then◌else◌,
}

abbrev pub Text : Type 0
Text = List ℕ

-- The runes of a literal.
abbrev pub codes : String → Text
codes String.[] = []
codes (String.◌∷◌ c s) = code c ∷ codes s

-- The code that the service takes from golang.org/x/text and from the Unicode tables: NFKC
-- normalisation, and the lower case of a rune beyond ASCII.
pub record Unicode : Type 0 where
  pub nfkc : Text → Text
  pub lower_beyond_ascii : ℕ → ℕ

abbrev pub IsAscii : Text → Type 0
IsAscii = All (λ c. c < 128)

-- strings.HasPrefix.
unfoldable pub has_prefix : Text → Text → Bool
has_prefix [] t = true
has_prefix (p ∷ ps) [] = false
has_prefix (p ∷ ps) (c ∷ t) = elim (p == c) [ true ↦ has_prefix ps t | false ↦ false ]

-- strings.Contains, the text first.
unfoldable pub contains : Text → Text → Bool
contains [] pat = has_prefix pat []
contains (c ∷ t) pat = has_prefix pat (c ∷ t) || contains t pat

unfoldable pub eq_text : Text → Text → Bool
eq_text [] [] = true
eq_text (a ∷ s) (b ∷ t) = elim (a == b) [ true ↦ eq_text s t | false ↦ false ]
eq_text _ _ = false

-- How many bytes a rune takes in UTF-8.
abbrev pub rune_len : ℕ → ℕ
rune_len c = if ltb c 0x80 then 1 else if ltb c 0x800 then 2 else if ltb c 0x10000 then 3 else 4

-- `len` of a string: its bytes.
unfoldable pub byte_len : Text → ℕ
byte_len [] = 0
byte_len (c ∷ t) = rune_len c + byte_len t

unfoldable pub cons_head : ℕ → List Text → List Text
cons_head c [] = (c ∷ []) ∷ []
cons_head c (w ∷ ws) = (c ∷ w) ∷ ws

-- The pieces between the runes that pass the test, empty ones included.
unfoldable pub pieces : (ℕ → Bool) → Text → List Text
pieces sep [] = [] ∷ []
pieces sep (c ∷ t) = let rest = pieces sep t in if sep c then [] ∷ rest else cons_head c rest

-- strings.FieldsFunc: the pieces that are not empty.
unfoldable pub fields_func : (ℕ → Bool) → Text → List Text
fields_func sep t = keep (λ w. not (is_empty w)) (pieces sep t)

-- unicode.IsSpace.
unfoldable pub is_space : ℕ → Bool
is_space c =
    within 9 13 c
    || c == 32
    || c == 0x85
    || c == 0xA0
    || c == 0x1680
    || within 0x2000 0x200a c
    || c == 0x2028
    || c == 0x2029
    || c == 0x202f
    || c == 0x205f
    || c == 0x3000

-- strings.Fields.
unfoldable pub fields : Text → List Text
fields t = fields_func is_space t

-- unicode.IsControl: the runes of category Cc.
unfoldable pub is_control : ℕ → Bool
is_control c = ltb c 32 || within 127 159 c

-- strings.ReplaceAll(t, " ", "").
unfoldable pub remove_spaces : Text → Text
remove_spaces t = keep (λ c. not (c == 32)) t

module _ (u : Unicode) where
  -- unicode.ToLower.
  unfoldable pub lower_rune : ℕ → ℕ
  lower_rune c =
      if within b'A' b'Z' c then c + 32 else if ltb c 128 then c else u.lower_beyond_ascii c

  -- strings.ToLower.
  unfoldable pub to_lower : Text → Text
  to_lower t = map lower_rune t
