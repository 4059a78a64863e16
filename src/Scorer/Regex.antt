-- ===== src/Scorer/Regex.antt =====
-- injectionRegexPatterns of ent_local_scorer.go, and as much of package regexp as they use: each is
-- a sequence of rune classes, some of them repeated, and of word boundaries.
use Prim.Native.String.{String}
use aocs_compliance_svc.Common.{
  ℕ, Bool, true, false, not, ◌||◌, ◌&&◌, List, [], ◌∷◌, ◌++◌, Option, none, some, within, ◌==◌,
}
use aocs_compliance_svc.Text.{Text, codes}

pub data Item : Type 0 where
  one : (ℕ → Bool) → Item
  many : (ℕ → Bool) → Item
  maybe : (ℕ → Bool) → Item
  boundary : Item

pub record Regex : Type 0 where
  -- What Regexp.String returns.
  pub source : String
  pub items : List Item

-- `\s` of package regexp: it has no vertical tab.
abbrev is_white : ℕ → Bool
is_white c = c == 9 || c == 10 || c == 12 || c == 13 || c == 32

-- `[\s\-\.]`.
abbrev is_gap : ℕ → Bool
is_gap c = is_white c || c == b'-' || c == b'.'

abbrev is_word : ℕ → Bool
is_word c = within b'0' b'9' c || within b'A' b'Z' c || within b'a' b'z' c || c == b'_'

abbrev is_word? : Option ℕ → Bool
is_word? none = false
is_word? (some c) = is_word c

abbrev next_rune : Text → Option ℕ
next_rune [] = none
next_rune (c ∷ t) = some c

abbrev differ : Bool → Bool → Bool
differ true b = not b
differ false b = b

-- What follows an item: a match from the rune before, at a text.
abbrev Rest : Type 0
Rest = Option ℕ → Text → Bool

unfoldable pub one_then : (ℕ → Bool) → Rest → Rest
one_then p k prev [] = false
one_then p k prev (c ∷ t) = elim (p c) [ true ↦ k (some c) t | false ↦ false ]

unfoldable pub many_then : (ℕ → Bool) → Rest → Rest
many_then p k prev [] = k prev []
many_then p k prev (c ∷ t) =
    k prev (c ∷ t) || elim (p c) [ true ↦ many_then p k (some c) t | false ↦ false ]

unfoldable pub match_items : List Item → Rest
match_items [] prev t = true
match_items (one p ∷ items) prev t = one_then p (match_items items) prev t
match_items (many p ∷ items) prev t = many_then p (match_items items) prev t
match_items (maybe p ∷ items) prev t =
    match_items items prev t || one_then p (match_items items) prev t
match_items (boundary ∷ items) prev t =
    differ (is_word? prev) (is_word? (next_rune t)) && match_items items prev t

unfoldable pub match_from : List Item → Rest
match_from items prev [] = match_items items prev []
match_from items prev (c ∷ t) = match_items items prev (c ∷ t) || match_from items (some c) t

-- Regexp.MatchString.
unfoldable pub match_string : Regex → Text → Bool
match_string rx t = match_from rx.items none t

abbrev lit : ℕ → Item
lit c = one (λ x. x == c)

abbrev lits : Text → List Item
lits [] = []
lits (c ∷ t) = lit c ∷ lits t

-- `c{2,}`.
abbrev two_or_more : ℕ → List Item
two_or_more c = lit c ∷ lit c ∷ many (λ x. x == c) ∷ []

abbrev whites : List Item
whites = many is_white ∷ []

-- `a[\s\-\.]b[\s\-\.]c`.
abbrev spaced : Text → List Item
spaced [] = []
spaced (c ∷ []) = lit c ∷ []
spaced (c ∷ t) = lit c ∷ one is_gap ∷ spaced t

abbrev regex : String → List Item → Regex
regex source items = record { source = source; items = items }

abbrev pub pipe_system : Regex
pipe_system =
    regex "\\|\\s*system\\s*\\|"
      (lit b'|' ∷ (whites ++ (lits (codes "system") ++ (whites ++ (lit b'|' ∷ [])))))

abbrev pub injection_regex_patterns : List Regex
injection_regex_patterns =
    regex "i[\\s\\-\\.]g[\\s\\-\\.]n[\\s\\-\\.]o[\\s\\-\\.]r[\\s\\-\\.]e" (spaced (codes "ignore"))
    ∷ regex "f[\\s\\-\\.]o[\\s\\-\\.]r[\\s\\-\\.]g[\\s\\-\\.]e[\\s\\-\\.]t"
        (spaced (codes "forget"))
    ∷ regex
        "j[\\s\\-\\.]a[\\s\\-\\.]i[\\s\\-\\.]l[\\s\\-\\.]b[\\s\\-\\.]r[\\s\\-\\.]e[\\s\\-\\.]a[\\s\\-\\.]k"
        (spaced (codes "jailbreak"))
    ∷ regex "\\bd[\\s\\-\\.]a[\\s\\-\\.]n\\b" (boundary ∷ (spaced (codes "dan") ++ (boundary ∷ [])))
    ∷ pipe_system
    ∷ regex "<\\s*\\|\\s*im_start\\s*\\|\\s*>" (
        lit b'<'
        ∷ (whites
            ++ (lit b'|'
                ∷ (whites
                    ++ (lits (codes "im_start")
                        ++ (whites ++ (lit b'|' ∷ (whites ++ (lit b'>' ∷ [])))))))))
    ∷ regex "b[\\s\\-\\.]y[\\s\\-\\.]p[\\s\\-\\.]a[\\s\\-\\.]s[\\s\\-\\.]s"
        (spaced (codes "bypass"))
    ∷ regex "o[\\s\\-\\.]v[\\s\\-\\.]e[\\s\\-\\.]r[\\s\\-\\.]r[\\s\\-\\.]i[\\s\\-\\.]d[\\s\\-\\.]e"
        (spaced (codes "override"))
    ∷ regex "j[\\s\\-\\.]a[\\s\\-\\.]i[\\s\\-\\.]l" (spaced (codes "jail"))
    ∷ regex "s[\\s\\-\\.]u[\\s\\-\\.]d[\\s\\-\\.]o" (spaced (codes "sudo"))
    ∷ regex "-{2,}\\s*system\\s*-{2,}"
        (two_or_more b'-' ++ (whites ++ (lits (codes "system") ++ (whites ++ two_or_more b'-'))))
    ∷ regex "={2,}\\s*instructions?\\s*={2,}" (
        two_or_more b'='
        ++ (whites
            ++ (lits (codes "instruction")
                ++ (maybe (λ x. x == b's') ∷ (whites ++ two_or_more b'=')))))
    ∷ regex "\\*{2,}\\s*ignore\\s*\\*{2,}"
        (two_or_more b'*' ++ (whites ++ (lits (codes "ignore") ++ (whites ++ two_or_more b'*'))))
    ∷ []
