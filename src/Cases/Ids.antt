-- ===== src/Cases/Ids.antt =====
-- generatePlatformID of internal/compliance/handlers/compliance/case_lifecycle.go.
use native.Mathlib.Nat.{
  mod-eq_of_lt, mod-lt, add-mul-mod_self_left, mod-add-div, pow-suc, pow-succ',
}
use aocs_compliance_svc.Common.{
  ℕ, zero, suc, ◌+◌, ◌-◌, ◌*◌, ◌/◌, ◌%◌, ◌^◌, ◌<◌, ◌≡◌, [], ◌∷◌, ◌++◌, Option, none, some,
  if◌then◌else◌, ltb, within, ap, ◌∙◌, sym, arith,
}
use aocs_compliance_svc.Text.{Text}

-- `chars[d]` at a digit below 36.
unfoldable pub char_at : ℕ → ℕ
char_at d = if ltb d 26 then b'A' + d else b'0' + (d - 26)

-- The loop over the random number, low digits first.
unfoldable pub random_chars : ℕ → ℕ → Text
random_chars zero n = []
random_chars (suc k) n = char_at (n % 36) ∷ random_chars k (n / 36)

-- One digit of `%X`.
unfoldable pub upper_hex_digit : ℕ → ℕ
upper_hex_digit d = if ltb d 10 then b'0' + d else b'A' + (d - 10)

-- `%0kX` of a number of at most k digits, before the digits already written.
unfoldable pub upper_hex : ℕ → ℕ → Text → Text
upper_hex zero n acc = acc
upper_hex (suc k) n acc = upper_hex k (n / 16) (upper_hex_digit (n % 16) ∷ acc)

-- generatePlatformID, from the year and the month as text, the nanosecond clock and the random
-- number, none where rand.Read fails.
unfoldable pub generate_platform_id : Text → ℕ → Option ℕ → Text
generate_platform_id year_month unix_nano none = year_month ++ upper_hex 8 (unix_nano % 2 ^ 32) []
generate_platform_id year_month unix_nano (some n) = year_month ++ random_chars 8 n

-- The digit that a character of an id stands for.
unfoldable pub char_value : ℕ → ℕ
char_value c = if within b'A' b'Z' c then c - b'A' else (c - b'0') + 26

-- The number that the characters stand for.
unfoldable pub chars_value : Text → ℕ
chars_value [] = 0
chars_value (c ∷ cs) = char_value c + 36 * chars_value cs

char_value-char_at : (d : ℕ) → d < 36 → char_value (char_at d) ≡ d
unfolding char_value char_at
char_value-char_at d h = ground arith

power_pos : (k : ℕ) → 0 < 36 ^ k
power_pos zero = omega arith
power_pos (suc k) = omega (arith, power_pos k, pow-suc 36 k)

regroup : (r m p q : ℕ) → r + 36 * m + 36 * p * q ≡ r + 36 * (m + p * q)
regroup r m p q = grind arith

mod_of_digits : (n p : ℕ) → 0 < p → n % 36 + 36 * ((n / 36) % p) ≡ n % (36 * p)
mod_of_digits n p h =
    let m = n / 36 in
    let x = n % 36 + 36 * (m % p) in
    sym (mod-eq_of_lt (omega (arith, mod-lt m h)))
    ∙ sym (add-mul-mod_self_left x (36 * p) (m / p))
    ∙ ap (λ t. t % (36 * p))
        (regroup (n % 36) (m % p) p (m / p)
          ∙ ap (λ t. n % 36 + 36 * t) (mod-add-div m p)
          ∙ mod-add-div n 36)

-- The k characters that are made of a random number, read as digits of base 36, stand for the
-- number modulo 36^k.
pub chars_value-random_chars : (k n : ℕ) → chars_value (random_chars k n) ≡ n % 36 ^ k
unfolding chars_value random_chars
chars_value-random_chars zero n = omega arith
chars_value-random_chars (suc k) n =
    (λ i. char_value-char_at (n % 36) (omega arith) i + 36 * chars_value-random_chars k (n / 36) i)
    ∙ mod_of_digits n (36 ^ k) (power_pos k)
    ∙ ap (λ t. n % t) (sym (pow-succ' 36 k))
