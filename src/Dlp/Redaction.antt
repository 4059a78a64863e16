-- ===== src/Dlp/Redaction.antt =====
-- What redactContext of internal/compliance/handlers/security/data_protection.go leaves of a payload.
use mathlib.Core.List.{append_assoc}
use aocs_compliance_svc.Common.{
  ℕ, suc, ◌+◌, ◌-◌, ◌≤◌, ◌≡◌, refl, sym, ap, ◌∙◌, List, [], ◌∷◌, ◌++◌, take, drop, length,
  length-append, length-drop, ltb, if◌then◌else◌, Bool-cases, inl, inr, ltb→lt, arith,
}
use aocs_compliance_svc.Text.{codes}
use aocs_compliance_svc.Dlp.Scan.{slice, redact_context}

take-append : (xs ys : List ℕ) → take (length xs) (xs ++ ys) ≡ xs
take-append [] ys = refl
take-append (x ∷ xs) ys = ap (λ t. x ∷ t) (take-append xs ys)

drop-append : (xs ys : List ℕ) → drop (length xs) (xs ++ ys) ≡ ys
drop-append [] ys = refl
drop-append (x ∷ xs) ys = drop-append xs ys

drop-append_le : (n : ℕ) (xs ys : List ℕ) → n ≤ length xs → drop n (xs ++ ys) ≡ drop n xs ++ ys
drop-append_le ℕ.zero xs ys h = refl
drop-append_le (suc n) [] ys h = absurd (omega arith)
drop-append_le (suc n) (x ∷ xs) ys h = drop-append_le n xs ys (omega arith)

take_all : (n : ℕ) (xs : List ℕ) → length xs ≤ n → take n xs ≡ xs
take_all ℕ.zero [] h = refl
take_all ℕ.zero (x ∷ xs) h = absurd (omega arith)
take_all (suc n) [] h = refl
take_all (suc n) (x ∷ xs) h = ap (λ t. x ∷ t) (take_all n xs (omega arith))

-- The window before a match.
slice_before :
    (n : ℕ) (pre rest : List ℕ) → n ≤ length pre → slice (pre ++ rest) n (length pre) ≡ drop n pre
slice_before n pre rest h =
    rw (drop-append_le n pre rest h, sym (length-drop n pre)) (take-append (drop n pre) rest)

-- The window after a match.
slice_after :
    (xs post : List ℕ)
    → let full = length (xs ++ post) in
      slice (xs ++ post) (length xs) (if ltb full (length xs + 30) then full else length xs + 30)
      ≡ take 30 post
slice_after xs post =
    let full = length (xs ++ post) in
    let parts = length-append xs post in
    elim (Bool-cases (ltb full (length xs + 30))) [
      | inl short ↦
          let few : length post ≤ 30 = omega (arith, parts, ltb→lt full (length xs + 30) short) in
          let rest : full - length xs ≡ length post = omega (arith, parts) in
          rw (short, drop-append xs post, rest)
            (take_all (length post) post (omega arith) ∙ sym (take_all 30 post few))
      | inr long ↦
          let rest : length xs + 30 - length xs ≡ 30 = omega arith in
          rw (long, drop-append xs post, rest) refl
    ]

start_of : (n : ℕ) → (if ltb n 30 then 0 else n - 30) ≡ n - 30
start_of n = ground arith

-- The context of a match is what stands in the 30 bytes before it and the 30 bytes after it, as it
-- is, with [REDACTED] in place of the match alone.
pub redact_context-append :
    (pre value post : List ℕ)
    → redact_context (pre ++ (value ++ post)) (length pre) (length pre + length value)
      ≡ drop (length pre - 30) pre ++ codes "[REDACTED]" ++ take 30 post
unfolding redact_context
redact_context-append pre value post =
    let before = slice_before (length pre - 30) pre (value ++ post) (omega arith) in
    let after = slice_after (pre ++ value) post in
    let after = rw (append_assoc pre value post, length-append pre value) at after in
    rw (start_of (length pre), before, after) refl
