-- ===== src/Dlp/Classes.antt =====
-- The classification of internal/compliance/handlers/security/data_protection.go against the highest
-- level of a detection.
use aocs_compliance_svc.Common.{
  ℕ, ◌≡◌, refl, Bool, ◌||◌, List, [], ◌∷◌, any, ltb, ◌==◌, ◌≤◌, if◌then◌else◌, arith,
}
use aocs_compliance_svc.Text.{Text, codes, eq_text}
use aocs_compliance_svc.Dlp.Scan.{
  Services, PiiDetection, CodeDetection, is_in, restricted, restricted_code, confidential,
  confidential_code, classify_detections, scan_payload,
}

-- The levels, from 0: public, internal, confidential and restricted.
unfoldable pub pii_level : PiiDetection → ℕ
pii_level m =
    if is_in restricted m.pii_type then 3 else if is_in confidential m.pii_type then 2 else 0

unfoldable pub is_internal : CodeDetection → Bool
is_internal m = eq_text m.code_type (codes "sql_query") || eq_text m.code_type (codes "source_code")

unfoldable pub code_level : CodeDetection → ℕ
code_level m =
    if is_in restricted_code m.code_type
    then 3
    else if is_in confidential_code m.code_type
    then 2
    else if is_internal m
    then 1
    else 0

abbrev pub higher : ℕ → ℕ → ℕ
higher a b = if ltb a b then b else a

unfoldable pub highest : {A : Type 0} → (A → ℕ) → List A → ℕ
highest level [] = 0
highest level (x ∷ xs) = higher (level x) (highest level xs)

unfoldable pub level_name : ℕ → Text
level_name n =
    if ltb 2 n
    then codes "RESTRICTED"
    else if ltb 1 n
    then codes "CONFIDENTIAL"
    else if ltb 0 n
    then codes "INTERNAL"
    else codes "PUBLIC"

highest-pii :
    (pii : List PiiDetection)
    → highest pii_level pii ≡ (
        if any (λ m. is_in restricted m.pii_type) pii
        then 3
        else if any (λ m. is_in confidential m.pii_type) pii
        then 2
        else 0)
unfolding highest pii_level
highest-pii [] = refl
highest-pii (m ∷ pii) = ground (arith, highest-pii pii)

highest-code :
    (code : List CodeDetection)
    → highest code_level code ≡ (
        if any (λ m. is_in restricted_code m.code_type) code
        then 3
        else if any (λ m. is_in confidential_code m.code_type) code
        then 2
        else if any is_internal code
        then 1
        else 0)
unfolding highest code_level
highest-code [] = refl
highest-code (m ∷ code) = ground (arith, highest-code code)

classify_detections-highest :
    (pii : List PiiDetection) (code : List CodeDetection)
    → classify_detections pii code
      ≡ level_name (higher (highest pii_level pii) (highest code_level code))
unfolding classify_detections level_name is_internal
classify_detections-highest pii code = ground (arith, highest-pii pii, highest-code code)

level_name-block : (n : ℕ) → n ≤ 3 → eq_text (level_name n) (codes "RESTRICTED") ≡ (n == 3)
unfolding level_name eq_text
level_name-block n h = ground (arith, h)

-- The classification of a scan is the name of the highest level of its detections of either kind,
-- PUBLIC where there is none, and the payload is to be blocked exactly where that level is the one
-- of restricted data.
pub scan_payload-highest :
    (s : Services) (payload : List ℕ)
    → let r = scan_payload s payload in
      let level =
        higher (highest pii_level r.pii_detections) (highest code_level r.code_detections) in
      (r.classification ≡ level_name level) × (r.should_block ≡ (level == 3))
unfolding scan_payload
scan_payload-highest s payload =
    let r = scan_payload s payload in
    let named = classify_detections-highest r.pii_detections r.code_detections in
    let pii = highest-pii r.pii_detections in
    let code = highest-code r.code_detections in
    (named, rw named (level_name-block _ (ground (arith, pii, code))))
