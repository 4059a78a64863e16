-- ===== src/Dlp/Scan.antt =====
-- The scan of a payload in internal/compliance/handlers/security/data_protection.go. A payload is its
-- bytes. A confidence is in hundredths and a risk in parts of 10000, so that the rounding of float64
-- is not modelled; the reasoning and the duration of a scan are left out.
use aocs_compliance_svc.Common.{
  ℕ, ◌+◌, ◌-◌, ◌*◌, min, Bool, ◌||◌, List, [], ◌∷◌, ◌++◌, any, take, drop, length, ltb,
  if◌then◌else◌,
}
use aocs_compliance_svc.Text.{Text, codes, eq_text}
use aocs_compliance_svc.Text.Hex.{hex_encode}
use aocs_compliance_svc.Dlp.Patterns.{PiiPattern, CodePattern, pii_patterns, code_patterns}

-- What a scan takes from elsewhere: SHA-256, and Regexp.FindAllStringIndex of an expression, the
-- places of the matches as a start and an end.
pub record Services : Type 0 where
  pub sha256 : List ℕ → List ℕ
  pub find_all : Text → List ℕ → List (ℕ × ℕ)

pub record PiiDetection : Type 0 where
  pub pii_type : Text
  pub sha256_hash : Text
  pub confidence : ℕ
  pub context : List ℕ

pub record CodeDetection : Type 0 where
  pub code_type : Text
  pub snippet_hash : Text
  pub language : Text
  pub confidence : ℕ

pub record DlpScanResult : Type 0 where
  pub classification : Text
  pub pii_detections : List PiiDetection
  pub code_detections : List CodeDetection
  pub total_pii_count : ℕ
  pub total_code_count : ℕ
  pub risk_score : ℕ
  pub should_block : Bool

-- A slice of a string, between two places in it.
abbrev pub slice : List ℕ → ℕ → ℕ → List ℕ
slice text from to = take (to - from) (drop from text)

unfoldable pub redact_context : List ℕ → ℕ → ℕ → List ℕ
redact_context text start end =
    let window : ℕ = 30 in
    let ctx_start = if ltb start window then 0 else start - window in
    let ctx_end = if ltb (length text) (end + window) then length text else end + window in
    slice text ctx_start start ++ codes "[REDACTED]" ++ slice text end ctx_end

-- The hashes that were seen, the last one first.
pub record PiiState : Type 0 where
  pub seen : List Text
  pub found : List PiiDetection

pub record CodeState : Type 0 where
  pub seen : List Text
  pub found : List CodeDetection

module _ (s : Services) where
  open s use {sha256, find_all}

  unfoldable pub sha256_hash : List ℕ → Text
  sha256_hash t = hex_encode (sha256 t)

  unfoldable pub pii_match : List ℕ → PiiPattern → ℕ × ℕ → PiiState → PiiState
  pii_match payload p (start, end) st =
      let hash = sha256_hash (slice payload start end) in
      if any (eq_text hash) st.seen then st else record {
        seen = hash ∷ st.seen;
        found =
            st.found
            ++ record {
              pii_type = p.pii_type;
              sha256_hash = hash;
              confidence = p.confidence;
              context = redact_context payload start end;
            }
              ∷ [];
      }

  unfoldable pub code_match : List ℕ → CodePattern → ℕ × ℕ → CodeState → CodeState
  code_match payload c (start, end) st =
      let hash = sha256_hash (slice payload start end) in
      if any (eq_text hash) st.seen then st else record {
        seen = hash ∷ st.seen;
        found =
            st.found
            ++ record {
              code_type = c.code_type;
              snippet_hash = hash;
              language = c.language;
              confidence = c.confidence;
            }
              ∷ [];
      }

  unfoldable pub pii_matches : List ℕ → PiiPattern → List (ℕ × ℕ) → PiiState → PiiState
  pii_matches payload p [] st = st
  pii_matches payload p (loc ∷ locs) st = pii_matches payload p locs (pii_match payload p loc st)

  unfoldable pub code_matches : List ℕ → CodePattern → List (ℕ × ℕ) → CodeState → CodeState
  code_matches payload c [] st = st
  code_matches payload c (loc ∷ locs) st = code_matches payload c locs (code_match payload c loc st)

  unfoldable pub pii_scan : List ℕ → List PiiPattern → PiiState → PiiState
  pii_scan payload [] st = st
  pii_scan payload (p ∷ ps) st =
      pii_scan payload ps (pii_matches payload p (find_all p.regex payload) st)

  unfoldable pub code_scan : List ℕ → List CodePattern → CodeState → CodeState
  code_scan payload [] st = st
  code_scan payload (c ∷ cs) st =
      code_scan payload cs (code_matches payload c (find_all c.regex payload) st)

-- Whether a type is a key of a map of Booleans that are all true.
unfoldable pub is_in : List Text → Text → Bool
is_in types t = any (eq_text t) types

unfoldable pub restricted : List Text
restricted = codes "ssn" ∷ codes "credit_card" ∷ codes "iban" ∷ []

unfoldable pub restricted_code : List Text
restricted_code = codes "private_key" ∷ codes "aws_access_key" ∷ codes "connection_string" ∷ []

unfoldable pub confidential : List Text
confidential = codes "email" ∷ codes "phone_us" ∷ []

unfoldable pub confidential_code : List Text
confidential_code =
    codes "api_key" ∷ codes "openai_key" ∷ codes "github_token" ∷ codes "jwt_token" ∷ []

unfoldable pub classify_detections : List PiiDetection → List CodeDetection → Text
classify_detections pii code =
    if any (λ m. is_in restricted m.pii_type) pii
    then codes "RESTRICTED"
    else if any (λ m. is_in restricted_code m.code_type) code
    then codes "RESTRICTED"
    else if any (λ m. is_in confidential m.pii_type) pii
    then codes "CONFIDENTIAL"
    else if any (λ m. is_in confidential_code m.code_type) code
    then codes "CONFIDENTIAL"
    else if any
        (λ m. eq_text m.code_type (codes "sql_query") || eq_text m.code_type (codes "source_code"))
        code
    then codes "INTERNAL"
    else codes "PUBLIC"

-- The base of a classification, 0 for one that the map lacks.
unfoldable pub base_risk : Text → ℕ
base_risk classification =
    if eq_text classification (codes "INTERNAL")
    then 3000
    else if eq_text classification (codes "CONFIDENTIAL")
    then 6000
    else if eq_text classification (codes "RESTRICTED")
    then 9000
    else 0

unfoldable pub pii_risk : List PiiDetection → ℕ → ℕ
pii_risk [] score = score
pii_risk (m ∷ pii) score = pii_risk pii (min 10000 (score + 5 * m.confidence))

unfoldable pub code_risk : List CodeDetection → ℕ → ℕ
code_risk [] score = score
code_risk (m ∷ code) score = code_risk code (min 10000 (score + 3 * m.confidence))

unfoldable pub calculate_risk : List PiiDetection → List CodeDetection → Text → ℕ
calculate_risk pii code classification = code_risk code (pii_risk pii (base_risk classification))

-- scanPayload.
unfoldable pub scan_payload : Services → List ℕ → DlpScanResult
scan_payload s payload =
    let pii = pii_scan s payload pii_patterns (record { seen = []; found = [] }) in
    let code = code_scan s payload code_patterns (record { seen = pii.seen; found = [] }) in
    let classification = classify_detections pii.found code.found in
    record {
      classification = classification;
      pii_detections = pii.found;
      code_detections = code.found;
      total_pii_count = length pii.found;
      total_code_count = length code.found;
      risk_score = calculate_risk pii.found code.found classification;
      should_block = eq_text classification (codes "RESTRICTED");
    }
