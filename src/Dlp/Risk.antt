-- ===== src/Dlp/Risk.antt =====
-- The risk of a scan in internal/compliance/handlers/security/data_protection.go, as a sum.
use aocs_compliance_svc.Common.{ℕ, ◌+◌, ◌*◌, ◌≤◌, ◌≡◌, min, List, [], ◌∷◌, arith}
use aocs_compliance_svc.Text.{Text}
use aocs_compliance_svc.Dlp.Scan.{
  Services, PiiDetection, CodeDetection, base_risk, pii_risk, code_risk, calculate_risk,
  scan_payload,
}

unfoldable pub pii_sum : List PiiDetection → ℕ
pii_sum [] = 0
pii_sum (m ∷ pii) = m.confidence + pii_sum pii

unfoldable pub code_sum : List CodeDetection → ℕ
code_sum [] = 0
code_sum (m ∷ code) = m.confidence + code_sum code

pii_risk-sum :
    (pii : List PiiDetection) (n : ℕ) → n ≤ 10000 → pii_risk pii n ≡ min 10000 (n + 5 * pii_sum pii)
unfolding pii_risk pii_sum
pii_risk-sum [] n h = omega arith
pii_risk-sum (m ∷ pii) n h =
    omega (arith, pii_risk-sum pii (min 10000 (n + 5 * m.confidence)) (omega arith))

code_risk-sum :
    (code : List CodeDetection) (n : ℕ)
    → n ≤ 10000
    → code_risk code n ≡ min 10000 (n + 3 * code_sum code)
unfolding code_risk code_sum
code_risk-sum [] n h = omega arith
code_risk-sum (m ∷ code) n h =
    omega (arith, code_risk-sum code (min 10000 (n + 3 * m.confidence)) (omega arith))

base_risk_le : (c : Text) → base_risk c ≤ 9000
unfolding base_risk
base_risk_le c = ground arith

-- The risk of a scan is the base of its classification and the weighted confidences of all its
-- detections, cut once at 10000, although the code cuts it at each step.
pub scan_payload-risk :
    (s : Services) (payload : List ℕ)
    → let r = scan_payload s payload in
      r.risk_score
      ≡ min 10000 (
          base_risk r.classification
          + 5 * pii_sum r.pii_detections
          + 3 * code_sum r.code_detections)
unfolding scan_payload calculate_risk
scan_payload-risk s payload =
    let r = scan_payload s payload in
    let pii =
      pii_risk-sum r.pii_detections (base_risk r.classification)
        (omega (arith, base_risk_le r.classification)) in
    let code =
      code_risk-sum r.code_detections (pii_risk r.pii_detections (base_risk r.classification))
        (omega (arith, pii)) in
    omega (arith, pii, code)
