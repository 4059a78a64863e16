-- ===== src/Dlp/Tests.antt =====
-- The theorems on scans at expressions that match the two halves of a payload.
use mathlib.Core.List.{Memᴰ}
use aocs_compliance_svc.Common.{ℕ, ◌≡◌, refl, inl, true, List, [], ◌∷◌, ◌==◌}
use aocs_compliance_svc.Text.{codes}
use aocs_compliance_svc.Dlp.Patterns.{PiiPattern, pii_patterns}
use aocs_compliance_svc.Dlp.Scan.{Services, DlpScanResult, scan_payload}
use aocs_compliance_svc.Dlp.Classes.{
  higher, highest, pii_level, code_level, level_name, scan_payload-highest,
}
use aocs_compliance_svc.Dlp.Hashes.{has, reported}
use aocs_compliance_svc.Dlp.Coverage.{hash_at, scan_payload-reported}

abbrev toy : Services
toy = record { sha256 = λ bytes. bytes; find_all = λ regex payload. (0, 2) ∷ (2, 4) ∷ [] }

abbrev abcd : List ℕ
abcd = codes "abcd"

abbrev scanned : DlpScanResult
scanned = scan_payload toy abcd

scan_payload-highest_example :
    let level =
      higher
        (highest pii_level scanned.pii_detections)
        (highest code_level scanned.code_detections) in
    (scanned.classification ≡ level_name level) × (scanned.should_block ≡ (level == 3))
scan_payload-highest_example = scan_payload-highest toy abcd

abbrev email : PiiPattern
email = record {
  pii_type = codes "email";
  regex = codes "[a-zA-Z0-9._%+\\-]+@[a-zA-Z0-9.\\-]+\\.[a-zA-Z]{2,}";
  confidence = 95;
}

email_scanned : Memᴰ email pii_patterns
unfolding pii_patterns
email_scanned = Memᴰ.head refl

scan_payload-reported_example : has (reported toy abcd scanned) (hash_at toy abcd (2, 4)) ≡ true
scan_payload-reported_example =
    scan_payload-reported toy abcd (2, 4) (inl (email, email_scanned, Memᴰ.tail (Memᴰ.head refl)))
