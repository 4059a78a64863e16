-- ===== src/Dlp/Hashes.antt =====
-- The hashes that a scan of internal/compliance/handlers/security/data_protection.go reports.
use mathlib.Core.List.{append_assoc, append-nil}
use aocs_compliance_svc.Common.{
  ℕ, ◌≡◌, refl, sym, ap, ◌∙◌, inl, inr, Bool, false, ◌||◌, List, [], ◌∷◌, ◌++◌, map, any,
  Bool-cases, arith,
}
use aocs_compliance_svc.Text.{Text, eq_text}
use aocs_compliance_svc.Text.Laws.{eq_text_comm}
use aocs_compliance_svc.Dlp.Patterns.{PiiPattern, CodePattern, pii_patterns, code_patterns}
use aocs_compliance_svc.Dlp.Scan.{
  Services, PiiDetection, CodeDetection, DlpScanResult, PiiState, CodeState, slice, sha256_hash,
  pii_match, code_match, pii_matches, code_matches, pii_scan, code_scan, scan_payload,
}

-- A hash is in a list of hashes.
abbrev pub has : List Text → Text → Bool
has hs h = any (eq_text h) hs

abbrev pub Distinct : List Text → Type 0
Distinct [] = Unit
Distinct (h ∷ hs) = (has hs h ≡ false) × Distinct hs

-- The hashes that were seen are those of a list without repetition.
abbrev Seen : List Text → List Text → Type 0
Seen seen hs = ((h : Text) → has seen h ≡ has hs h) × Distinct hs

has-append : (xs : List Text) (x h : Text) → has (xs ++ x ∷ []) h ≡ (eq_text h x || has xs h)
has-append [] x h = ground arith
has-append (y ∷ xs) x h = ground (arith, has-append xs x h)

Distinct-append :
    (xs : List Text) (x : Text) → has xs x ≡ false → Distinct xs → Distinct (xs ++ x ∷ [])
Distinct-append [] x h d = (refl, tt)
Distinct-append (y ∷ xs) x h (fresh, d) =
    let other : eq_text x y ≡ false = ground (arith, h) in
    let rest : has xs x ≡ false = ground (arith, h) in
    (rw (has-append xs x y, eq_text_comm x y other) fresh, Distinct-append xs x rest d)

Seen-append :
    (seen hs : List Text) (h : Text)
    → has seen h ≡ false
    → Seen seen hs
    → Seen (h ∷ seen) (hs ++ h ∷ [])
Seen-append seen hs h fresh (same, d) =
    ((λ j. rw (has-append hs h j, same j) refl), Distinct-append hs h (sym (same h) ∙ fresh) d)

-- The hashes of the detections.
abbrev pub pii_hashes : List PiiDetection → List Text
pii_hashes found = map (λ d. d.sha256_hash) found

abbrev pub code_hashes : List CodeDetection → List Text
code_hashes found = map (λ d. d.snippet_hash) found

map-append_one :
    {A : Type 0} (f : A → Text) (xs : List A) (x : A) → map f (xs ++ x ∷ []) ≡ map f xs ++ f x ∷ []
map-append_one f [] x = refl
map-append_one f (y ∷ xs) x = ap (λ t. f y ∷ t) (map-append_one f xs x)

module _ (s : Services) (payload : List ℕ) where
  abbrev PiiSeen : PiiState → Type 0
  PiiSeen st = Seen st.seen (pii_hashes st.found)

  pii_match-Seen :
      (p : PiiPattern) (loc : ℕ × ℕ) (st : PiiState)
      → PiiSeen st
      → PiiSeen (pii_match s payload p loc st)
  unfolding pii_match
  pii_match-Seen p (start, end) st h =
      let hash = sha256_hash s (slice payload start end) in
      elim (Bool-cases (has st.seen hash)) [
        | inl again ↦ rw again h
        | inr fresh ↦
            rw (fresh, map-append_one (λ d. d.sha256_hash) st.found _)
              (Seen-append st.seen (pii_hashes st.found) hash fresh h)
      ]

  pii_matches-Seen :
      (p : PiiPattern) (locs : List (ℕ × ℕ)) (st : PiiState)
      → PiiSeen st
      → PiiSeen (pii_matches s payload p locs st)
  unfolding pii_matches
  pii_matches-Seen p [] st h = h
  pii_matches-Seen p (loc ∷ locs) st h = pii_matches-Seen p locs _ (pii_match-Seen p loc st h)

  pii_scan-Seen :
      (ps : List PiiPattern) (st : PiiState) → PiiSeen st → PiiSeen (pii_scan s payload ps st)
  unfolding pii_scan
  pii_scan-Seen [] st h = h
  pii_scan-Seen (p ∷ ps) st h = pii_scan-Seen ps _ (pii_matches-Seen p _ st h)

  module _ (before : List Text) where
    abbrev CodeSeen : CodeState → Type 0
    CodeSeen st = Seen st.seen (before ++ code_hashes st.found)

    code_match-Seen :
        (c : CodePattern) (loc : ℕ × ℕ) (st : CodeState)
        → CodeSeen st
        → CodeSeen (code_match s payload c loc st)
    unfolding code_match
    code_match-Seen c (start, end) st h =
        let hash = sha256_hash s (slice payload start end) in
        elim (Bool-cases (has st.seen hash)) [
          | inl again ↦ rw again h
          | inr fresh ↦
              rw
                (
                  fresh,
                  map-append_one (λ d. d.snippet_hash) st.found _,
                  sym (append_assoc before (code_hashes st.found) (hash ∷ [])),
                )
                (Seen-append st.seen (before ++ code_hashes st.found) hash fresh h)
        ]

    code_matches-Seen :
        (c : CodePattern) (locs : List (ℕ × ℕ)) (st : CodeState)
        → CodeSeen st
        → CodeSeen (code_matches s payload c locs st)
    unfolding code_matches
    code_matches-Seen c [] st h = h
    code_matches-Seen c (loc ∷ locs) st h = code_matches-Seen c locs _ (code_match-Seen c loc st h)

    code_scan-Seen :
        (cs : List CodePattern) (st : CodeState)
        → CodeSeen st
        → CodeSeen (code_scan s payload cs st)
    unfolding code_scan
    code_scan-Seen [] st h = h
    code_scan-Seen (c ∷ cs) st h = code_scan-Seen cs _ (code_matches-Seen c _ st h)

  -- The two stages of a scan.
  abbrev pub pii_stage : PiiState
  pii_stage = pii_scan s payload pii_patterns (record { seen = []; found = [] })

  abbrev pub code_stage : CodeState
  code_stage = code_scan s payload code_patterns (record { seen = pii_stage.seen; found = [] })

  stages-Seen : Seen code_stage.seen (pii_hashes pii_stage.found ++ code_hashes code_stage.found)
  stages-Seen =
      let before =
        pii_scan-Seen pii_patterns (record { seen = []; found = [] }) ((λ h. refl), tt) in
      code_scan-Seen (pii_hashes pii_stage.found) code_patterns
        (record { seen = pii_stage.seen; found = [] })
        (rw (append-nil (pii_hashes pii_stage.found)) before)

  -- All hashes of a scan.
  unfoldable pub reported : DlpScanResult → List Text
  reported r = pii_hashes r.pii_detections ++ code_hashes r.code_detections

  pub scan_payload-seen :
      (h : Text) → has code_stage.seen h ≡ has (reported (scan_payload s payload)) h
  unfolding scan_payload reported
  scan_payload-seen h = stages-Seen.0 h

  -- No two detections of a scan, of either kind, have the same hash.
  pub scan_payload-Distinct : Distinct (reported (scan_payload s payload))
  unfolding scan_payload reported
  scan_payload-Distinct = stages-Seen.1
