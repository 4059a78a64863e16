-- ===== src/Dlp/Coverage.antt =====
-- That a scan of internal/compliance/handlers/security/data_protection.go reports each match.
use mathlib.Core.List.{Memᴰ}
use aocs_compliance_svc.Common.{ℕ, ◌≡◌, sym, ap, ◌∙◌, ◌⊎◌, inl, inr, true, List, [], ◌∷◌, arith}
use aocs_compliance_svc.Text.{Text}
use aocs_compliance_svc.Text.Laws.{eq_text_refl}
use aocs_compliance_svc.Dlp.Patterns.{PiiPattern, CodePattern, pii_patterns, code_patterns}
use aocs_compliance_svc.Dlp.Scan.{
  Services, PiiState, CodeState, slice, sha256_hash, pii_match, code_match, pii_matches,
  code_matches, pii_scan, code_scan, scan_payload,
}
use aocs_compliance_svc.Dlp.Hashes.{has, pii_stage, reported, scan_payload-seen}

module _ (s : Services) (payload : List ℕ) where
  open s use {find_all}

  abbrev pub hash_at : ℕ × ℕ → Text
  hash_at (start, end) = sha256_hash s (slice payload start end)

  pii_match-keeps :
      (p : PiiPattern) (loc : ℕ × ℕ) (st : PiiState) (h : Text)
      → has st.seen h ≡ true
      → has (pii_match s payload p loc st).seen h ≡ true
  unfolding pii_match
  pii_match-keeps p (start, end) st h e = ground (arith, e)

  pii_match-adds :
      (p : PiiPattern) (loc : ℕ × ℕ) (st : PiiState)
      → has (pii_match s payload p loc st).seen (hash_at loc) ≡ true
  unfolding pii_match
  pii_match-adds p (start, end) st = ground (arith, eq_text_refl (hash_at (start, end)))

  pii_matches-keeps :
      (p : PiiPattern) (locs : List (ℕ × ℕ)) (st : PiiState) (h : Text)
      → has st.seen h ≡ true
      → has (pii_matches s payload p locs st).seen h ≡ true
  unfolding pii_matches
  pii_matches-keeps p [] st h e = e
  pii_matches-keeps p (loc ∷ locs) st h e =
      pii_matches-keeps p locs _ h (pii_match-keeps p loc st h e)

  pii_matches-adds :
      (p : PiiPattern) (locs : List (ℕ × ℕ)) (loc : ℕ × ℕ) (st : PiiState)
      → Memᴰ loc locs
      → has (pii_matches s payload p locs st).seen (hash_at loc) ≡ true
  unfolding pii_matches
  pii_matches-adds p [] loc st at = elim at [ ]
  pii_matches-adds p (l ∷ locs) loc st (Memᴰ.head e) =
      pii_matches-keeps p locs _ (hash_at loc)
        (ap (λ a. has (pii_match s payload p l st).seen (hash_at a)) e ∙ pii_match-adds p l st)
  pii_matches-adds p (l ∷ locs) loc st (Memᴰ.tail at) = pii_matches-adds p locs loc _ at

  pii_scan-keeps :
      (ps : List PiiPattern) (st : PiiState) (h : Text)
      → has st.seen h ≡ true
      → has (pii_scan s payload ps st).seen h ≡ true
  unfolding pii_scan
  pii_scan-keeps [] st h e = e
  pii_scan-keeps (p ∷ ps) st h e = pii_scan-keeps ps _ h (pii_matches-keeps p _ st h e)

  pii_scan-adds :
      (ps : List PiiPattern) (p : PiiPattern) (loc : ℕ × ℕ) (st : PiiState)
      → Memᴰ p ps
      → Memᴰ loc (find_all p.regex payload)
      → has (pii_scan s payload ps st).seen (hash_at loc) ≡ true
  unfolding pii_scan
  pii_scan-adds [] p loc st at in_matches = elim at [ ]
  pii_scan-adds (q ∷ ps) p loc st (Memᴰ.head e) in_matches =
      pii_scan-keeps ps _ (hash_at loc)
        (pii_matches-adds q _ loc st (rw (ap (λ r. find_all r.regex payload) e) at in_matches))
  pii_scan-adds (q ∷ ps) p loc st (Memᴰ.tail at) in_matches = pii_scan-adds ps p loc _ at in_matches

  code_match-keeps :
      (p : CodePattern) (loc : ℕ × ℕ) (st : CodeState) (h : Text)
      → has st.seen h ≡ true
      → has (code_match s payload p loc st).seen h ≡ true
  unfolding code_match
  code_match-keeps p (start, end) st h e = ground (arith, e)

  code_match-adds :
      (p : CodePattern) (loc : ℕ × ℕ) (st : CodeState)
      → has (code_match s payload p loc st).seen (hash_at loc) ≡ true
  unfolding code_match
  code_match-adds p (start, end) st = ground (arith, eq_text_refl (hash_at (start, end)))

  code_matches-keeps :
      (p : CodePattern) (locs : List (ℕ × ℕ)) (st : CodeState) (h : Text)
      → has st.seen h ≡ true
      → has (code_matches s payload p locs st).seen h ≡ true
  unfolding code_matches
  code_matches-keeps p [] st h e = e
  code_matches-keeps p (loc ∷ locs) st h e =
      code_matches-keeps p locs _ h (code_match-keeps p loc st h e)

  code_matches-adds :
      (p : CodePattern) (locs : List (ℕ × ℕ)) (loc : ℕ × ℕ) (st : CodeState)
      → Memᴰ loc locs
      → has (code_matches s payload p locs st).seen (hash_at loc) ≡ true
  unfolding code_matches
  code_matches-adds p [] loc st at = elim at [ ]
  code_matches-adds p (l ∷ locs) loc st (Memᴰ.head e) =
      code_matches-keeps p locs _ (hash_at loc)
        (ap (λ a. has (code_match s payload p l st).seen (hash_at a)) e ∙ code_match-adds p l st)
  code_matches-adds p (l ∷ locs) loc st (Memᴰ.tail at) = code_matches-adds p locs loc _ at

  code_scan-keeps :
      (ps : List CodePattern) (st : CodeState) (h : Text)
      → has st.seen h ≡ true
      → has (code_scan s payload ps st).seen h ≡ true
  unfolding code_scan
  code_scan-keeps [] st h e = e
  code_scan-keeps (p ∷ ps) st h e = code_scan-keeps ps _ h (code_matches-keeps p _ st h e)

  code_scan-adds :
      (ps : List CodePattern) (p : CodePattern) (loc : ℕ × ℕ) (st : CodeState)
      → Memᴰ p ps
      → Memᴰ loc (find_all p.regex payload)
      → has (code_scan s payload ps st).seen (hash_at loc) ≡ true
  unfolding code_scan
  code_scan-adds [] p loc st at in_matches = elim at [ ]
  code_scan-adds (q ∷ ps) p loc st (Memᴰ.head e) in_matches =
      code_scan-keeps ps _ (hash_at loc)
        (code_matches-adds q _ loc st (rw (ap (λ r. find_all r.regex payload) e) at in_matches))
  code_scan-adds (q ∷ ps) p loc st (Memᴰ.tail at) in_matches =
      code_scan-adds ps p loc _ at in_matches

  -- Each match of an expression for personal data is reported by its hash.
  scan_payload-pii :
      (p : PiiPattern) (loc : ℕ × ℕ)
      → Memᴰ p pii_patterns
      → Memᴰ loc (find_all p.regex payload)
      → has (reported s payload (scan_payload s payload)) (hash_at loc) ≡ true
  scan_payload-pii p loc at in_matches =
      sym (scan_payload-seen s payload (hash_at loc))
      ∙ code_scan-keeps code_patterns _ (hash_at loc)
          (pii_scan-adds pii_patterns p loc (record { seen = []; found = [] }) at in_matches)

  -- Each match of an expression for code or secrets is reported by its hash.
  scan_payload-code :
      (c : CodePattern) (loc : ℕ × ℕ)
      → Memᴰ c code_patterns
      → Memᴰ loc (find_all c.regex payload)
      → has (reported s payload (scan_payload s payload)) (hash_at loc) ≡ true
  scan_payload-code c loc at in_matches =
      sym (scan_payload-seen s payload (hash_at loc))
      ∙ code_scan-adds code_patterns c loc
          (record { seen = (pii_stage s payload).seen; found = [] }) at in_matches

  -- Each match of an expression of either kind is reported by its hash.
  pub scan_payload-reported :
      (loc : ℕ × ℕ)
      → ((p : PiiPattern) × Memᴰ p pii_patterns × Memᴰ loc (find_all p.regex payload))
        ⊎ ((c : CodePattern) × Memᴰ c code_patterns × Memᴰ loc (find_all c.regex payload))
      → has (reported s payload (scan_payload s payload)) (hash_at loc) ≡ true
  scan_payload-reported loc (inl (p, at, in_matches)) = scan_payload-pii p loc at in_matches
  scan_payload-reported loc (inr (c, at, in_matches)) = scan_payload-code c loc at in_matches
