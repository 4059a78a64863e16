-- ===== src/Scorer/Detects.antt =====
-- What localHallucinationScore is sure to detect.
use Prim.Native.String.{String}
use mathlib.Core.List.{Memᴰ}
use aocs_compliance_svc.Common.{
  ◌≢◌, ◌++◌, ℕ, ◌*◌, ◌≤◌, ◌<◌, min, ◌≡◌, Bool, true, false, List, [], ◌∷◌, some, arith, length,
  keep, Bool-cases, Option-cases, inl, inr, map, sym, ◌∙◌, ap,
}
use aocs_compliance_svc.Text.{Text, codes, Unicode, to_lower}
use aocs_compliance_svc.Text.Utf8.{runes_of_bytes}
use aocs_compliance_svc.Scorer.Patterns.{injection_patterns}
use aocs_compliance_svc.Text.Hex.{IsBytes, hex_encode}
use aocs_compliance_svc.Scorer.Encodings.{rot13_decode, hex_separator, hex_decode_payload}
use aocs_compliance_svc.Scorer.Encodings.Laws.{rot13_decode_twice, hex_decode_payload-hex_encode}
use aocs_compliance_svc.Scorer.Corpus.{paraphrase_corpus}
use aocs_compliance_svc.Scorer.Similarity.{reaches, semantic_similarity_score}
use aocs_compliance_svc.Scorer.Regex.{match_string, pipe_system}
use aocs_compliance_svc.Scorer.Returns.{scored, regex_stage-eq-none_iff}
use aocs_compliance_svc.Scorer.Bounds.{
  regex_stage-Grows, evasion_stages-Grows, finish-ge, after_rot13, after_rot13-Grows,
  after_hex-Grows,
}
use aocs_compliance_svc.Scorer.Score.{
  Reason, Response, Tally, mentions, injection_stage, regex_stage, find_pattern, encoded_hit,
  rot13_encoded, hex_encoded, base64_stage, semantic_stage, rot13_stage, hex_stage, semantic_weight,
  evasion_stages, injection_score, finish, local_hallucination_score,
}

abbrev start : Tally
start = record { score = 0; reasons = [] }

-- The patterns that a text holds as they are written.
abbrev pub plain_hits : Text → ℕ
plain_hits lower = length (keep (mentions lower) injection_patterns)

-- A response exists, and its confidence is at least so much.
abbrev pub Scores : Unicode → Text → Text → Text → ℕ → Type 0
Scores u llm_output context_text agent_id least =
    (r : Response) × (local_hallucination_score u llm_output context_text agent_id ≡ some r)
    × (least ≤ r.confidence)

injection_stage-start :
    (lower : Text) → min (plain_hits lower * 45) 90 ≤ (injection_stage lower start).score
unfolding injection_stage
injection_stage-start lower = ground arith

-- Unless the scorer panics, its stages run from a tally on that holds the plain hits.
score_stages :
    (u : Unicode) (lower : Text)
    → match_string pipe_system lower ≡ false
    → (t : Tally) × (injection_score u lower ≡ some (evasion_stages u lower t))
      × (min (plain_hits lower * 45) 90 ≤ min t.score 100)
unfolding injection_score
score_stages u lower h =
    let s = injection_stage lower start in
    elim (Option-cases (regex_stage lower s)) [
      | inl e ↦ absurd (cc (h, (regex_stage-eq-none_iff lower s).0 e))
      | inr (t, e) ↦
          (t, ground arith, omega (arith, injection_stage-start lower, regex_stage-Grows lower s e))
    ]

-- What the stages reach from such a tally on, the response reaches.
Scores-of_stages :
    (u : Unicode) (llm_output context_text agent_id : Text) (least : ℕ)
    → match_string pipe_system (scored u llm_output) ≡ false
    → least ≤ 100
    → ((t : Tally)
        → min (plain_hits (scored u llm_output) * 45) 90 ≤ min t.score 100
        → least ≤ (evasion_stages u (scored u llm_output) t).score)
    → Scores u llm_output context_text agent_id least
unfolding local_hallucination_score
Scores-of_stages u llm_output context_text agent_id least quiet small reach =
    let lower = scored u llm_output in
    let (t, e, hits) = score_stages u lower quiet in
    let t' = evasion_stages u lower t in
    (
      finish llm_output lower t',
      ground arith,
      omega (arith, reach t hits, finish-ge llm_output lower t'),
    )

find_pattern_of_mem :
    (t : Text) {pat : String} (pats : List String)
    → Memᴰ pat pats
    → mentions t pat ≡ true
    → (q : String) × (find_pattern t pats ≡ some q)
unfolding find_pattern
find_pattern_of_mem t [] m h = elim m [ ]
find_pattern_of_mem t (p ∷ pats) (Memᴰ.head e) h =
    let here : mentions t p ≡ true = rw e at h in (p, rw here)
find_pattern_of_mem t (p ∷ pats) (Memᴰ.tail m) h = elim (Bool-cases (mentions t p)) [
  | inl here ↦ (p, rw here)
  | inr missed ↦ let (q, found) = find_pattern_of_mem t pats m h in (q, rw missed found)
]

encoded_hit-ge :
    (d : Text) (w : ℕ) (r : String → Reason) (t : Tally) {pat : String}
    → Memᴰ pat injection_patterns
    → mentions d pat ≡ true
    → w ≤ 100
    → w ≤ (encoded_hit d w r t).score
unfolding encoded_hit
encoded_hit-ge d w r t m h le =
    let (q, found) = find_pattern_of_mem d injection_patterns m h in ground arith

length-keep_pos :
    {x : String} (p : String → Bool) (xs : List String)
    → Memᴰ x xs
    → p x ≡ true
    → 0 < length (keep p xs)
unfolding keep
length-keep_pos p [] m h = elim m [ ]
length-keep_pos p (x ∷ xs) (Memᴰ.head e) h = let here : p x ≡ true = rw e at h in ground arith
length-keep_pos p (x ∷ xs) (Memᴰ.tail m) h = ground (arith, length-keep_pos p xs m h)

hex_stage-ge :
    (u : Unicode) (lower : Text) (t : Tally) {pat : String}
    → Memᴰ pat injection_patterns
    → hex_decode_payload lower ≢ []
    → mentions (to_lower u (runes_of_bytes (hex_decode_payload lower))) pat ≡ true
    → 65 ≤ (hex_stage u lower t).score
unfolding hex_stage
hex_stage-ge u lower t m some_bytes h =
    let d = to_lower u (runes_of_bytes (hex_decode_payload lower)) in
    ground (arith, encoded_hit-ge d 65 hex_encoded t m h (omega arith))

evasion_stages-ge_semantic :
    (u : Unicode) (lower : Text) (t : Tally)
    → reaches (semantic_similarity_score u lower (map codes paraphrase_corpus)) 60 ≡ true
    → 65 ≤ (evasion_stages u lower t).score
unfolding evasion_stages semantic_stage semantic_weight
evasion_stages-ge_semantic u lower t h = rw h (omega arith)

module _ (u : Unicode) (llm_output context_text agent_id : Text)
    (quiet : match_string pipe_system (scored u llm_output) ≡ false) where
  -- Unless the text, normalised and in lower case, matches `\|\s*system\s*\|`, a response comes
  -- back, and each pattern that stands in the text as it is counts 0.45, up to 0.90, whatever else
  -- the text holds.
  pub plain_hits-Scores :
      Scores u llm_output context_text agent_id (min (plain_hits (scored u llm_output) * 45) 90)
  plain_hits-Scores =
      let lower = scored u llm_output in
      Scores-of_stages u llm_output context_text agent_id (min (plain_hits lower * 45) 90) quiet
        (omega arith) (λ t hits. omega (arith, evasion_stages-Grows u lower t))

  pub rot13_stage-Scores :
      {pat : String}
      → Memᴰ pat injection_patterns
      → mentions (to_lower u (rot13_decode (scored u llm_output))) pat ≡ true
      → Scores u llm_output context_text agent_id 60
  unfolding rot13_stage
  rot13_stage-Scores m h =
      let lower = scored u llm_output in
      let d = to_lower u (rot13_decode lower) in
      Scores-of_stages u llm_output context_text agent_id 60 quiet (omega arith) (λ t _. omega (
        arith,
        encoded_hit-ge d 60 rot13_encoded (base64_stage u lower t) m h (omega arith),
        after_rot13-Grows u lower t,
      ))

  pub hex_stage-Scores :
      {pat : String}
      → Memᴰ pat injection_patterns
      → hex_decode_payload (scored u llm_output) ≢ []
      → mentions (to_lower u (runes_of_bytes (hex_decode_payload (scored u llm_output)))) pat ≡ true
      → Scores u llm_output context_text agent_id 65
  hex_stage-Scores m some_bytes h =
      let lower = scored u llm_output in
      Scores-of_stages u llm_output context_text agent_id 65 quiet (omega arith) (λ t _. omega (
        arith,
        hex_stage-ge u lower (after_rot13 u lower t) m some_bytes h,
        after_hex-Grows u lower t,
      ))

  pub semantic_stage-Scores :
      reaches (semantic_similarity_score u (scored u llm_output) (map codes paraphrase_corpus)) 60
        ≡ true
      → Scores u llm_output context_text agent_id 65
  semantic_stage-Scores h =
      let lower = scored u llm_output in
      Scores-of_stages u llm_output context_text agent_id 65 quiet (omega arith)
        (λ t _. evasion_stages-ge_semantic u lower t h)

  -- Unless the text, normalised and in lower case, matches `\|\s*system\s*\|`, it scores at least
  -- 0.60 where it is the ROT13 of a payload that in lower case holds a pattern.
  pub rot13_payload-Scores :
      (payload : Text) {pat : String}
      → Memᴰ pat injection_patterns
      → scored u llm_output ≡ rot13_decode payload
      → mentions (to_lower u payload) pat ≡ true
      → Scores u llm_output context_text agent_id 60
  rot13_payload-Scores payload m same h =
      let back : rot13_decode (scored u llm_output) ≡ payload =
        ap rot13_decode same ∙ rot13_decode_twice payload in
      rot13_stage-Scores m (rw back h)

  -- Unless the text, normalised and in lower case, matches `\|\s*system\s*\|`, it scores at least
  -- 0.65, which is HIGH, where between two separators it holds the hexadecimal digits of eight
  -- bytes or more that, read as UTF-8 and in lower case, hold a pattern, and no field before them
  -- decodes.
  pub hex_payload-Scores :
      (before after : Text) (s s' : ℕ) (payload : List ℕ) {pat : String}
      → Memᴰ pat injection_patterns
      → scored u llm_output ≡ before ++ s ∷ (hex_encode payload ++ s' ∷ after)
      → hex_separator s ≡ true
      → hex_separator s' ≡ true
      → hex_decode_payload before ≡ []
      → IsBytes payload
      → 8 ≤ length payload
      → mentions (to_lower u (runes_of_bytes payload)) pat ≡ true
      → Scores u llm_output context_text agent_id 65
  hex_payload-Scores before after s s' payload m same hs hs' nothing bytes long h =
      let found : hex_decode_payload (scored u llm_output) ≡ payload =
        ap hex_decode_payload same
        ∙ hex_decode_payload-hex_encode before after s s' payload hs hs' nothing bytes long in
      hex_stage-Scores m (λ e. absurd (omega (arith, ap length (sym found ∙ e)))) (rw found h)
