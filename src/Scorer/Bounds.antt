-- ===== src/Scorer/Bounds.antt =====
-- What the stages of localHallucinationScore do to the score, and the response that comes out.
use Prim.Native.String.{String}
use aocs_compliance_svc.Common.{
  ℕ, ◌≤◌, ◌<◌, min, ◌≡◌, refl, ◌↔◌, true, List, [], ◌∷◌, some, arith, Option-cases, inl, inr, map,
}
use aocs_compliance_svc.Text.{Text, codes, Unicode, to_lower}
use aocs_compliance_svc.Text.Utf8.{runes_of_bytes}
use aocs_compliance_svc.Scorer.Encodings.{rot13_decode, hex_decode_payload, extract_base64_tokens}
use aocs_compliance_svc.Scorer.Similarity.{Similarity, semantic_similarity_score}
use aocs_compliance_svc.Scorer.Corpus.{paraphrase_corpus}
use aocs_compliance_svc.Scorer.Returns.{scored}
use aocs_compliance_svc.Scorer.Score.{
  Reason, low, high, Response, Tally, injection_stage, regex_stage, encoded_hit, base64_loop,
  base64_stage, rot13_stage, hex_stage, space_stage, semantic_weight, classify, semantic_stage,
  evasion_stages, injection_score, finish, local_hallucination_score, base64_encoded, rot13_encoded,
  hex_encoded,
}

-- Up to the cap, the score does not fall.
abbrev pub Grows : Tally → Tally → Type 0
Grows t t' = min t.score 100 ≤ min t'.score 100

pub injection_stage-Grows : (lower : Text) (t : Tally) → Grows t (injection_stage lower t)
unfolding injection_stage
injection_stage-Grows lower t = ground arith

pub encoded_hit-Grows :
    (decoded : Text) (w : ℕ) (r : String → Reason) (t : Tally) → Grows t (encoded_hit decoded w r t)
unfolding encoded_hit
encoded_hit-Grows decoded w r t = ground arith

pub space_stage-Grows : (lower : Text) (t : Tally) → Grows t (space_stage lower t)
unfolding space_stage
space_stage-Grows lower t = ground arith

pub semantic_weight-Grows : (sim : Similarity) (t : Tally) → Grows t (semantic_weight sim t)
unfolding semantic_weight
semantic_weight-Grows sim t = ground arith

pub regex_stage-Grows :
    (lower : Text) (t : Tally) {t' : Tally} → regex_stage lower t ≡ some t' → Grows t t'
unfolding regex_stage
regex_stage-Grows lower t h = ground arith

module _ (u : Unicode) where
  pub base64_loop-Grows : (ds : List Text) (t : Tally) → Grows t (base64_loop u ds t)
  unfolding base64_loop
  base64_loop-Grows [] t = omega arith
  base64_loop-Grows (d ∷ ds) t =
      let t' = encoded_hit (to_lower u d) 60 base64_encoded t in
      omega (arith, encoded_hit-Grows (to_lower u d) 60 base64_encoded t, base64_loop-Grows ds t')

  pub hex_stage-Grows : (lower : Text) (t : Tally) → Grows t (hex_stage u lower t)
  unfolding hex_stage
  hex_stage-Grows lower t =
      let d = to_lower u (runes_of_bytes (hex_decode_payload lower)) in
      ground (arith, encoded_hit-Grows d 65 hex_encoded t)

  semantic_stage-Grows : (lower : Text) (t : Tally) → Grows t (semantic_stage u lower t)
  unfolding semantic_stage
  semantic_stage-Grows lower t =
      semantic_weight-Grows (semantic_similarity_score u lower (map codes paraphrase_corpus)) t

  -- The tallies between the evasion stages.
  abbrev pub after_rot13 : Text → Tally → Tally
  after_rot13 lower t = rot13_stage u lower (base64_stage u lower t)

  abbrev pub after_hex : Text → Tally → Tally
  after_hex lower t = hex_stage u lower (after_rot13 lower t)

  pub after_hex-Grows :
      (lower : Text) (t : Tally) → Grows (after_hex lower t) (evasion_stages u lower t)
  unfolding evasion_stages
  after_hex-Grows lower t =
      let h = after_hex lower t in
      omega (arith, space_stage-Grows lower h, semantic_stage-Grows lower (space_stage lower h))

  pub after_rot13-Grows :
      (lower : Text) (t : Tally) → Grows (after_rot13 lower t) (evasion_stages u lower t)
  after_rot13-Grows lower t =
      omega (arith, hex_stage-Grows lower (after_rot13 lower t), after_hex-Grows lower t)

  pub evasion_stages-Grows : (lower : Text) (t : Tally) → Grows t (evasion_stages u lower t)
  unfolding base64_stage rot13_stage
  evasion_stages-Grows lower t =
      let b = base64_stage u lower t in
      omega (
        arith,
        base64_loop-Grows (extract_base64_tokens lower) t,
        encoded_hit-Grows (to_lower u (rot13_decode lower)) 60 rot13_encoded b,
        after_rot13-Grows lower t,
      )

classify_lem :
    (s : ℕ)
    → (((classify s).0 ≡ high) ↔ (65 ≤ s))
      × (((classify s).0 ≡ low) ↔ (s < 30))
      × (((classify s).1 ≡ true) ↔ (30 ≤ s))
unfolding classify
classify_lem s = ground arith

-- A response that describes its own confidence.
pub record IsConsistent (r : Response) : Type 0 where
  pub bounded : r.confidence ≤ 100
  pub entropy : r.entropy ≡ r.confidence
  pub high : (r.risk_level ≡ high) ↔ (65 ≤ r.confidence)
  pub low : (r.risk_level ≡ low) ↔ (r.confidence < 30)
  pub detected : (r.hallucination_detected ≡ true) ↔ (30 ≤ r.confidence)
  pub fallback : r.is_fallback ≡ true

pub finish-IsConsistent :
    (llm_output lower : Text) (t : Tally) → IsConsistent (finish llm_output lower t)
unfolding finish
finish-IsConsistent llm_output lower t =
    let r = finish llm_output lower t in
    let (is_high, is_low, detected) = classify_lem r.confidence in
    record {
      bounded = omega arith;
      entropy = refl;
      high = is_high;
      low = is_low;
      detected = detected;
      fallback = refl;
    }

pub finish-ge :
    (llm_output lower : Text) (t : Tally) → min t.score 100 ≤ (finish llm_output lower t).confidence
unfolding finish
finish-ge llm_output lower t = omega arith

-- A response carries a confidence of at most 1.0, the same entropy, the fallback mark, the level
-- HIGH exactly from 0.65 on, LOW exactly below 0.30, and `detected` exactly from 0.30 on.
pub local_hallucination_score-IsConsistent :
    (u : Unicode) (llm_output context_text agent_id : Text) (r : Response)
    → local_hallucination_score u llm_output context_text agent_id ≡ some r
    → IsConsistent r
unfolding local_hallucination_score
local_hallucination_score-IsConsistent u llm_output context_text agent_id r h =
    elim (Option-cases (injection_score u (scored u llm_output))) [
      | inl e ↦ absurd (ground arith)
      | inr (t, e) ↦
          let same : finish llm_output (scored u llm_output) t ≡ r = ground arith in
          rw (← same) (finish-IsConsistent llm_output (scored u llm_output) t)
    ]
