-- ===== src/Scorer/Score.antt =====
-- localHallucinationScore of ent_local_scorer.go.
--
-- Scores are hundredths, as every weight and threshold of the source is. Sums of weights differ by
-- a hundredth or more, and those that meet a threshold exactly (0.65, 0.40 + 0.25 and 0.30) are
-- exact in float64 too, so that rounding decides no comparison. The similarity thresholds are
-- compared exactly (see Similarity). `none` is a panic.
use Prim.Native.String.{String}
use aocs_compliance_svc.Common.{
  ℕ, suc, ◌+◌, ◌*◌, min, Bool, true, false, not, ◌&&◌, List, [], ◌∷◌, ◌++◌, map, Option, none, some,
  ltb, leb, ◌==◌, is_empty, length, take, keep, any, if◌then◌else◌,
}
use aocs_compliance_svc.Text.{
  Text, codes, Unicode, contains, eq_text, byte_len, fields, is_control, remove_spaces, to_lower,
}
use aocs_compliance_svc.Scorer.Patterns.{
  injection_patterns, impossibility_markers, confabulation_hedges,
}
use aocs_compliance_svc.Scorer.Corpus.{paraphrase_corpus}
use aocs_compliance_svc.Scorer.Encodings.{rot13_decode, hex_decode_payload, extract_base64_tokens}
use aocs_compliance_svc.Text.Utf8.{runes_of_bytes}
use aocs_compliance_svc.Scorer.Regex.{Regex, match_string, injection_regex_patterns}
use aocs_compliance_svc.Scorer.Similarity.{Similarity, reaches, semantic_similarity_score}

-- The strings of injectionReasons, by their prefix. The two similarities stand for their "%.2f".
pub data Reason : Type 0 where
  pattern : String → Reason
  spaced_letter : Text → Reason
  base64_encoded rot13_encoded hex_encoded space_evaded : String → Reason
  semantic_paraphrase semantic_similarity : Similarity → Reason

pub data RiskLevel : Type 0 where
  low medium high : RiskLevel

-- The text of the explanation: the reasons that are joined, the markers that are joined, and
-- whether hedges are mentioned.
pub record Explanation : Type 0 where
  pub injections : List Reason
  pub impossibilities : List String
  pub hedged : Bool

-- EntHallucinationResponse; confidence and entropy are hundredths.
pub record Response : Type 0 where
  pub hallucination_detected : Bool
  pub confidence : ℕ
  pub risk_level : RiskLevel
  pub entropy : ℕ
  pub explanation : Explanation
  pub is_fallback : Bool

-- The variables `score` and `injectionReasons`.
pub record Tally : Type 0 where
  pub score : ℕ
  pub reasons : List Reason

-- localScorerNormalize.
unfoldable pub is_kept : ℕ → Bool
is_kept r = not (is_control r && not (r == 32) && not (r == 9) && not (r == 10))

unfoldable pub local_scorer_normalize : Unicode → Text → Text
local_scorer_normalize u s = keep is_kept (u.nfkc s)

abbrev pub mentions : Text → String → Bool
mentions t pat = contains t (codes pat)

-- Category 1.
unfoldable pub injection_stage : Text → Tally → Tally
injection_stage lower t =
    let hits = keep (mentions lower) injection_patterns in
    record {
      score = t.score + (if ltb 0 (length hits) then min (length hits * 45) 90 else 0);
      reasons = t.reasons ++ map pattern hits;
    }

-- `s[:20]`, a panic on a shorter string.
unfoldable pub first_20 : Text → Option Text
first_20 s = if ltb (length s) 20 then none else some (take 20 s)

-- The loop of category 1b: the reasons of the expressions that match.
unfoldable pub regex_reasons : Text → List Regex → Option (List Reason)
unfolding first_20
regex_reasons lower [] = some []
regex_reasons lower (rx ∷ rxs) =
    let rest = regex_reasons lower rxs in
    elim (match_string rx lower) [
      | true ↦ elim (first_20 (codes rx.source)) [
        | none ↦ none
        | some s ↦ elim rest [ none ↦ none | some rs ↦ some (spaced_letter s ∷ rs) ]
      ]
      | false ↦ rest
    ]

-- Category 1b.
unfoldable pub regex_stage : Text → Tally → Option Tally
regex_stage lower t = elim (regex_reasons lower injection_regex_patterns) [
  | none ↦ none
  | some rs ↦ some (record {
    score = t.score + (if ltb 0 (length rs) then min (length rs * 45) 90 else 0);
    reasons = t.reasons ++ rs;
  })
]

-- The first pattern of the list that a text holds.
unfoldable pub find_pattern : Text → List String → Option String
find_pattern t [] = none
find_pattern t (pat ∷ pats) = if mentions t pat then some pat else find_pattern t pats

-- A loop over the patterns that stops at the first hit, adding a weight capped at 1.0.
unfoldable pub encoded_hit : Text → ℕ → (String → Reason) → Tally → Tally
encoded_hit decoded weight reason t = elim (find_pattern decoded injection_patterns) [
  | none ↦ t
  | some pat ↦ record {
    score = min (t.score + weight) 100;
    reasons = t.reasons ++ (reason pat ∷ []);
  }
]

module _ (u : Unicode) where
  -- The loop of category 1c.
  unfoldable pub base64_loop : List Text → Tally → Tally
  base64_loop [] t = t
  base64_loop (d ∷ ds) t = base64_loop ds (encoded_hit (to_lower u d) 60 base64_encoded t)

  -- Category 1c.
  unfoldable pub base64_stage : Text → Tally → Tally
  base64_stage lower t = base64_loop (extract_base64_tokens lower) t

  -- Category 1d.
  unfoldable pub rot13_stage : Text → Tally → Tally
  rot13_stage lower t = encoded_hit (to_lower u (rot13_decode lower)) 60 rot13_encoded t

  -- Category 1e.
  unfoldable pub hex_stage : Text → Tally → Tally
  hex_stage lower t =
      let decoded = hex_decode_payload lower in
      if is_empty decoded
      then t
      else encoded_hit (to_lower u (runes_of_bytes decoded)) 65 hex_encoded t

-- The test of category 1f.
unfoldable pub is_space_evaded : Text → String → Bool
is_space_evaded no_spaces pat =
    let stripped = remove_spaces (codes pat) in
    leb 6 (byte_len stripped) && contains no_spaces stripped

-- Category 1f.
unfoldable pub space_stage : Text → Tally → Tally
space_stage lower t =
    let hits = keep (is_space_evaded (remove_spaces lower)) injection_patterns in
    record {
      score = if ltb 0 (length hits) then min (t.score + length hits * 45) 100 else t.score;
      reasons = t.reasons ++ map space_evaded hits;
    }

-- The tests of category 1g, given the similarity.
unfoldable pub semantic_weight : Similarity → Tally → Tally
semantic_weight sim t =
    if reaches sim 60
    then record {
      score = min (t.score + 65) 100;
      reasons = t.reasons ++ (semantic_paraphrase sim ∷ []);
    }
    else if reaches sim 42
    then record {
      score = min (t.score + 40) 100;
      reasons = t.reasons ++ (semantic_similarity sim ∷ []);
    }
    else t

-- How many of the words are distinct.
unfoldable pub count_unique : List Text → ℕ
count_unique [] = 0
count_unique (w ∷ ws) = if any (eq_text w) ws then count_unique ws else suc (count_unique ws)

-- Category 4: more than 500 runes, and less than a tenth of the words distinct.
unfoldable pub repetition : Text → Text → ℕ
repetition llm_output lower =
    let words = fields lower in
    if ltb 500 (length llm_output)
      && (ltb 0 (length words))
      && ltb (count_unique words * 10) (length words)
    then 30
    else 0

unfoldable pub classify : ℕ → RiskLevel × Bool
classify score =
    if leb 65 score then (high, true) else if leb 30 score then (medium, true) else (low, false)

-- Categories 2 to 4, the cap and the response.
unfoldable pub finish : Text → Text → Tally → Response
finish llm_output lower t =
    let markers = keep (mentions lower) impossibility_markers in
    let hedges = length (keep (mentions lower) confabulation_hedges) in
    let score =
      min (t.score + length markers * 25 + hedges * 12 + repetition llm_output lower) 100 in
    let (risk_level, detected) = classify score in
    record {
      hallucination_detected = detected;
      confidence = score;
      risk_level = risk_level;
      entropy = score;
      explanation = record {
        injections = take 3 t.reasons;
        impossibilities = take 2 markers;
        hedged = ltb 0 hedges;
      };
      is_fallback = true;
    }

module _ (u : Unicode) where
  -- Category 1g.
  unfoldable pub semantic_stage : Text → Tally → Tally
  semantic_stage lower t =
      semantic_weight (semantic_similarity_score u lower (map codes paraphrase_corpus)) t

  -- Categories 1c to 1g.
  unfoldable pub evasion_stages : Text → Tally → Tally
  evasion_stages lower t =
      semantic_stage lower
        (space_stage lower (hex_stage u lower (rot13_stage u lower (base64_stage u lower t))))

  -- Category 1, before and after the part that may panic.
  unfoldable pub injection_score : Text → Option Tally
  injection_score lower =
      elim (regex_stage lower (injection_stage lower (record { score = 0; reasons = [] }))) [
        | none ↦ none
        | some t ↦ some (evasion_stages lower t)
      ]

  unfoldable pub local_hallucination_score : Text → Text → Text → Option Response
  local_hallucination_score llm_output context_text agent_id =
      let lower = to_lower u (local_scorer_normalize u llm_output) in
      elim (injection_score lower) [ none ↦ none | some t ↦ some (finish llm_output lower t) ]
