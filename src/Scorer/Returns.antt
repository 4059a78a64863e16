-- ===== src/Scorer/Returns.antt =====
-- When localHallucinationScore returns, and when it panics on `rx.String()[:20]`.
use aocs_compliance_svc.Common.{
  ◌≡◌, ◌↔◌, Bool, true, ◌&&◌, List, [], ◌∷◌, none, arith, ltb, length, any,
}
use aocs_compliance_svc.Text.{Text, codes, Unicode, to_lower}
use aocs_compliance_svc.Scorer.Regex.{Regex, match_string, pipe_system, injection_regex_patterns}
use aocs_compliance_svc.Scorer.Score.{
  Tally, local_scorer_normalize, injection_stage, regex_reasons, regex_stage, injection_score,
  local_hallucination_score,
}

-- The text that the scorer looks at.
abbrev pub scored : Unicode → Text → Text
scored u llm_output = to_lower u (local_scorer_normalize u llm_output)

-- The source of the expression has less than 20 bytes.
abbrev is_short : Regex → Bool
is_short rx = ltb (length (codes rx.source)) 20

abbrev cuts_short : Text → Regex → Bool
cuts_short lower rx = is_short rx && match_string rx lower

regex_reasons-eq-none_iff :
    (lower : Text) (rxs : List Regex)
    → (regex_reasons lower rxs ≡ none) ↔ (any (cuts_short lower) rxs ≡ true)
unfolding regex_reasons
regex_reasons-eq-none_iff lower [] = ground arith
regex_reasons-eq-none_iff lower (rx ∷ rxs) = ground (arith, regex_reasons-eq-none_iff lower rxs)

only_pipe_system :
    (lower : Text)
    → (any (cuts_short lower) injection_regex_patterns ≡ true)
      ↔ (match_string pipe_system lower ≡ true)
only_pipe_system lower = ground arith

pub regex_stage-eq-none_iff :
    (lower : Text) (t : Tally)
    → (regex_stage lower t ≡ none) ↔ (match_string pipe_system lower ≡ true)
unfolding regex_stage
regex_stage-eq-none_iff lower t =
    let (to, from) = regex_reasons-eq-none_iff lower injection_regex_patterns in
    let (only, some_short) = only_pipe_system lower in ground arith

-- The scorer panics exactly on a text that matches `\|\s*system\s*\|` once it is normalised and in
-- lower case; on every other text it returns.
pub local_hallucination_score-eq-none_iff :
    (u : Unicode) (llm_output context_text agent_id : Text)
    → (local_hallucination_score u llm_output context_text agent_id ≡ none)
      ↔ (match_string pipe_system (scored u llm_output) ≡ true)
unfolding local_hallucination_score injection_score
local_hallucination_score-eq-none_iff u llm_output context_text agent_id =
    let lower = scored u llm_output in
    ground (
      arith,
      regex_stage-eq-none_iff lower (injection_stage lower (record { score = 0; reasons = [] })),
    )
