-- ===== src/Scorer/Paraphrases.antt =====
-- Every entry of paraphraseCorpus, in any case, is scored HIGH.
use Prim.Native.String.{String}
use mathlib.Core.List.{Memᴰ}
use mathlib.Core.List.Memᴰ
use aocs_compliance_svc.Common.{
  ℕ, ◌≡◌, refl, true, not, [], ◌∷◌, map, ltb, all, is_empty, arith, ◌<◌, keep, ap, and-eq-true,
  ltb→lt, all_of_mem, ◌∙◌, not-eq-true,
}
use aocs_compliance_svc.Text.{
  Text, codes, Unicode, to_lower, lower_rune, fields, fields_func, pieces, cons_head, is_space,
  eq_text, byte_len,
}
use aocs_compliance_svc.Scorer.Corpus.{paraphrase_corpus}
use aocs_compliance_svc.Scorer.Similarity.{build_ngram_vector, add_tokens, add_unigram, add_term}
use aocs_compliance_svc.Scorer.Similarity.Laws.{semantic_similarity_score_self}
use aocs_compliance_svc.Scorer.Regex.{
  match_string, match_from, match_items, one_then, many_then, pipe_system,
}
use aocs_compliance_svc.Scorer.Returns.{scored}
use aocs_compliance_svc.Scorer.Detects.{Scores, semantic_stage-Scores}

has_words :
    (u : Unicode)
    → all (λ e. not (is_empty (build_ngram_vector u (codes e)))) paraphrase_corpus ≡ true
unfolding paraphrase_corpus build_ngram_vector add_tokens add_unigram add_term fields fields_func
    pieces cons_head keep is_space eq_text byte_len to_lower lower_rune
has_words u = refl

all_ascii : all (λ e. all (λ c. ltb c 128) (codes e)) paraphrase_corpus ≡ true
unfolding paraphrase_corpus
all_ascii = refl

no_pipes :
    (u : Unicode)
    → all (λ e. not (match_string pipe_system (to_lower u (codes e)))) paraphrase_corpus ≡ true
unfolding paraphrase_corpus to_lower lower_rune match_string match_from match_items one_then
    many_then
no_pipes u = refl

lower_rune_twice : (u : Unicode) (c : ℕ) → c < 128 → lower_rune u (lower_rune u c) ≡ lower_rune u c
unfolding lower_rune
lower_rune_twice u c h = ground arith

to_lower_twice :
    (u : Unicode) (t : Text)
    → all (λ c. ltb c 128) t ≡ true
    → to_lower u (to_lower u t) ≡ to_lower u t
unfolding to_lower
to_lower_twice u [] h = refl
to_lower_twice u (c ∷ t) h =
    let (here, rest) = and-eq-true (ltb c 128) (all (λ x. ltb x 128) t) h in
    cc (lower_rune_twice u c (ltb→lt _ _ here), to_lower_twice u t rest)

lower_vector :
    (u : Unicode) (t : Text)
    → all (λ c. ltb c 128) t ≡ true
    → build_ngram_vector u (to_lower u t) ≡ build_ngram_vector u t
unfolding build_ngram_vector
lower_vector u t h = rw (to_lower_twice u t h)

-- A text that, normalised and in lower case, is an entry of the corpus in lower case scores at
-- least 0.65, which is HIGH.
pub paraphrase-Scores :
    (u : Unicode) (llm_output context_text agent_id : Text) (entry : String)
    → Memᴰ entry paraphrase_corpus
    → scored u llm_output ≡ to_lower u (codes entry)
    → Scores u llm_output context_text agent_id 65
paraphrase-Scores u llm_output context_text agent_id entry m same =
    let ascii = all_of_mem (λ e. all (λ c. ltb c 128) (codes e)) paraphrase_corpus all_ascii m in
    let words =
      all_of_mem (λ e. not (is_empty (build_ngram_vector u (codes e)))) paraphrase_corpus
        (has_words u) m in
    let no_pipe =
      all_of_mem (λ e. not (match_string pipe_system (to_lower u (codes e)))) paraphrase_corpus
        (no_pipes u) m in
    semantic_stage-Scores u llm_output context_text agent_id (rw same (not-eq-true no_pipe)) (
      semantic_similarity_score_self u (scored u llm_output) (codes entry)
        (map codes paraphrase_corpus) 60 (Memᴰ.map codes m)
        (ap (build_ngram_vector u) same ∙ lower_vector u (codes entry) ascii) (not-eq-true words)
        (omega arith))
