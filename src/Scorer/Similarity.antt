-- ===== src/Scorer/Similarity.antt =====
-- semanticSimilarityScore, buildNgramVector and vecNorm of ent_local_scorer.go.
--
-- The source's weights 1.0 and 1.5 are 2 and 3 here: a cosine does not change when both vectors are
-- scaled. A cosine is kept as its square, a fraction, so that no square root is taken; fractions
-- are compared by cross multiplication.
pub mod Laws
use aocs_compliance_svc.Common.{
  ℕ, ◌+◌, ◌*◌, Bool, ◌||◌, List, [], ◌∷◌, ◌++◌, ltb, leb, ◌==◌, is_empty, if◌then◌else◌,
}
use aocs_compliance_svc.Text.{Text, Unicode, eq_text, byte_len, fields, to_lower}

-- A sparse vector: map[string]float64, each key once.
abbrev pub Vector : Type 0
Vector = List (Text × ℕ)

-- vec[t] += w.
unfoldable pub add_term : Text → ℕ → Vector → Vector
add_term t w [] = (t, w) ∷ []
add_term t w ((k, v) ∷ vec) =
    let rest = add_term t w vec in if eq_text k t then (k, v + w) ∷ vec else (k, v) ∷ rest

unfoldable pub weight : Text → Vector → ℕ
weight t [] = 0
weight t ((k, v) ∷ vec) = if eq_text k t then v else weight t vec

-- A token of one byte is no unigram.
unfoldable pub add_unigram : Text → Vector → Vector
add_unigram t vec = if leb 2 (byte_len t) then add_term t 2 vec else vec

-- The loop over the tokens.
unfoldable pub add_tokens : List Text → Vector → Vector
add_tokens [] vec = vec
add_tokens (t ∷ []) vec = add_unigram t vec
add_tokens (t ∷ t' ∷ ts) vec =
    add_tokens (t' ∷ ts) (add_term (t ++ (b'_' ∷ t')) 3 (add_unigram t vec))

-- The square of vecNorm.
unfoldable pub norm_squared : Vector → ℕ
norm_squared [] = 0
norm_squared ((k, v) ∷ vec) = v * v + norm_squared vec

unfoldable pub dot : Vector → Vector → ℕ
dot [] other = 0
dot ((k, v) ∷ vec) other = v * weight k other + dot vec other

-- A similarity s, by the fraction s * s.
pub record Similarity : Type 0 where
  pub squared : ℕ
  pub scale : ℕ

abbrev pub zero_similarity : Similarity
zero_similarity = record { squared = 0; scale = 1 }

-- `a > b`.
abbrev pub more_similar : Similarity → Similarity → Bool
more_similar a b = ltb (b.squared * a.scale) (a.squared * b.scale)

-- `s >= percent / 100`.
abbrev pub reaches : Similarity → ℕ → Bool
reaches s percent = leb (percent * percent * s.scale) (10000 * s.squared)

unfoldable pub cosine : Vector → Vector → Similarity
cosine a b = let d = dot a b in record { squared = d * d; scale = norm_squared a * norm_squared b }

module _ (u : Unicode) where
  unfoldable pub build_ngram_vector : Text → Vector
  build_ngram_vector text = add_tokens (fields (to_lower u text)) []

  -- The body of the loop over the corpus.
  unfoldable pub compare_entry : Vector → Text → Similarity → Similarity
  compare_entry input_vec entry max_sim =
      let corpus_vec = build_ngram_vector entry in
      if is_empty corpus_vec || norm_squared corpus_vec == 0
      then max_sim
      else (let sim = cosine input_vec corpus_vec in
          if more_similar sim max_sim then sim else max_sim)

  unfoldable pub max_over : Vector → List Text → Similarity → Similarity
  max_over input_vec [] max_sim = max_sim
  max_over input_vec (entry ∷ entries) max_sim =
      max_over input_vec entries (compare_entry input_vec entry max_sim)

  unfoldable pub semantic_similarity_score : Text → List Text → Similarity
  semantic_similarity_score input corpus =
      let input_vec = build_ngram_vector input in
      if is_empty input || is_empty corpus || is_empty input_vec || norm_squared input_vec == 0
      then zero_similarity
      else max_over input_vec corpus zero_similarity
