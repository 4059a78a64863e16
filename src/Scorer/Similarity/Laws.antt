-- ===== src/Scorer/Similarity/Laws.antt =====
-- A text is as similar to itself as can be, and the maximum over a corpus keeps what reaches a
-- threshold.
use mathlib.Core.List.{Memᴰ}
use native.Mathlib.Nat.{le_of_mul-le-mul_right, mul-le-mul_right, mul-le-mul, mul-pos}
use aocs_compliance_svc.Common.{
  keep, ℕ, zero, suc, ltb→lt, leb→le, le→leb, ◌*◌, ◌≤◌, ◌<◌, ◌≡◌, refl, true, false, List, [], ◌∷◌,
  ◌++◌, leb, ◌==◌, is_empty, All, arith, Bool-cases, inl, inr, ap,
}
use aocs_compliance_svc.Text.{
  Text, Unicode, eq_text, byte_len, fields, to_lower, fields_func, pieces,
}
use aocs_compliance_svc.Text.Laws.{eq_text_refl}
use aocs_compliance_svc.Scorer.Similarity.{
  Vector, add_term, add_unigram, add_tokens, weight, norm_squared, dot, Similarity, zero_similarity,
  more_similar, reaches, cosine, build_ngram_vector, compare_entry, max_over,
  semantic_similarity_score,
}

-- The key is not in the vector.
abbrev IsNew : Text → Vector → Type 0
IsNew k = All (λ e. eq_text k e.0 ≡ false)

-- Each key stands once, with a positive weight.
abbrev IsProper : Vector → Type 0
IsProper [] = Unit
IsProper ((k, v) ∷ vec) = IsNew k vec × (0 < v) × IsProper vec

add_term-IsNew :
    (k t : Text) (w : ℕ) (vec : Vector)
    → eq_text k t ≡ false
    → IsNew k vec
    → IsNew k (add_term t w vec)
unfolding add_term
add_term-IsNew k t w [] h new = (h, tt)
add_term-IsNew k t w ((j, v) ∷ vec) h (other, new) = ground (arith, add_term-IsNew k t w vec h new)

add_term-IsProper :
    (t : Text) (w : ℕ) (vec : Vector) → 0 < w → IsProper vec → IsProper (add_term t w vec)
unfolding add_term
add_term-IsProper t w [] pos p = (tt, pos, tt)
add_term-IsProper t w ((k, v) ∷ vec) pos (new, v_pos, p) = elim (Bool-cases (eq_text k t)) [
  | inl same ↦ rw same (new, omega arith, p)
  | inr other ↦
      rw other (add_term-IsNew k t w vec other new, v_pos, add_term-IsProper t w vec pos p)
]

add_unigram-IsProper : (t : Text) (vec : Vector) → IsProper vec → IsProper (add_unigram t vec)
unfolding add_unigram
add_unigram-IsProper t vec p = elim (Bool-cases (leb 2 (byte_len t))) [
  | inl long ↦ rw long (add_term-IsProper t 2 vec (omega arith) p)
  | inr short ↦ rw short p
]

add_tokens-IsProper : (ts : List Text) (vec : Vector) → IsProper vec → IsProper (add_tokens ts vec)
unfolding add_tokens
add_tokens-IsProper [] vec p = p
add_tokens-IsProper (t ∷ []) vec p = add_unigram-IsProper t vec p
add_tokens-IsProper (t ∷ t' ∷ ts) vec p =
    add_tokens-IsProper (t' ∷ ts) _
      (add_term-IsProper (t ++ (b'_' ∷ t')) 3 _ (omega arith) (add_unigram-IsProper t vec p))

-- The weights of a vector are those of the other at its keys.
abbrev Agrees : Vector → Vector → Type 0
Agrees vec other = All (λ e. weight e.0 other ≡ e.1) vec

Agrees-cons :
    (vec other : Vector) (k : Text) (v : ℕ)
    → IsNew k vec
    → Agrees vec other
    → Agrees vec ((k, v) ∷ other)
unfolding weight
Agrees-cons [] other k v new agree = tt
Agrees-cons ((j, w) ∷ vec) other k v (fresh, new) (here, agree) =
    (rw fresh here, Agrees-cons vec other k v new agree)

Agrees-refl : (vec : Vector) → IsProper vec → Agrees vec vec
unfolding weight
Agrees-refl [] p = tt
Agrees-refl ((k, v) ∷ vec) (new, pos, p) =
    (rw (eq_text_refl k), Agrees-cons vec vec k v new (Agrees-refl vec p))

dot-eq-norm_squared : (vec other : Vector) → Agrees vec other → dot vec other ≡ norm_squared vec
unfolding dot norm_squared
dot-eq-norm_squared [] other agree = refl
dot-eq-norm_squared ((k, v) ∷ vec) other (here, agree) =
    rw (here, dot-eq-norm_squared vec other agree)

module _ (u : Unicode) where
  build_ngram_vector-IsProper : (t : Text) → IsProper (build_ngram_vector u t)
  unfolding build_ngram_vector
  build_ngram_vector-IsProper t = add_tokens-IsProper (fields (to_lower u t)) [] tt

-- A vector's cosine with itself is 1.
pub cosine_self :
    (u : Unicode) (t : Text)
    → let s = cosine (build_ngram_vector u t) (build_ngram_vector u t) in s.squared ≡ s.scale
unfolding cosine
cosine_self u t =
    let vec = build_ngram_vector u t in
    rw (dot-eq-norm_squared vec vec (Agrees-refl vec (build_ngram_vector-IsProper u t)))

cross_le : (p a b c d : ℕ) → c * b ≤ a * d → p * d ≤ 10000 * c → 0 < d → p * b ≤ 10000 * a
cross_le p a b c d h k pos =
    le_of_mul-le-mul_right {k = d} (omega (arith, mul-le-mul_right b k, h)) pos

scale_pos : (x a d : ℕ) → x < a * d → 0 < d
scale_pos x a zero h = absurd (omega arith)
scale_pos x a (suc d) h = omega arith

-- The greater of two similarities reaches what either reaches.
reaches_of_more_similar :
    (sim best : Similarity) (percent : ℕ)
    → more_similar sim best ≡ true
    → reaches best percent ≡ true
    → reaches sim percent ≡ true
reaches_of_more_similar sim best percent more h =
    let lt = ltb→lt _ _ more in
    le→leb _ _ (
      cross_le (percent * percent) sim.squared sim.scale best.squared best.scale (omega arith)
        (leb→le _ _ h) (scale_pos _ sim.squared best.scale lt))

reaches_of_not_more_similar :
    (sim best : Similarity) (percent : ℕ)
    → 0 < sim.scale
    → more_similar sim best ≡ false
    → reaches sim percent ≡ true
    → reaches best percent ≡ true
reaches_of_not_more_similar sim best percent pos less h =
    let ge : sim.squared * best.scale ≤ best.squared * sim.scale = ground arith in
    le→leb _ _ (
      cross_le (percent * percent) best.squared best.scale sim.squared sim.scale ge (leb→le _ _ h)
        pos)

module _ (u : Unicode) (input : Vector) where
  compare_entry_keeps :
      (entry : Text) (best : Similarity) (percent : ℕ)
      → reaches best percent ≡ true
      → reaches (compare_entry u input entry best) percent ≡ true
  unfolding compare_entry
  compare_entry_keeps entry best percent h =
      let vec = build_ngram_vector u entry in
      let sim = cosine input vec in ground (arith, reaches_of_more_similar sim best percent)

  compare_entry-reaches :
      (entry : Text) (best : Similarity) (percent : ℕ)
      → is_empty (build_ngram_vector u entry) ≡ false
      → 0 < norm_squared (build_ngram_vector u entry)
      → 0 < norm_squared input
      → reaches (cosine input (build_ngram_vector u entry)) percent ≡ true
      → reaches (compare_entry u input entry best) percent ≡ true
  unfolding compare_entry
  compare_entry-reaches entry best percent some_terms pos pos' h =
      let vec = build_ngram_vector u entry in
      let sim = cosine input vec in
      let scale_pos : 0 < sim.scale = unfold cosine in mul-pos pos' pos in
      ground (arith, reaches_of_not_more_similar sim best percent scale_pos)

  pub max_over_keeps :
      (corpus : List Text) (best : Similarity) (percent : ℕ)
      → reaches best percent ≡ true
      → reaches (max_over u input corpus best) percent ≡ true
  unfolding max_over
  max_over_keeps [] best percent h = h
  max_over_keeps (entry ∷ corpus) best percent h =
      max_over_keeps corpus (compare_entry u input entry best) percent
        (compare_entry_keeps entry best percent h)

  max_over_of_mem :
      {entry : Text} (corpus : List Text) (best : Similarity) (percent : ℕ)
      → Memᴰ entry corpus
      → is_empty (build_ngram_vector u entry) ≡ false
      → 0 < norm_squared (build_ngram_vector u entry)
      → 0 < norm_squared input
      → reaches (cosine input (build_ngram_vector u entry)) percent ≡ true
      → reaches (max_over u input corpus best) percent ≡ true
  unfolding max_over
  max_over_of_mem [] best percent m some_terms pos pos' h = elim m [ ]
  max_over_of_mem (e ∷ corpus) best percent (Memᴰ.head same) some_terms pos pos' h =
      max_over_keeps corpus (compare_entry u input e best) percent (
        compare_entry-reaches e best percent (rw same at some_terms) (rw same at pos) pos'
          (rw same at h))
  max_over_of_mem (e ∷ corpus) best percent (Memᴰ.tail m) some_terms pos pos' h =
      max_over_of_mem corpus (compare_entry u input e best) percent m some_terms pos pos' h

-- A nonempty vector has a positive norm.
norm_squared_pos : (vec : Vector) → IsProper vec → is_empty vec ≡ false → 0 < norm_squared vec
unfolding norm_squared
norm_squared_pos [] p h = cc
norm_squared_pos ((k, suc v) ∷ vec) p h = omega arith
norm_squared_pos ((k, zero) ∷ vec) p h = absurd (omega arith)

build_ngram_vector_nil : (u : Unicode) → build_ngram_vector u [] ≡ []
unfolding build_ngram_vector fields fields_func pieces keep to_lower add_tokens
build_ngram_vector_nil u = refl

-- A text without words has no vector.
is_empty_of_vector :
    (u : Unicode) (t : Text) → is_empty (build_ngram_vector u t) ≡ false → is_empty t ≡ false
is_empty_of_vector u [] h = absurd (cc (h, ap is_empty (build_ngram_vector_nil u)))
is_empty_of_vector u (c ∷ t) h = refl

is_empty_of_mem : {A : Type 0} {a : A} {xs : List A} → Memᴰ a xs → is_empty xs ≡ false
is_empty_of_mem (Memᴰ.head e) = refl
is_empty_of_mem (Memᴰ.tail m) = refl

reaches_one :
    (s : Similarity) (percent : ℕ) → s.squared ≡ s.scale → percent ≤ 100 → reaches s percent ≡ true
reaches_one s percent same le =
    le→leb _ _
      (omega (arith, mul-le-mul_right s.scale (mul-le-mul le le), ap (λ (n : ℕ). 10000 * n) same))

-- A text that has the vector of an entry of the corpus, which is not empty, reaches every
-- threshold up to 1.
pub semantic_similarity_score_self :
    (u : Unicode) (input entry : Text) (corpus : List Text) (percent : ℕ)
    → Memᴰ entry corpus
    → build_ngram_vector u input ≡ build_ngram_vector u entry
    → is_empty (build_ngram_vector u entry) ≡ false
    → percent ≤ 100
    → reaches (semantic_similarity_score u input corpus) percent ≡ true
unfolding semantic_similarity_score
semantic_similarity_score_self u input entry corpus percent m same some_terms le =
    let vec = build_ngram_vector u entry in
    let pos = norm_squared_pos vec (build_ngram_vector-IsProper u entry) some_terms in
    let found =
      max_over_of_mem u vec corpus zero_similarity percent m some_terms pos pos
        (reaches_one (cosine vec vec) percent (cosine_self u entry) le) in
    let some_input = is_empty_of_vector u input (rw same some_terms) in
    let positive : (norm_squared vec == 0) ≡ false = ground arith in
    rw (same, semantic_similarity_score)
      (rw (some_input, is_empty_of_mem m, some_terms, positive) found)
