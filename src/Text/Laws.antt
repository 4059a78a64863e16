-- ===== src/Text/Laws.antt =====
-- Laws of comparing texts and of splitting a text into fields.
use aocs_compliance_svc.Common.{
  ℕ, ◌≡◌, refl, Bool, true, false, not, List, [], ◌∷◌, ◌++◌, keep, is_empty, All, arith, ◌≢◌,
  Bool-cases, inl, inr,
}
use aocs_compliance_svc.Text.{Text, eq_text, cons_head, pieces, fields_func}

pub eq_text_refl : (t : Text) → eq_text t t ≡ true
unfolding eq_text
eq_text_refl [] = refl
eq_text_refl (c ∷ t) = ground (arith, eq_text_refl t)

pub eq_text_sound : (s t : Text) → eq_text s t ≡ true → s ≡ t
unfolding eq_text
eq_text_sound [] [] h = refl
eq_text_sound (a ∷ s) (b ∷ t) h = ground (arith, eq_text_sound s t)
eq_text_sound [] (b ∷ t) h = cc
eq_text_sound (a ∷ s) [] h = cc

pub eq_text_comm : (s t : Text) → eq_text s t ≡ false → eq_text t s ≡ false
eq_text_comm s t h = elim (Bool-cases (eq_text t s)) [
  | inl same ↦ absurd (cc (h, eq_text_refl s, eq_text_sound t s same))
  | inr other ↦ other
]

keep-append :
    {A : Type 0} (p : A → Bool) (xs ys : List A) → keep p (xs ++ ys) ≡ keep p xs ++ keep p ys
unfolding keep
keep-append p [] ys = refl
keep-append p (x ∷ xs) ys = ground (arith, keep-append p xs ys)

pieces-cons : (sep : ℕ → Bool) (t : Text) → (w : Text) × (ws : List Text) × (pieces sep t ≡ w ∷ ws)
unfolding pieces cons_head
pieces-cons sep [] = ([], [], refl)
pieces-cons sep (c ∷ t) =
    let (w, ws, e) = pieces-cons sep t in
    elim (Bool-cases (sep c)) [
      | inl here ↦ ([], w ∷ ws, rw (here, e))
      | inr other ↦ (c ∷ w, ws, rw (other, e))
    ]

pieces-append :
    (sep : ℕ → Bool) (a : Text) (s : ℕ) (b : Text)
    → sep s ≡ true
    → pieces sep (a ++ s ∷ b) ≡ pieces sep a ++ pieces sep b
unfolding pieces cons_head
pieces-append sep [] s b h = rw h
pieces-append sep (c ∷ a) s b h =
    let (w, ws, e) = pieces-cons sep a in rw (pieces-append sep a s b h, e) (ground arith)

-- A separator ends the fields before it.
pub fields_func-append :
    (sep : ℕ → Bool) (a : Text) (s : ℕ) (b : Text)
    → sep s ≡ true
    → fields_func sep (a ++ s ∷ b) ≡ fields_func sep a ++ fields_func sep b
unfolding fields_func
fields_func-append sep a s b h =
    rw (pieces-append sep a s b h)
      (keep-append (λ w. not (is_empty w)) (pieces sep a) (pieces sep b))

pieces_word : (sep : ℕ → Bool) (w : Text) → All (λ c. sep c ≡ false) w → pieces sep w ≡ w ∷ []
unfolding pieces cons_head
pieces_word sep [] h = refl
pieces_word sep (c ∷ w) (other, h) = rw (other, pieces_word sep w h)

-- A word with no separator in it is its only field.
pub fields_func_word :
    (sep : ℕ → Bool) (w : Text) → All (λ c. sep c ≡ false) w → w ≢ [] → fields_func sep w ≡ w ∷ []
unfolding fields_func keep
fields_func_word sep [] h some_runes = absurd (some_runes refl)
fields_func_word sep (c ∷ w) h some_runes = rw (pieces_word sep (c ∷ w) h)
