-- ===== src/Text/Maps.antt =====
-- Go maps with text keys, as association lists.
use aocs_compliance_svc.Common.{
  false, ◌≡◌, refl, List, [], ◌∷◌, Option, none, some, arith, if◌then◌else◌,
}
use aocs_compliance_svc.Text.{Text, eq_text}
use aocs_compliance_svc.Text.Laws.{eq_text_refl, eq_text_sound}

abbrev pub Map {ℓ} : Type ℓ → Type ℓ
Map V = List (Text × V)

module _ {ℓ} {V : Type ℓ} where
  -- m[k], with `none` for a missing key.
  unfoldable pub lookup : Text → Map V → Option V
  lookup k [] = none
  lookup k ((j, v) ∷ m) = if eq_text j k then some v else lookup k m

  -- m[k] = v.
  unfoldable pub insert : Text → V → Map V → Map V
  insert k v [] = (k, v) ∷ []
  insert k v ((j, w) ∷ m) =
      let rest = insert k v m in if eq_text j k then (k, v) ∷ m else (j, w) ∷ rest

  -- delete(m, k).
  unfoldable pub delete : Text → Map V → Map V
  delete k [] = []
  delete k ((j, v) ∷ m) = let rest = delete k m in if eq_text j k then rest else (j, v) ∷ rest

  pub lookup-insert_self : (k : Text) (v : V) (m : Map V) → lookup k (insert k v m) ≡ some v
  unfolding lookup insert
  lookup-insert_self k v [] = ground (arith, eq_text_refl k)
  lookup-insert_self k v ((j, w) ∷ m) = ground (arith, eq_text_refl k, lookup-insert_self k v m)

  pub lookup-insert_ne :
      (k j : Text) (v : V) (m : Map V) → eq_text k j ≡ false → lookup j (insert k v m) ≡ lookup j m
  unfolding lookup insert
  lookup-insert_ne k j v [] h = ground arith
  lookup-insert_ne k j v ((i, w) ∷ m) h =
      ground (arith, eq_text_sound i k, lookup-insert_ne k j v m)

  pub lookup-delete_self : (k : Text) (m : Map V) → lookup k (delete k m) ≡ none
  unfolding lookup delete
  lookup-delete_self k [] = refl
  lookup-delete_self k ((j, v) ∷ m) = ground (arith, lookup-delete_self k m)

  pub lookup-delete_ne :
      (k j : Text) (m : Map V) → eq_text k j ≡ false → lookup j (delete k m) ≡ lookup j m
  unfolding lookup delete
  lookup-delete_ne k j [] h = refl
  lookup-delete_ne k j ((i, w) ∷ m) h = ground (arith, eq_text_sound i k, lookup-delete_ne k j m)
