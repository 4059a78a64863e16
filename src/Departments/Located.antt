-- ===== src/Departments/Located.antt =====
-- Where writing the cases of a list leaves them, for the loops of
-- internal/compliance/handlers/compliance/department_overflow.go.
use mathlib.Core.List.{Memᴰ}
use aocs_compliance_svc.Common.{
  ℕ, ◌≡◌, refl, sym, ◌∙◌, ◌⊎◌, inl, inr, Bool, List, [], ◌∷◌, Option, some, leb, is_empty,
  Bool-cases,
}
use aocs_compliance_svc.Text.{Text, eq_text}
use aocs_compliance_svc.Text.Laws.{eq_text_sound}
use aocs_compliance_svc.Cases.Store.{Cell, str}
use aocs_compliance_svc.Departments.Store.{Move, Located}
use aocs_compliance_svc.Departments.Settings.{AuditRow, string_of}
use aocs_compliance_svc.Departments.Overflow.{Progress, attempt, move_row, move_rows}
use aocs_compliance_svc.Departments.Deletion.{migrate_rows}

module _ {W F : Type 0} (list : W → Text → Option (List (Cell F)))
    (write : W → Text → Move → W × Bool) (obs : Located W F list write) where
  open obs use {located, write-here, write-others, write-failed}

  -- Between two worlds, each case has stayed, or has left one department for the other.
  abbrev pub Shifted : Text → Text → W → W → Type 0
  Shifted slug target w w' =
      (id : Text)
      → (located w' id ≡ located w id)
        ⊎ ((located w id ≡ some slug) × (located w' id ≡ some target))

  -- The cases of a list of rows are in a department.
  abbrev pub AreIn : Text → W → List (Cell F) → Type 0
  AreIn slug w rows = (id : Text) → Memᴰ (str id) rows → located w id ≡ some slug

  module _ (m : Move) (slug : Text) (w : W) where
    write_rerouted :
        (id : Text) (w' : W)
        → located w id ≡ some slug
        → Shifted slug m.department_id w w'
        → Shifted slug m.department_id w (write w' id m).0
    write_rerouted id w' here before j = elim (Bool-cases (write w' id m).1) [
      | inr lost ↦ rw (write-failed w' id m lost) (before j)
      | inl went ↦ elim (Bool-cases (eq_text id j)) [
        | inr apart ↦ rw (write-others w' id m j apart) (before j)
        | inl same ↦
            let e = eq_text_sound id j same in
            let there : (d : Text)
                → located w' id ≡ some d
                → (located (write w' id m).0 j ≡ located w j)
                  ⊎ ((located w j ≡ some slug)
                      × (located (write w' id m).0 j ≡ some m.department_id)) =
              λ d at. rw (sym e) (inr (here, write-here w' id m d at went)) in
            elim (before id) [
              | inl stayed ↦ there slug (stayed ∙ here)
              | inr (was, moved) ↦ there m.department_id moved
            ]
      ]
    ]

    attempt_rerouted :
        (cell : Cell F) (w' : W)
        → ((id : Text) → cell ≡ str id → located w id ≡ some slug)
        → Shifted slug m.department_id w w'
        → Shifted slug m.department_id w (attempt write m cell w').0
    unfolding attempt string_of
    attempt_rerouted (str id) w' here before = elim (Bool-cases (is_empty id)) [
      | inl none_given ↦ rw none_given before
      | inr given ↦ rw given (write_rerouted id w' (here id refl) before)
    ]
    attempt_rerouted (Cell.null) w' here before = before
    attempt_rerouted (Cell.other) w' here before = before
    attempt_rerouted (Cell.time n) w' here before = before
    attempt_rerouted (Cell.float x) w' here before = before

    pub migrate_rows_rerouted :
        (rows : List (Cell F)) (w' : W) (n : ℕ)
        → AreIn slug w rows
        → Shifted slug m.department_id w w'
        → Shifted slug m.department_id w (migrate_rows write m rows (w', n)).0
    unfolding migrate_rows
    migrate_rows_rerouted [] w' n here before = before
    migrate_rows_rerouted (cell ∷ rows) w' n here before =
        migrate_rows_rerouted rows _ _ (λ id at. here id (Memᴰ.tail at))
          (attempt_rerouted cell w' (λ id e. here id (Memᴰ.head (sym e))) before)

    module _ (audit : Text → AuditRow) where
      move_row-world :
          (cell : Cell F) (p : Progress W)
          → (move_row write m audit cell p).world ≡ (attempt write m cell p.world).0
      unfolding move_row
      move_row-world cell p = elim (Bool-cases (attempt write m cell p.world).1) [
        | inl went ↦ rw went refl
        | inr lost ↦ rw lost refl
      ]

      pub move_rows_rerouted :
          (limit : ℕ) (rows : List (Cell F)) (p : Progress W)
          → AreIn slug w rows
          → Shifted slug m.department_id w p.world
          → Shifted slug m.department_id w (move_rows write m audit limit rows p).world
      unfolding move_rows
      move_rows_rerouted limit [] p here before = before
      move_rows_rerouted limit (cell ∷ rows) p here before = elim (Bool-cases (leb limit p.moved)) [
        | inl full ↦ rw full before
        | inr room ↦ rw room (
            move_rows_rerouted limit rows (move_row write m audit cell p)
              (λ id at. here id (Memᴰ.tail at))
              (rw (move_row-world cell p)
                (attempt_rerouted cell p.world (λ id e. here id (Memᴰ.head (sym e))) before)))
      ]
