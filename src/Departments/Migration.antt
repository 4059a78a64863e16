-- ===== src/Departments/Migration.antt =====
-- What the answers of HandleGuardDeptDeletion of
-- internal/compliance/handlers/compliance/department_overflow.go are worth.
use mathlib.Core.List.{Memᴰ}
use aocs_compliance_svc.Common.{
  ℕ, suc, ◌+◌, ◌≤◌, ◌≡◌, sym, ap, ◌∙◌, ◌⊎◌, inl, inr, Bool, true, List, [], ◌∷◌, Option, some,
  length, is_empty, Bool-cases, arith,
}
use aocs_compliance_svc.Text.{Text, eq_text}
use aocs_compliance_svc.Text.Laws.{eq_text_sound}
use aocs_compliance_svc.Cases.Store.{Cell, str}
use aocs_compliance_svc.Departments.Store.{Move, Located}
use aocs_compliance_svc.Departments.Settings.{string_of}
use aocs_compliance_svc.Departments.Overflow.{attempt}
use aocs_compliance_svc.Departments.Deletion.{migrate_rows}

module _ {W F : Type 0} (list : W → Text → Option (List (Cell F)))
    (write : W → Text → Move → W × Bool) (obs : Located W F list write) (m : Move) where
  open obs use {located, write-here, write-others, write-failed}

  attempt_located :
      (cell : Cell F) (w : W) (j d : Text)
      → located w j ≡ some d
      → let w' = (attempt write m cell w).0 in
        (located w' j ≡ some d) ⊎ (located w' j ≡ some m.department_id)
  unfolding attempt
  attempt_located cell w j d h =
      let id = string_of cell in
      elim (Bool-cases (is_empty id)) [
        | inl none_given ↦ rw none_given (inl h)
        | inr given ↦ elim (Bool-cases (write w id m).1) [
          | inr lost ↦ rw (given, write-failed w id m lost) (inl h)
          | inl went ↦ elim (Bool-cases (eq_text id j)) [
            | inr apart ↦ rw (given, write-others w id m j apart) (inl h)
            | inl same ↦
                let e = eq_text_sound id j same in
                rw (given, sym e) (inr (write-here w id m d (ap (λ i. located w i) e ∙ h) went))
          ]
        ]
      ]

  migrate_rows_stays :
      (rows : List (Cell F)) (w : W) (n : ℕ) (j : Text)
      → located w j ≡ some m.department_id
      → located (migrate_rows write m rows (w, n)).0 j ≡ some m.department_id
  unfolding migrate_rows
  migrate_rows_stays [] w n j h = h
  migrate_rows_stays (cell ∷ rows) w n j h =
      migrate_rows_stays rows _ _ j (elim (attempt_located cell w j m.department_id h) [
        | inl stayed ↦ stayed
        | inr moved ↦ moved
      ])

  migrate_rows_le :
      (rows : List (Cell F)) (w : W) (n : ℕ)
      → (migrate_rows write m rows (w, n)).1 ≤ n + length rows
  unfolding migrate_rows
  migrate_rows_le [] w n = omega arith
  migrate_rows_le (cell ∷ rows) w n =
      let (w', went) = attempt write m cell w in
      ground (arith, migrate_rows_le rows w' (suc n), migrate_rows_le rows w' n)

  -- A case that has a department and whose row was written is in the target.
  attempt_moves :
      (id : Text) (w : W) (d : Text)
      → located w id ≡ some d
      → (attempt {F = F} write m (str id) w).1 ≡ true
      → located (attempt {F = F} write m (str id) w).0 id ≡ some m.department_id
  unfolding attempt string_of
  attempt_moves id w d here went = elim (Bool-cases (is_empty id)) [
    | inl none_given ↦ absurd (let h = rw none_given at went in cc)
    | inr given ↦ rw given (write-here w id m d here (rw given at went))
  ]

  -- Where the count has gone up for every row, every row has been written.
  migrate_rows_full :
      (cell : Cell F) (rows : List (Cell F)) (w : W) (n : ℕ)
      → (migrate_rows write m (cell ∷ rows) (w, n)).1 ≡ n + length (cell ∷ rows)
      → ((attempt write m cell w).1 ≡ true)
        × ((migrate_rows write m rows ((attempt write m cell w).0, suc n)).1 ≡ suc n + length rows)
  unfolding migrate_rows
  migrate_rows_full cell rows w n h =
      let (w', went) = attempt write m cell w in
      ground (arith, h, migrate_rows_le rows w' (suc n), migrate_rows_le rows w' n)

  -- Where the count goes up for every row, each case of the rows that has a department is in the
  -- target in the end.
  pub migrate_rows-all :
      (rows : List (Cell F)) (w : W) (n : ℕ)
      → ((id : Text) → Memᴰ (str id) rows → (d : Text) × (located w id ≡ some d))
      → (migrate_rows write m rows (w, n)).1 ≡ n + length rows
      → (id : Text) → Memᴰ (str id) rows
      → located (migrate_rows write m rows (w, n)).0 id ≡ some m.department_id
  unfolding migrate_rows
  migrate_rows-all [] w n here full id at = elim at [ ]
  migrate_rows-all (cell ∷ rows) w n here full id (Memᴰ.head e) =
      let (went, rest) = migrate_rows_full cell rows w n full in
      let (d, at) = here id (Memᴰ.head e) in
      migrate_rows_stays rows _ _ id (rw (sym e) (attempt_moves id w d at (rw e went)))
  migrate_rows-all (cell ∷ rows) w n here full id (Memᴰ.tail at) =
      let (went, rest) = migrate_rows_full cell rows w n full in
      rw (migrate_rows, went)
        (migrate_rows-all rows _ (suc n)
          (λ j in_rows.
            let (d, was) = here j (Memᴰ.tail in_rows) in
            elim (attempt_located cell w j d was) [
              | inl stayed ↦ (d, stayed)
              | inr moved ↦ (m.department_id, moved)
            ])
          rest id at)
