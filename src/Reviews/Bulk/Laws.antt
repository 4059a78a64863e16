-- ===== src/Reviews/Bulk/Laws.antt =====
-- What HandleResolveBulkHITL reports, and what it does to the cases.
use mathlib.Core.List.{Memᴰ}
use aocs_compliance_svc.Common.{
  ◌≡◌, ◌≢◌, refl, ap, sym, ◌∙◌, ◌⊎◌, inl, inr, Bool, true, false, List, [], ◌∷◌, Option, some, map,
  Bool-cases,
}
use aocs_compliance_svc.Text.{Text, eq_text}
use aocs_compliance_svc.Text.Laws.{eq_text_refl, eq_text_sound}
use aocs_compliance_svc.Reviews.Store.{Case, Change, apply_change, VerdictEvent}
use aocs_compliance_svc.Reviews.Bulk.{BulkResult, resolve_each}

-- A service through which nobody else writes: a write that fails changes nothing, one that goes
-- through changes its case alone, and an event changes no case.
pub record Kept (W F : Type 0) (write : W → Text → Change F → W × Bool)
    (post : W → VerdictEvent → W × Bool) : Type 0 where
  pub find : W → Text → Option (Case F)
  pub write-here :
      (w : W) (id : Text) (c : Change F) (row : Case F)
      → find w id ≡ some row
      → (write w id c).1 ≡ true
      → find (write w id c).0 id ≡ some (apply_change c row)
  pub write-others :
      (w : W) (id : Text) (c : Change F) (j : Text)
      → eq_text id j ≡ false
      → find (write w id c).0 j ≡ find w j
  pub write-failed :
      (w : W) (id : Text) (c : Change F) → (write w id c).1 ≡ false → (write w id c).0 ≡ w
  pub post-found : (w : W) (e : VerdictEvent) (id : Text) → find (post w e).0 id ≡ find w id

module _ {W F : Type 0} (write : W → Text → Change F → W × Bool)
    (post : W → VerdictEvent → W × Bool) (c : Change F) (event : Text → VerdictEvent) where
  -- A case that is reported as written has been changed, and any other is as it was.
  abbrev pub Decided : (W → Text → Option (Case F)) → W → Text → W × List BulkResult → Type 0
  Decided find w j res =
      let (w', results) = res in
      (Memᴰ (record { decision_id = j; ok = true }) results
        × ((row : Case F) → find w j ≡ some row → find w' j ≡ some (apply_change c row)))
      ⊎ (¬ Memᴰ (record { decision_id = j; ok = true }) results × (find w' j ≡ find w j))

  pub resolve_each-ids :
      (ids : List Text) (w : W)
      → map (λ r. r.decision_id) (resolve_each write post c event ids w).1 ≡ ids
  unfolding resolve_each
  resolve_each-ids [] w = refl
  resolve_each-ids (id ∷ ids) w = ap (λ t. id ∷ t) (resolve_each-ids ids _)

  module _ (kept : Kept W F write post)
      (again : (row : Case F) → apply_change c (apply_change c row) ≡ apply_change c row) where
    open kept use {find, write-here, write-others, write-failed, post-found}

    abbrev result : Text → Bool → BulkResult
    result id ok = record { decision_id = id; ok = ok }

    -- Another first result, of another case or of a failure, does not matter.
    Decided-later :
        (id : Text) (ok : Bool) (w w2 w' : W) (results : List BulkResult) (j : Text)
        → result id ok ≢ result j true
        → find w2 j ≡ find w j
        → Decided find w2 j (w', results)
        → Decided find w j (w', result id ok ∷ results)
    Decided-later id ok w w2 w' results j other same (inl (at, changed)) =
        inl (Memᴰ.tail at, λ row h. changed row (same ∙ h))
    Decided-later id ok w w2 w' results j other same (inr (never, kept_so)) =
        inr
          (λ at. elim at [ Memᴰ.head e ↦ other (sym e) | Memᴰ.tail at ↦ never at ], kept_so ∙ same)

    Decided-here :
        (w w2 w' : W) (results : List BulkResult) (j : Text)
        → ((row : Case F) → find w j ≡ some row → find w2 j ≡ some (apply_change c row))
        → Decided find w2 j (w', results)
        → Decided find w j (w', result j true ∷ results)
    Decided-here w w2 w' results j wrote (inl (at, changed)) = inl (
      Memᴰ.head refl,
      λ row h. changed (apply_change c row) (wrote row h) ∙ ap (λ r. some r) (again row),
    )
    Decided-here w w2 w' results j wrote (inr (never, kept_so)) =
        inl (Memᴰ.head refl, λ row h. kept_so ∙ wrote row h)

    pub resolve_each-Decided :
        (ids : List Text) (w : W) (j : Text)
        → Decided find w j (resolve_each write post c event ids w)
    unfolding resolve_each
    resolve_each-Decided [] w j = inr (λ at. elim at [ ], refl)
    resolve_each-Decided (id ∷ ids) w j = elim (Bool-cases (write w id c).1) [
      | inr lost ↦
          rw (lost, write-failed w id c lost)
            (Decided-later id false w w _ _ j (λ e. absurd (cc (ap (λ r. r.ok) e))) refl
              (resolve_each-Decided ids w j))
      | inl went ↦
          let w1 = (write w id c).0 in
          let w2 = (post w1 (event id)).0 in
          elim (Bool-cases (eq_text id j)) [
            | inl same ↦
                let e : id ≡ j = eq_text_sound id j same in
                rw (went, e)
                  (Decided-here w _ _ _ j
                    (λ row h. post-found _ (event j) j ∙ write-here w j c row h (rw e at went))
                    (rw e at (resolve_each-Decided ids w2 j)))
            | inr apart ↦ rw went (
                Decided-later id true w w2 _ _ j
                  (λ e. absurd (cc (apart, eq_text_refl j, ap (λ r. r.decision_id) e)))
                  (post-found w1 (event id) j ∙ write-others w id c j apart)
                  (resolve_each-Decided ids w2 j))
          ]
    ]
