-- ===== src/Disputes/Laws.antt =====
-- The states of a dispute.
use aocs_compliance_svc.Common.{
  ◌≡◌, ◌≢◌, refl, ap, ◌∙◌, ◌⊎◌, inl, inr, true, false, List, [], ◌∷◌, Option, none, some, is_empty,
  Bool-cases, Option-cases,
}
use aocs_compliance_svc.Text.{Text, eq_text}
use aocs_compliance_svc.Text.Laws.{eq_text_sound}
use aocs_compliance_svc.Cases.Store.{Cell}
use aocs_compliance_svc.Departments.Settings.{string_of}
use aocs_compliance_svc.Disputes.{
  DisputeRow, DisputeUpdate, Database, ResolveBody, ResolveReply, resolved, status_open,
  status_withdrawn, is_resolution, resolve_open, resolve_dispute, delete_dispute,
}

-- A database through which nobody else writes: a read gives the status that is there, a write that
-- fails changes nothing, and one that goes through changes its dispute alone.
pub record Observed (W F R : Type 0) (db : Database W F R) : Type 0 where
  pub status_of : W → Text → Text → Option Text
  pub query-found :
      (w : W) (id tenant : Text) (cell : Cell F) (rows : List (Cell F))
      → db.query_status w id tenant ≡ some (cell ∷ rows)
      → status_of w id tenant ≡ some (string_of cell)
  pub update-found :
      (w : W) (id tenant : Text) (u : DisputeUpdate) (status : Text)
      → status_of w id tenant ≡ some status
      → (db.update_dispute w id tenant u).1 ≡ true
      → status_of (db.update_dispute w id tenant u).0 id tenant ≡ some u.status
  pub update-others :
      (w : W) (id tenant : Text) (u : DisputeUpdate) (j : Text)
      → eq_text id j ≡ false
      → status_of (db.update_dispute w id tenant u).0 j tenant ≡ status_of w j tenant
  pub update-failed :
      (w : W) (id tenant : Text) (u : DisputeUpdate)
      → (db.update_dispute w id tenant u).1 ≡ false
      → (db.update_dispute w id tenant u).0 ≡ w
  pub insert-others :
      (w : W) (row : DisputeRow) (j tenant : Text)
      → eq_text row.dispute_id j ≡ false
      → status_of (db.insert_dispute w row).0 j tenant ≡ status_of w j tenant

module _ {W F R : Type 0} (db : Database W F R) (obs : Observed W F R db) where
  open obs use {status_of, query-found, update-found, update-others, update-failed, insert-others}

  -- What a resolution does, and what a request that is refused does.
  abbrev Resolved : Text → Text → Text → W → W × ResolveReply → Type 0
  Resolved tenant id now w res =
      let (w', reply) = res in
      (((v t : Text) → reply ≢ resolved v t) × (w' ≡ w))
      ⊎ ((v : Text) × (reply ≡ resolved v now)
          × (is_resolution v ≡ true)
          × (status_of w id tenant ≡ some status_open)
          × (status_of w' id tenant ≡ some v)
          × ((j : Text) → eq_text id j ≡ false → status_of w' j tenant ≡ status_of w j tenant))

  resolve_open-cases :
      (tenant id : Text) (body : ResolveBody) (now : Text) (w : W) (status : Text)
      → is_resolution body.verdict ≡ true
      → status_of w id tenant ≡ some status
      → Resolved tenant id now w (resolve_open db tenant id body now status w)
  unfolding resolve_open
  resolve_open-cases tenant id body now w status good found =
      elim (Bool-cases (eq_text status status_open)) [
        | inr shut ↦ rw (resolve_open, shut) (inl (λ v t h. cc, refl))
        | inl same ↦
            let is_open : status ≡ status_open = eq_text_sound status status_open same in
            let u : DisputeUpdate = record {
              status = body.verdict;
              resolution = some body.resolution;
              resolved_at = now;
            } in
            elim (Bool-cases (db.update_dispute w id tenant u).1) [
              | inr lost ↦
                  rw (resolve_open, same, lost, update-failed w id tenant u lost)
                    (inl (λ v t h. cc, refl))
              | inl went ↦
                  rw (resolve_open, same, went)
                    (inr (
                      body.verdict,
                      refl,
                      good,
                      found ∙ ap (λ s. some s) is_open,
                      update-found w id tenant u status found went,
                      λ j apart. update-others w id tenant u j apart,
                    ))
            ]
      ]

  -- A request that is not answered with a resolution changes nothing. One that is has a verdict of
  -- UPHELD or OVERTURNED, has found the dispute OPEN, leaves it with the verdict, and leaves the
  -- other disputes of the tenant as they were.
  pub resolve_dispute-open :
      (tenant id : Text) (body : Option ResolveBody) (now : Text) (w : W)
      → let (w', reply) = resolve_dispute (some db) (some tenant) id body now w in
        (((v t : Text) → reply ≢ resolved v t) × (w' ≡ w))
        ⊎ ((v : Text) × (reply ≡ resolved v now)
            × (is_resolution v ≡ true)
            × (status_of w id tenant ≡ some status_open)
            × (status_of w' id tenant ≡ some v)
            × ((j : Text) → eq_text id j ≡ false → status_of w' j tenant ≡ status_of w j tenant))
  unfolding resolve_dispute resolve_open
  resolve_dispute-open tenant id body now w = elim (Bool-cases (is_empty id)) [
    | inl lost ↦ rw (resolve_dispute, lost) (inl (λ v t h. cc, refl))
    | inr named ↦ elim (Option-cases body) [
      | inl bad ↦ rw (resolve_dispute, named, bad) (inl (λ v t h. cc, refl))
      | inr (b, read) ↦ elim (Bool-cases (is_resolution b.verdict)) [
        | inr bad ↦ rw (resolve_dispute, named, read, bad) (inl (λ v t h. cc, refl))
        | inl good ↦ elim (Option-cases (db.query_status w id tenant)) [
          | inl lost ↦ rw (resolve_dispute, named, read, good, lost) (inl (λ v t h. cc, refl))
          | inr ([], none_found) ↦
              rw (resolve_dispute, named, read, good, none_found) (inl (λ v t h. cc, refl))
          | inr (cell ∷ more, found) ↦
              rw (resolve_dispute, named, read, good, found)
                (resolve_open-cases tenant id b now w (string_of cell) good
                  (query-found w id tenant cell more found))
        ]
      ]
    ]
  ]

  pub delete_dispute-cases :
      (tenant id now : Text) (w : W)
      → let (w', reply) = delete_dispute (some db) (some tenant) id now w in
        (w' ≡ w)
        ⊎ ((status_of w' id tenant ≡ some status_withdrawn)
            × ((j : Text) → eq_text id j ≡ false → status_of w' j tenant ≡ status_of w j tenant))
  unfolding delete_dispute
  delete_dispute-cases tenant id now w = elim (Bool-cases (is_empty id)) [
    | inl lost ↦ rw (delete_dispute, lost) (inl refl)
    | inr named ↦ elim (Option-cases (db.query_status w id tenant)) [
      | inl lost ↦ rw (delete_dispute, named, lost) (inl refl)
      | inr ([], none_found) ↦ rw (delete_dispute, named, none_found) (inl refl)
      | inr (cell ∷ more, found) ↦
          let u : DisputeUpdate = record {
            status = status_withdrawn;
            resolution = none;
            resolved_at = now;
          } in
          elim (Bool-cases (db.update_dispute w id tenant u).1) [
            | inr lost ↦
                rw (delete_dispute, named, found, lost) (inl (update-failed w id tenant u lost))
            | inl went ↦
                rw (delete_dispute, named, found, went)
                  (inr (
                    update-found w id tenant u (string_of cell)
                        (query-found w id tenant cell more found) went,
                    λ j apart. update-others w id tenant u j apart,
                  ))
          ]
    ]
  ]
