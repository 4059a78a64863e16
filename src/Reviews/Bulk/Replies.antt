-- ===== src/Reviews/Bulk/Replies.antt =====
-- The replies of HandleResolveBulkHITL: what they count, and what they say of the cases.
use mathlib.Core.List.{Memᴰ}
use aocs_compliance_svc.Common.{
  suc, ◌+◌, ◌≤◌, ◌<◌, ◌≡◌, ◌≢◌, refl, ap, sym, ◌∙◌, ◌⊎◌, inl, inr, Bool, true, false, List, [], ◌∷◌,
  Option, some, map, length, keep, ltb, is_empty, Bool-cases, arith,
}
use aocs_compliance_svc.Text.{Text}
use aocs_compliance_svc.Cases.Store.{str}
use aocs_compliance_svc.Reviews.Store.{Case, verdict, apply_change, Database}
use aocs_compliance_svc.Reviews.Bulk.{
  Core, BulkBody, BulkRequest, BulkResult, Resolved, BulkReply, done, is_verdict, reviewer_of,
  event_of, resolve_each, summary_of, write_verdict, post_verdict, resolve_body, resolve_bulk,
}
use aocs_compliance_svc.Reviews.Bulk.Laws.{Kept, resolve_each-ids, resolve_each-Decided}

keep-length {ℓ} : {A : Type ℓ} (p : A → Bool) (xs : List A) → length (keep p xs) ≤ length xs
unfolding keep
keep-length p [] = omega arith
keep-length p (x ∷ xs) = ground (arith, keep-length p xs)

length-map {ℓ κ} :
    {A : Type ℓ} {B : Type κ} (f : A → B) (xs : List A) → length (map f xs) ≡ length xs
length-map f [] = refl
length-map f (x ∷ xs) = ap (λ n. suc n) (length-map f xs)

length_given {ℓ} : {A : Type ℓ} (xs : List A) → is_empty xs ≡ false → 0 < length xs
length_given [] h = absurd cc
length_given (x ∷ xs) h = omega arith

module _ {W F : Type 0} (core : Option (Core W F)) (db : Database W F) (req : BulkRequest)
    (now : Text) (w : W) (tenant : Text) (body : BulkBody) (e : req.tenant ≡ some tenant)
    (e' : req.body ≡ some body) where
  abbrev res : W × BulkReply
  res = resolve_bulk (some db) core req now w

  abbrev run : W × List BulkResult
  run =
      resolve_each (write_verdict core db tenant) (post_verdict core db tenant)
        (verdict body.verdict (reviewer_of req.user_id) body.reason now)
        (event_of tenant (reviewer_of req.user_id) body) body.decision_ids w

  resolve_bulk-cases :
      ((res.0 ≡ w) × ((r : Resolved) → res.1 ≢ done r))
      ⊎ ((res ≡ (run.0, done (summary_of run.1)))
          × (0 < length body.decision_ids)
          × (length body.decision_ids ≤ 50)
          × (is_verdict body.verdict ≡ true))
  unfolding resolve_bulk resolve_body
  resolve_bulk-cases = elim (Bool-cases (is_empty body.decision_ids)) [
    | inl lost ↦ inl (rw (resolve_bulk, e, e', resolve_body, lost) (refl, λ r h. cc))
    | inr given ↦ elim (Bool-cases (ltb 50 (length body.decision_ids))) [
      | inl many ↦ inl (rw (resolve_bulk, e, e', resolve_body, given, many) (refl, λ r h. cc))
      | inr few ↦ elim (Bool-cases (is_verdict body.verdict)) [
        | inr bad ↦ inl (rw (resolve_bulk, e, e', resolve_body, given, few, bad) (refl, λ r h. cc))
        | inl good ↦ inr (
          rw (resolve_bulk, e, e', resolve_body, given, few, good) refl,
          length_given body.decision_ids given,
          ground (arith, few),
          good,
        )
      ]
    ]
  ]

  -- A request with a tenant and a body that is not answered with results changes nothing. One that
  -- is has from 1 to 50 ids and a known verdict; its results are those of the ids, in their order,
  -- and the numbers of resolved and of failed cases add up to the total, the number of the ids.
  pub resolve_bulk-bounds :
      ((res.0 ≡ w) × ((r : Resolved) → res.1 ≢ done r))
      ⊎ ((r : Resolved) × (res.1 ≡ done r)
          × (map (λ x. x.decision_id) r.results ≡ body.decision_ids)
          × (0 < r.total)
          × (r.total ≤ 50)
          × (r.total ≡ length body.decision_ids)
          × (r.resolved + r.failed ≡ r.total)
          × (is_verdict body.verdict ≡ true))
  unfolding summary_of
  resolve_bulk-bounds = elim resolve_bulk-cases [
    | inl idle ↦ inl idle
    | inr (same, some_ids, few, good) ↦
        let named : map (λ x. x.decision_id) run.1 ≡ body.decision_ids =
          resolve_each-ids (write_verdict core db tenant) (post_verdict core db tenant) _ _
            body.decision_ids w in
        let count : length run.1 ≡ length body.decision_ids =
          sym (length-map (λ x. x.decision_id) run.1) ∙ ap (λ l. length l) named in
        let less = keep-length (λ x. x.ok) run.1 in
        inr (
          summary_of run.1,
          ap (λ t. t.1) same,
          named,
          omega (arith, some_ids, count),
          omega (arith, few, count),
          count,
          omega (arith, less),
          good,
        )
  ]

  -- A request with a tenant and a body that is answered with results has given each case with a
  -- result that is ok the verdict of the request, whatever its status was, a verdict of before
  -- included, and has left every other case as it was, where nobody else writes.
  pub resolve_bulk-Decided :
      (kept : Kept W F (write_verdict core db tenant) (post_verdict core db tenant)) (r : Resolved)
      (j : Text)
      → res.1 ≡ done r
      → (Memᴰ (record { decision_id = j; ok = true }) r.results
          × ((row : Case F)
              → kept.find w j ≡ some row
              → kept.find res.0 j
                ≡ some (record {
                  status = str body.verdict;
                  department_id = row.department_id;
                  context_data = row.context_data;
                })))
        ⊎ (¬ Memᴰ (record { decision_id = j; ok = true }) r.results
            × (kept.find res.0 j ≡ kept.find w j))
  unfolding summary_of apply_change
  resolve_bulk-Decided kept r j h = elim resolve_bulk-cases [
    | inl (same, idle) ↦ absurd (idle r h)
    | inr (same, some_ids, few, good) ↦
        let is_r : summary_of run.1 ≡ r = ground (arith, h, ap (λ t. t.1) same) in
        rw (sym is_r, same)
          (resolve_each-Decided (write_verdict core db tenant) (post_verdict core db tenant) _ _
            kept (λ row. refl) body.decision_ids w j)
  ]
