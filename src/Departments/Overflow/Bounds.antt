-- ===== src/Departments/Overflow/Bounds.antt =====
-- How many cases HandleRouteDeptOverflow moves.
use aocs_compliance_svc.Common.{
  ℕ, suc, ◌+◌, ◌≤◌, ◌≡◌, sym, ap, ◌∙◌, inl, inr, min, Bool, true, false, not, List, [], ◌∷◌, Option,
  some, ℤ, pos, length, is_empty, keep, Bool-cases, arith, length-append,
}
use aocs_compliance_svc.Text.{Text, eq_text}
use aocs_compliance_svc.Cases.Store.{Cell}
use aocs_compliance_svc.Departments.Store.{Move, Database, Core}
use aocs_compliance_svc.Departments.Settings.{
  Services, OverflowRequest, Rerouted, rerouted, AuditRow, limit_of, fits, string_of, int_setting,
}
use aocs_compliance_svc.Departments.Overflow.{
  Progress, attempt, move_row, move_rows, write_overflow, overflow_move, reroute, route_overflow,
}
use aocs_compliance_svc.Departments.Overflow.Laws.{route_overflow-cases, capacity_of}

-- The rows with an id.
unfoldable pub is_named : {F : Type 0} → Cell F → Bool
is_named cell = not (is_empty (string_of cell))

module _ {W F : Type 0} (write : W → Text → Move → W × Bool) (m : Move)
    (audit : Text → AuditRow) where
  move_row-moved :
      (cell : Cell F) (p : Progress W)
      → let q = move_row write m audit cell p in
        (p.moved ≤ q.moved)
        × (q.moved ≤ suc p.moved)
        × (length q.tasks + p.moved ≡ length p.tasks + q.moved)
  unfolding move_row
  move_row-moved cell p = elim (Bool-cases (attempt write m cell p.world).1) [
    | inl went ↦ rw went (
      omega arith,
      omega arith,
      omega (arith, length-append p.tasks (audit (string_of cell) ∷ [])),
    )
    | inr lost ↦ rw lost (omega arith, omega arith, omega arith)
  ]

  pub move_rows-moved :
      (limit : ℕ) (rows : List (Cell F)) (p : Progress W)
      → p.moved ≤ limit
      → let q = move_rows write m audit limit rows p in
        (q.moved ≤ limit)
        × (q.moved ≤ p.moved + length rows)
        × (length q.tasks + p.moved ≡ length p.tasks + q.moved)
  unfolding move_rows
  move_rows-moved limit [] p h = (h, omega arith, omega arith)
  move_rows-moved limit (cell ∷ rows) p h =
      ground
        (arith, move_row-moved cell p, move_rows-moved limit rows (move_row write m audit cell p))

  module _ (reliable : (w : W) (id : Text) → (write w id m).1 ≡ true) where
    move_row-all :
        (cell : Cell F) (p : Progress W)
        → (move_row write m audit cell p).moved
          ≡ (elim (is_named cell) [ true ↦ suc p.moved | false ↦ p.moved ])
    unfolding move_row attempt is_named
    move_row-all cell p = ground (arith, reliable p.world (string_of cell))

    pub move_rows-all :
        (limit : ℕ) (rows : List (Cell F)) (p : Progress W)
        → p.moved ≤ limit
        → (move_rows write m audit limit rows p).moved
          ≡ min limit (p.moved + length (keep is_named rows))
    unfolding move_rows keep
    move_rows-all limit [] p h = ground arith
    move_rows-all limit (cell ∷ rows) p h =
        ground
          (arith, move_row-all cell p, move_rows-all limit rows (move_row write m audit cell p))

module _ (s : Services) (W : Type 0) where
  open s use {Float}

  module _ (core : Option (Core W Float)) (db : Database W Float) (req : OverflowRequest)
      (deadline_from now : ℕ) (w : W) (tenant : Text) (n : ℤ) (r : Rerouted)
      (e : req.tenant ≡ some tenant) (e' : req.max_cases_to_move ≡ some n) where
    reroute-bounds :
        (target : Text) (limit : ℕ) (capacity : ℤ) (rows : List (Cell Float))
        → let res =
            reroute s W core db tenant req.slug deadline_from now target limit capacity rows w in
          res.reply ≡ rerouted r
          → (r.moved_count ≤ limit)
            × (r.moved_count ≤ r.open_cases)
            × (length res.tasks ≡ r.moved_count)
            × (r.overflow_to ≡ target)
            × (r.open_cases ≡ length rows)
            × (r.capacity_limit ≡ capacity)
    unfolding reroute
    reroute-bounds target limit capacity rows h =
        let hours = int_setting s (pos 48) (db.query_sla_hours w target tenant) in
        ground (
          arith,
          h,
          move_rows-moved (write_overflow s W core db tenant)
              (overflow_move s W req.slug target hours deadline_from now)
              (λ id. record {
                entity_id = id;
                tenant_id = tenant;
                from_dept = req.slug;
                to_dept = target;
                sla_hours = hours;
              })
              limit rows (record { world = w; moved = 0; tasks = [] }) (omega arith),
        )

    -- Where a request with a tenant and a body is answered with a number of moved cases, the
    -- number is at most the limit of the request, which is 10 unless the request gives a positive
    -- one, and at most the number of open cases; a row is posted for each; the target is another
    -- department, and the open cases were more than the capacity in the reply.
    pub route_overflow-bounds :
        let res = route_overflow s W (some db) core req deadline_from now w in
        res.reply ≡ rerouted r
        → (r.moved_count ≤ limit_of n)
          × (r.moved_count ≤ r.open_cases)
          × (length res.tasks ≡ r.moved_count)
          × (eq_text r.overflow_to req.slug ≡ false)
          × (fits r.open_cases r.capacity_limit ≡ false)
    route_overflow-bounds h =
        elim (route_overflow-cases s W core db req deadline_from now w tenant n e e') [
          | inl (same, none_posted, idle) ↦ absurd (idle r h)
          | inr run ↦
              let replied = sym (ap (λ res. res.reply) run.ran) ∙ h in
              let posted = ap (λ res. length res.tasks) run.ran in
              let (within, some_open, counted, to, rows, capacity) =
                reroute-bounds run.target (limit_of n) (capacity_of s W db tenant req.slug w)
                  run.rows replied in
              (within, some_open, posted ∙ counted, rw to run.apart, rw (rows, capacity) run.full)
        ]
