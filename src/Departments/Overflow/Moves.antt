-- ===== src/Departments/Overflow/Moves.antt =====
-- Which cases HandleRouteDeptOverflow moves, and when it moves none.
use aocs_compliance_svc.Common.{
  ℕ, ◌≡◌, refl, sym, ap, ◌∙◌, ◌⊎◌, inl, inr, min, true, List, [], Option, some, ℤ, pos, length,
  keep, arith,
}
use aocs_compliance_svc.Text.{Text}
use aocs_compliance_svc.Cases.Store.{Cell}
use aocs_compliance_svc.Departments.Store.{Move, Database, Core, Located}
use aocs_compliance_svc.Departments.Settings.{
  Services, OverflowRequest, OverflowReply, Rerouted, rerouted, AuditRow, limit_of, fits,
  int_setting,
}
use aocs_compliance_svc.Departments.Overflow.{
  list_pending, write_overflow, overflow_move, reroute, route_overflow,
}
use aocs_compliance_svc.Departments.Overflow.Laws.{capacity_of, route_overflow-cases}
use aocs_compliance_svc.Departments.Overflow.Bounds.{is_named, move_rows-all}
use aocs_compliance_svc.Departments.Located.{move_rows_rerouted}

module _ (s : Services) (W : Type 0) where
  open s use {Float}

  module _ (core : Option (Core W Float)) (db : Database W Float) (req : OverflowRequest)
      (deadline_from now : ℕ) (w : W) (tenant : Text) (n : ℤ) (e : req.tenant ≡ some tenant)
      (e' : req.max_cases_to_move ≡ some n) where
    abbrev audit_of : Text → Text → AuditRow
    audit_of target id = record {
      entity_id = id;
      tenant_id = tenant;
      from_dept = req.slug;
      to_dept = target;
      sla_hours = int_setting s (pos 48) (db.query_sla_hours w target tenant);
    }

    abbrev move_to : Text → Move
    move_to target =
        overflow_move s W req.slug target
          (int_setting s (pos 48) (db.query_sla_hours w target tenant)) deadline_from now

    -- Where the list of the pending cases of the department is no longer than its capacity, a
    -- request with a tenant and a body changes nothing and posts nothing.
    pub route_overflow_within :
        (rows : List (Cell Float))
        → list_pending s W core db tenant w req.slug ≡ some rows
        → fits (length rows) (capacity_of s W db tenant req.slug w) ≡ true
        → let res = route_overflow s W (some db) core req deadline_from now w in
          (res.world ≡ w) × (res.tasks ≡ [])
    route_overflow_within rows listed fit =
        elim (route_overflow-cases s W core db req deadline_from now w tenant n e e') [
          | inl (same, none_posted, idle) ↦ (same, none_posted)
          | inr run ↦ absurd (ground (arith, listed, fit, run.listed, run.full))
        ]

    reroute-all :
        (target : Text) (limit : ℕ) (capacity : ℤ) (rows : List (Cell Float)) (r : Rerouted)
        → ((w : W) (id : Text) (m : Move) → (write_overflow s W core db tenant w id m).1 ≡ true)
        → (reroute s W core db tenant req.slug deadline_from now target limit capacity rows w).reply
          ≡ rerouted r
        → r.moved_count ≡ min limit (length (keep is_named rows))
    unfolding reroute
    reroute-all target limit capacity rows r reliable h = ground (
      arith,
      h,
      move_rows-all (write_overflow s W core db tenant) (move_to target) (audit_of target)
          (λ w id. reliable w id (move_to target)) limit rows
          (record { world = w; moved = 0; tasks = [] }) (omega arith),
    )

    -- Where every write goes through, and a request with a tenant and a body is answered with a
    -- number of moved cases, the number is the smaller one of the limit of the request and the
    -- number of the listed cases that have an id.
    pub route_overflow-all :
        (rows : List (Cell Float)) (r : Rerouted)
        → list_pending s W core db tenant w req.slug ≡ some rows
        → ((w : W) (id : Text) (m : Move) → (write_overflow s W core db tenant w id m).1 ≡ true)
        → (route_overflow s W (some db) core req deadline_from now w).reply ≡ rerouted r
        → r.moved_count ≡ min (limit_of n) (length (keep is_named rows))
    route_overflow-all rows r listed reliable h =
        elim (route_overflow-cases s W core db req deadline_from now w tenant n e e') [
          | inl (same, none_posted, idle) ↦ absurd (idle r h)
          | inr run ↦
              let same : run.rows ≡ rows = ground (arith, listed, run.listed) in
              reroute-all run.target (limit_of n) (capacity_of s W db tenant req.slug w) run.rows r
                reliable (sym (ap (λ res. res.reply) run.ran) ∙ h)
              ∙ ap (λ rows. min (limit_of n) (length (keep is_named rows))) same
        ]

    module _
        (obs : Located W Float
          (list_pending s W core db tenant)
          (write_overflow s W core db tenant)) where
      open obs use {located, list-located}

      -- Where a case stands after a call, by the reply.
      abbrev pub Placed : OverflowReply → W → Text → Type 0
      Placed reply w' id =
          (located w' id ≡ located w id)
          ⊎ ((r : Rerouted) × (reply ≡ rerouted r)
              × (located w id ≡ some req.slug)
              × (located w' id ≡ some r.overflow_to))

      reroute-Placed :
          (target : Text) (limit : ℕ) (capacity : ℤ) (rows : List (Cell Float)) (id : Text)
          → list_pending s W core db tenant w req.slug ≡ some rows
          → let res =
              reroute s W core db tenant req.slug deadline_from now target limit capacity rows w in
            Placed res.reply res.world id
      unfolding reroute overflow_move
      reroute-Placed target limit capacity rows id listed =
          elim (move_rows_rerouted (list_pending s W core db tenant)
            (write_overflow s W core db tenant) obs (move_to target) req.slug w (audit_of target)
            limit rows (record { world = w; moved = 0; tasks = [] })
            (λ id at. list-located w req.slug rows id listed at) (λ id. inl refl) id) [
              | inl stayed ↦ inl stayed
              | inr (was, now_at) ↦ inr (_, refl, was, now_at)
            ]

      -- A request with a tenant and a body leaves each pending case in the department where it
      -- was, unless the reply is a number of moved cases and the case was in the department of the
      -- request, and then it stays or is in the target of the reply; where nobody else writes
      -- through the service.
      pub route_overflow-Placed :
          (id : Text)
          → let res = route_overflow s W (some db) core req deadline_from now w in
            Placed res.reply res.world id
      route_overflow-Placed id =
          elim (route_overflow-cases s W core db req deadline_from now w tenant n e e') [
            | inl (same, none_posted, idle) ↦ inl (ap (λ w. located w id) same)
            | inr run ↦ rw run.ran (
                reroute-Placed run.target (limit_of n) (capacity_of s W db tenant req.slug w)
                  run.rows id run.listed)
          ]
