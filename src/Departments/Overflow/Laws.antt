-- ===== src/Departments/Overflow/Laws.antt =====
-- What HandleRouteDeptOverflow does, by its replies.
use aocs_compliance_svc.Common.{
  ℕ, ◌≡◌, refl, ap, ◌⊎◌, inl, inr, false, List, [], ◌∷◌, Option, none, some, ℤ, length, is_empty,
  Bool-cases, Option-cases,
}
use aocs_compliance_svc.Text.{Text, eq_text}
use aocs_compliance_svc.Cases.Store.{Cell}
use aocs_compliance_svc.Departments.Store.{Database, Core}
use aocs_compliance_svc.Departments.Settings.{
  Services, OverflowRequest, OverflowReply, Rerouted, rerouted, limit_of, fits, target_of,
  int_setting,
}
use aocs_compliance_svc.Departments.Overflow.{
  Routed, list_pending, answer, reroute, to_target, with_config, with_department, route_overflow,
}

module _ (s : Services) (W : Type 0) where
  open s use {Float}

  -- A reply that leaves the tables as they were.
  abbrev pub IsIdle : W → Routed W → Type 0
  IsIdle w res = (res.world ≡ w) × (res.tasks ≡ []) × ((r : Rerouted) → ¬ (res.reply ≡ rerouted r))

  answer-IsIdle :
      (w : W) (reply : OverflowReply)
      → ((r : Rerouted) → ¬ (reply ≡ rerouted r))
      → IsIdle w (answer s W w reply)
  unfolding answer
  answer-IsIdle w reply h = (refl, refl, h)

  -- The capacity of a department, by its settings.
  abbrev pub capacity_of : Database W Float → Text → Text → W → ℤ
  capacity_of db tenant slug w = int_setting s (ℤ.pos 200) (db.query_max_cases w slug tenant)

  -- What is known where the loop has run.
  pub record Run (db : Database W Float) (core : Option (Core W Float)) (tenant slug : Text)
      (deadline_from now limit : ℕ) (w : W) (res : Routed W) : Type 0 where
    pub rows : List (Cell Float)
    pub target : Text
    pub listed : list_pending s W core db tenant w slug ≡ some rows
    pub apart : eq_text target slug ≡ false
    pub full : fits (length rows) (capacity_of db tenant slug w) ≡ false
    pub ran :
        res
        ≡ reroute s W core db tenant slug deadline_from now target limit
            (capacity_of db tenant slug w)
            rows
            w

  module _ (core : Option (Core W Float)) (db : Database W Float) (tenant slug : Text)
      (deadline_from now limit : ℕ) (w : W) where
    abbrev Known : Routed W → Type 0
    Known res = IsIdle w res ⊎ Run db core tenant slug deadline_from now limit w res

    to_target-cases :
        (target : Text) (rows : List (Cell Float))
        → list_pending s W core db tenant w slug ≡ some rows
        → fits (length rows) (capacity_of db tenant slug w) ≡ false
        → Known (
            to_target s W core db tenant slug deadline_from now target limit
              (capacity_of db tenant slug w)
              rows
              w)
    unfolding to_target
    to_target-cases target rows listed full = elim (Bool-cases (eq_text target slug)) [
      | inl same ↦ rw same (inl (answer-IsIdle w _ (λ r e. cc)))
      | inr apart ↦ rw apart (elim (Option-cases (db.query_departments w target tenant)) [
        | inl lost ↦ rw lost (inl (answer-IsIdle w _ (λ r e. cc)))
        | inr ([], found) ↦ rw found (inl (answer-IsIdle w _ (λ r e. cc)))
        | inr (row ∷ more, found) ↦ rw found (
            inr (record {
              rows = rows;
              target = target;
              listed = listed;
              apart = apart;
              full = full;
              ran = refl;
            }))
      ])
    ]

    with_config-cases :
        (config : Cell Float)
        → Known (with_config s W core db tenant slug deadline_from now config limit w)
    unfolding with_config
    with_config-cases config =
        let capacity = capacity_of db tenant slug w in
        elim (Option-cases (list_pending s W core db tenant w slug)) [
          | inl lost ↦ rw (lost, with_config) (inl (answer-IsIdle w _ (λ r e. cc)))
          | inr (rows, listed) ↦ elim (Bool-cases (fits (length rows) capacity)) [
            | inl fit ↦ rw (listed, with_config, fit) (inl (answer-IsIdle w _ (λ r e. cc)))
            | inr full ↦
                rw (listed, with_config, full)
                  (to_target-cases (target_of s config) rows listed full)
          ]
        ]

    with_department-cases :
        Known (with_department s W core db tenant slug deadline_from now limit w)
    unfolding with_department
    with_department-cases = elim (Option-cases (db.query_departments w slug tenant)) [
      | inl lost ↦ rw (lost, with_department) (inl (answer-IsIdle w _ (λ r e. cc)))
      | inr ([], found) ↦ rw (found, with_department) (inl (answer-IsIdle w _ (λ r e. cc)))
      | inr (config ∷ more, found) ↦ rw (found, with_department) (with_config-cases config)
    ]

  -- Where the request has a tenant and a body, either nothing has been touched, or the loop has run.
  pub route_overflow-cases :
      (core : Option (Core W Float)) (db : Database W Float) (req : OverflowRequest)
      (deadline_from now : ℕ) (w : W) (tenant : Text) (n : ℤ)
      → req.tenant ≡ some tenant
      → req.max_cases_to_move ≡ some n
      → let res = route_overflow s W (some db) core req deadline_from now w in
        IsIdle w res ⊎ Run db core tenant req.slug deadline_from now (limit_of n) w res
  unfolding route_overflow
  route_overflow-cases core db req deadline_from now w tenant n e e' =
      elim (Bool-cases (is_empty req.slug)) [
        | inl missing ↦ rw (e, missing) (inl (answer-IsIdle w _ (λ r e. cc)))
        | inr given ↦
            rw (e, given, e')
              (with_department-cases core db tenant req.slug deadline_from now (limit_of n) w)
      ]

  -- A call with any other reply than a number of moved cases, errors included, changes nothing and
  -- posts nothing.
  pub route_overflow-idle :
      (db : Option (Database W Float)) (core : Option (Core W Float)) (req : OverflowRequest)
      (deadline_from now : ℕ) (w : W)
      → let res = route_overflow s W db core req deadline_from now w in
        ((r : Rerouted) → ¬ (res.reply ≡ rerouted r)) → (res.world ≡ w) × (res.tasks ≡ [])
  unfolding route_overflow answer reroute
  route_overflow-idle none core req deadline_from now w h = (refl, refl)
  route_overflow-idle (some db) core req deadline_from now w h = elim (Option-cases req.tenant) [
    | inl e ↦ rw e (refl, refl)
    | inr (tenant, e) ↦ elim (Option-cases req.max_cases_to_move) [
      | inl e' ↦ elim (Bool-cases (is_empty req.slug)) [
        | inl missing ↦ rw (e, missing) (refl, refl)
        | inr given ↦ rw (e, given, e') (refl, refl)
      ]
      | inr (n, e') ↦ elim (route_overflow-cases core db req deadline_from now w tenant n e e') [
        | inl (same, none_posted, idle) ↦ (same, none_posted)
        | inr run ↦ absurd (h _ (ap (λ res. res.reply) run.ran))
      ]
    ]
  ]
