-- ===== src/Monitors/Laws.antt =====
-- Which processes are monitored after a start and the requests that follow it.
use aocs_compliance_svc.Common.{
  ℕ, ◌≡◌, refl, sym, ap, ◌∙◌, inl, inr, Bool, true, false, ◌&&◌, ◌||◌, List, [], ◌∷◌, none, some, ℤ,
  pos, negsuc, is_empty, any, Bool-cases, Option-cases, if◌then◌else◌, arith,
}
use aocs_compliance_svc.Text.{Text}
use aocs_compliance_svc.Monitors.{
  Monitor, Pids, eq_int, is_positive, put_pid, is_monitored, Services, load_rows, load_from_db,
  monitor_pid, monitor_all,
}

eq_int_sound : (a b : ℤ) → eq_int a b ≡ true → a ≡ b
unfolding eq_int
eq_int_sound (pos m) (pos n) h = ground (arith, h)
eq_int_sound (negsuc m) (negsuc n) h = ground (arith, h)
eq_int_sound (pos m) (negsuc n) h = absurd cc
eq_int_sound (negsuc m) (pos n) h = absurd cc

is_monitored-put_pid :
    (pid : ℤ) (m : Monitor) (pids : Pids)
    → is_monitored pid (put_pid m pids) ≡ (eq_int m.pid pid || is_monitored pid pids)
unfolding is_monitored put_pid
is_monitored-put_pid pid m [] = refl
is_monitored-put_pid pid m (n ∷ pids) = elim (Bool-cases (eq_int m.pid n.pid)) [
  | inl same ↦
      let k : eq_int n.pid pid ≡ eq_int m.pid pid =
        ap (λ i. eq_int i pid) (sym (eq_int_sound m.pid n.pid same)) in
      rw same (ground (arith, k))
  | inr other ↦ rw other (ground (arith, is_monitored-put_pid pid m pids))
]

module _ {W : Type 0} (v : Services W) where
  -- A row registers a process.
  unfoldable pub registers : ℤ → List ℕ → Bool
  registers pid row = elim (v.unmarshal row) [
    | none ↦ false
    | some m ↦ is_positive m.pid && eq_int m.pid pid
  ]

  is_monitored-load_rows :
      (pid : ℤ) (rows : List (List ℕ)) (pids : Pids)
      → is_monitored pid (load_rows v rows pids)
        ≡ (any (registers pid) rows || is_monitored pid pids)
  unfolding load_rows registers
  is_monitored-load_rows pid [] pids = refl
  is_monitored-load_rows pid (row ∷ rows) pids = elim (Option-cases (v.unmarshal row)) [
    | inl bad ↦
        rw (load_rows, registers, bad) (ground (arith, is_monitored-load_rows pid rows pids))
    | inr (m, read) ↦ elim (Bool-cases (is_positive m.pid)) [
      | inl positive ↦
          rw (load_rows, registers, read, positive)
            (ground (
              arith,
              is_monitored-load_rows pid rows (put_pid m pids),
              is_monitored-put_pid pid m pids,
            ))
      | inr other ↦
          rw (load_rows, registers, read, other)
            (ground (arith, is_monitored-load_rows pid rows pids))
    ]
  ]

  -- The requests of a tenant whose row could be inserted.
  unfoldable pub inserted : Text → List Monitor → W → List Monitor
  inserted tenant [] w = []
  inserted tenant (m ∷ ms) w =
      let (w', went) = v.insert_monitor w tenant (v.marshal m) in
      let rest = inserted tenant ms w' in if went then m ∷ rest else rest

  -- The rows that a start of the service reads, none where the read fails.
  unfoldable pub listed : W → List (List ℕ)
  listed w = elim (v.list_monitors w) [ none ↦ [] | some rows ↦ rows ]

  is_monitored-load_from_db :
      (pid : ℤ) (w : W) → is_monitored pid (load_from_db v w) ≡ any (registers pid) (listed w)
  unfolding load_from_db is_monitored listed
  is_monitored-load_from_db pid w = elim (Option-cases (v.list_monitors w)) [
    | inl lost ↦ rw (load_from_db, listed, lost) refl
    | inr (rows, read) ↦
        rw (load_from_db, listed, read) (ground (arith, is_monitored-load_rows pid rows []))
  ]

  is_monitored-monitor_all :
      (pid : ℤ) (tenant : Text) (ms : List Monitor) (w : W) (pids : Pids)
      → is_empty tenant ≡ false
      → is_monitored pid (monitor_all v tenant ms w pids).1
        ≡ (is_monitored pid (inserted tenant ms w) || is_monitored pid pids)
  unfolding monitor_all monitor_pid inserted is_monitored
  is_monitored-monitor_all pid tenant [] w pids given = refl
  is_monitored-monitor_all pid tenant (m ∷ ms) w pids given =
      elim (Bool-cases (v.insert_monitor w tenant (v.marshal m)).1) [
        | inl went ↦
            let rest = is_monitored-monitor_all pid tenant ms _ (put_pid m pids) given in
            rw (monitor_all, monitor_pid, inserted, given, went)
              (rest ∙ ground (arith, is_monitored-put_pid pid m pids))
        | inr lost ↦
            rw (monitor_all, monitor_pid, inserted, given, lost)
              (is_monitored-monitor_all pid tenant ms _ pids given)
      ]

  -- After a start of the service and any number of requests of a tenant to monitor processes, a
  -- process is monitored exactly where its id is positive and a row that the start has read
  -- registers it, or a request for it, with any id, could be inserted; a start whose read fails has
  -- read no row.
  pub monitor_all-is_monitored :
      (pid : ℤ) (tenant : Text) (ms : List Monitor) (w : W)
      → is_empty tenant ≡ false
      → is_monitored pid (monitor_all v tenant ms w (load_from_db v w)).1
        ≡ (is_monitored pid (inserted tenant ms w) || any (registers pid) (listed w))
  monitor_all-is_monitored pid tenant ms w given =
      is_monitored-monitor_all pid tenant ms w (load_from_db v w) given
      ∙ ap (λ b. is_monitored pid (inserted tenant ms w) || b) (is_monitored-load_from_db pid w)
