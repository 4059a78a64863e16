-- ===== src/Monitors/Tests.antt =====
-- The theorems on monitored processes at a table that is a list of process ids.
use aocs_compliance_svc.Common.{
  ℕ, zero, suc, ◌≡◌, refl, true, ◌||◌, any, List, [], ◌∷◌, Option, none, some, pos, negsuc,
}
use aocs_compliance_svc.Text.{Text, codes}
use aocs_compliance_svc.Monitors.{
  Monitor, eq_int, put_pid, is_positive, is_monitored, Services, load_rows, load_from_db,
  monitor_pid, monitor_all,
}
use aocs_compliance_svc.Monitors.Laws.{registers, inserted, listed, monitor_all-is_monitored}

abbrev Table : Type 0
Table = List (List ℕ)

abbrev marshal_pid : Monitor → List ℕ
marshal_pid m = elim m.pid [ pos n ↦ 0 ∷ n ∷ m.label | negsuc n ↦ 1 ∷ n ∷ m.label ]

abbrev unmarshal_pid : List ℕ → Option Monitor
unmarshal_pid (zero ∷ n ∷ label) = some (record { pid = pos n; label = label })
unmarshal_pid (suc k ∷ n ∷ label) = some (record { pid = negsuc n; label = label })
unmarshal_pid _ = none

abbrev table : Services Table
table = record {
  marshal = marshal_pid;
  unmarshal = unmarshal_pid;
  list_monitors = λ w. some w;
  insert_monitor = λ w tenant row. (row ∷ w, true);
  list_integrations = λ w tenant. some [];
  update_last_event = λ w id tenant now. (w, true);
}

abbrev acme : Text
acme = codes "acme"

abbrev two : List Monitor
two = record { pid = pos 7; label = codes "browser" } ∷ record { pid = negsuc 0; label = [] } ∷ []

-- A process id that is not positive is monitored, until the service is started again.
monitor-negative : (monitor_all table acme two [] []).1 ≡ two
unfolding monitor_all monitor_pid put_pid eq_int
monitor-negative = refl

load-negative :
    load_from_db table (monitor_all table acme two [] []).0
    ≡ record { pid = pos 7; label = codes "browser" } ∷ []
unfolding monitor_all monitor_pid load_from_db load_rows put_pid is_positive eq_int
load-negative = refl

monitor_all-is_monitored_example :
    is_monitored (negsuc 0) (monitor_all table acme two [] (load_from_db table [])).1 ≡ (
      is_monitored (negsuc 0) (inserted table acme two [])
      || any (registers table (negsuc 0)) (listed table []))
monitor_all-is_monitored_example = monitor_all-is_monitored table (negsuc 0) acme two [] refl
