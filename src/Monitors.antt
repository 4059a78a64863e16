-- ===== src/Monitors.antt =====
-- The processes that the DLP store of internal/compliance/handlers/security monitors: LoadFromDB of
-- data_protection.go, and HandleDLPMonitorPID, HandleDLPStatus and HandleDLPWebhook of dlp.go. The log
-- lines and the constant fields of the replies are left out.
use aocs_compliance_svc.Common.{
  ℕ, zero, suc, Bool, true, false, not, ◌&&◌, ◌==◌, List, [], ◌∷◌, Option, none, some, ℤ, pos,
  negsuc, length, is_empty, any, keep, ltb, if◌then◌else◌,
}
use aocs_compliance_svc.Text.{Text, codes, eq_text}
pub mod Laws
mod Tests

-- What MonitorPIDRequest and the metadata of a row hold.
pub record Monitor : Type 0 where
  pub pid : ℤ
  pub label : Text

-- The map monitoredPIDs.
abbrev pub Pids : Type 0
Pids = List Monitor

unfoldable pub eq_int : ℤ → ℤ → Bool
eq_int (pos m) (pos n) = m == n
eq_int (negsuc m) (negsuc n) = m == n
eq_int (pos m) (negsuc n) = false
eq_int (negsuc m) (pos n) = false

unfoldable pub is_positive : ℤ → Bool
is_positive (pos zero) = false
is_positive (pos (suc n)) = true
is_positive (negsuc n) = false

-- monitoredPIDs[m.pid] = m.label.
unfoldable pub put_pid : Monitor → Pids → Pids
put_pid m [] = m ∷ []
put_pid m (n ∷ pids) =
    let rest = put_pid m pids in if eq_int m.pid n.pid then m ∷ pids else n ∷ rest

-- Whether a process is in the map.
unfoldable pub is_monitored : ℤ → Pids → Bool
is_monitored pid pids = any (λ m. eq_int m.pid pid) pids

-- The database and the core service: the metadata of the rows for monitored processes, the insertion
-- of such a row for a tenant, whether the integrations of a tenant are enabled, and the time of the
-- last event of an integration. A read is none where it fails. JSON is a parameter too.
pub record Services (W : Type 0) : Type 0 where
  pub marshal : Monitor → List ℕ
  pub unmarshal : List ℕ → Option Monitor
  pub list_monitors : W → Option (List (List ℕ))
  pub insert_monitor : W → Text → List ℕ → W × Bool
  pub list_integrations : W → Text → Option (List Bool)
  pub update_last_event : W → Text → Text → Text → W × Bool

pub data MonitorReply : Type 0 where
  no_database no_tenant empty_tenant invalid_body insert_failed : MonitorReply
  monitoring : Monitor → Text → MonitorReply

pub record Status : Type 0 where
  pub display_only : Bool
  pub enforcement_mode : Bool
  pub enterprise_integrations : ℕ
  pub monitored_pids : ℕ
  pub browser_pids_monitored : ℕ
  pub human_browser_monitored : Bool

pub data WebhookReply : Type 0 where
  no_database no_tenant missing_signature invalid_body update_failed received : WebhookReply

module _ {W : Type 0} (v : Services W) where
  -- The loop of LoadFromDB over the rows.
  unfoldable pub load_rows : List (List ℕ) → Pids → Pids
  load_rows [] pids = pids
  load_rows (row ∷ rows) pids = load_rows rows (elim (v.unmarshal row) [
    | none ↦ pids
    | some m ↦ if is_positive m.pid then put_pid m pids else pids
  ])

  -- LoadFromDB, as NewDLPStore calls it, on an empty map.
  unfoldable pub load_from_db : W → Pids
  load_from_db w = elim (v.list_monitors w) [ none ↦ [] | some rows ↦ load_rows rows [] ]

  -- HandleDLPMonitorPID; a body is none where Bind has answered.
  unfoldable pub monitor_pid :
      Bool → Option Text → Option Monitor → W → Pids → W × Pids × MonitorReply
  monitor_pid has_db tenant body w pids =
      if not has_db then (w, pids, no_database) else (elim tenant [
        | none ↦ (w, pids, no_tenant)
        | some tenant ↦ if is_empty tenant then (w, pids, empty_tenant) else (elim body [
          | none ↦ (w, pids, invalid_body)
          | some m ↦
              let (w', went) = v.insert_monitor w tenant (v.marshal m) in
              if went then (w', put_pid m pids, monitoring m tenant) else (w', pids, insert_failed)
        ])
      ])

  -- HandleDLPStatus, on the map of all tenants.
  unfoldable pub dlp_status : Text → W → Pids → Status
  dlp_status tenant w pids =
      let integrations : ℕ = elim (v.list_integrations w tenant) [
        | none ↦ 0
        | some enabled ↦ length (keep (λ b. b) enabled)
      ] in
      let browsers = length (keep (λ m. eq_text m.label (codes "browser")) pids) in
      let display_only = (integrations == 0) && is_empty pids in
      record {
        display_only = display_only;
        enforcement_mode = not display_only;
        enterprise_integrations = integrations;
        monitored_pids = length pids;
        browser_pids_monitored = browsers;
        human_browser_monitored = ltb 0 browsers;
      }

  -- HandleDLPWebhook, by the signature and the integration of the event, none where it has no such
  -- string; an event is none where Bind has answered.
  unfoldable pub dlp_webhook :
      Bool → Option Text → Text → Option (Option Text) → Text → W → W × WebhookReply
  dlp_webhook has_db tenant signature event now w =
      if not has_db then (w, no_database) else (elim tenant [
        | none ↦ (w, no_tenant)
        | some tenant ↦ if is_empty signature then (w, missing_signature) else (elim event [
          | none ↦ (w, invalid_body)
          | some integration ↦ elim integration [
            | none ↦ (w, received)
            | some id ↦
                let (w', went) = v.update_last_event w id tenant now in
                if went then (w', received) else (w', update_failed)
          ]
        ])
      ])

  -- Requests of a tenant to monitor processes, one after the other.
  unfoldable pub monitor_all : Text → List Monitor → W → Pids → W × Pids
  monitor_all tenant [] w pids = (w, pids)
  monitor_all tenant (m ∷ ms) w pids =
      let (w', pids', reply) = monitor_pid true (some tenant) (some m) w pids in
      monitor_all tenant ms w' pids'
