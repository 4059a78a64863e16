-- ===== src/Sybil/Scan.antt =====
-- The daily scan of internal/compliance/handlers/security/sybil_resistance_worker.go. A risk is in
-- hundredths. The map of addresses is walked in the order of their first rows, where Go's order is
-- any; the errors of the writes are only logged, so that a scan is the list of the rows it writes.
use aocs_compliance_svc.Common.{
  ℕ, ◌*◌, min, Bool, ◌||◌, List, [], ◌∷◌, ◌++◌, map, Option, none, some, any, length, ltb, is_empty,
  if◌then◌else◌,
}
use aocs_compliance_svc.Text.{Text, eq_text}
use aocs_compliance_svc.Text.Maps.{Map, lookup, insert}

-- The columns of a row of core_audit.
pub record AuditRow : Type 0 where
  pub tenant_id : Text
  pub agent_id : Text
  pub ip_address : Text

-- An agent that is flagged: the columns that the risk assessment and the event of the intrusion
-- detection do not have in common with every other one.
pub record Flag : Type 0 where
  pub tenant_id : Text
  pub agent_id : Text
  pub risk_score : ℕ
  pub correlated_agents : List Text
  pub source_ip : Text

unfoldable pub append_uniq : List Text → Text → List Text
append_uniq slice val = if any (λ s. eq_text s val) slice then slice else slice ++ val ∷ []

-- m[k] of a map of slices, nil for a missing key.
unfoldable pub agents_in : Text → Map (List Text) → List Text
agents_in ip m = elim (lookup ip m) [ none ↦ [] | some agents ↦ agents ]

unfoldable pub is_skipped : AuditRow → Bool
is_skipped row = is_empty row.ip_address || is_empty row.agent_id

unfoldable pub ip_to_agents : List AuditRow → Map (List Text) → Map (List Text)
ip_to_agents [] m = m
ip_to_agents (row ∷ rows) m = ip_to_agents rows (
    if is_skipped row
    then m
    else insert row.ip_address (append_uniq (agents_in row.ip_address m) row.agent_id) m)

unfoldable pub agent_tenants : List AuditRow → Map Text → Map Text
agent_tenants [] m = m
agent_tenants (row ∷ rows) m =
    agent_tenants rows (if is_skipped row then m else insert row.agent_id row.tenant_id m)

unfoldable pub risk_of : List Text → ℕ
risk_of agents = min (length agents * 15) 100

unfoldable pub flag_one : Map Text → Text → List Text → Text → Flag
flag_one tenants ip agents agent = record {
  tenant_id = elim (lookup agent tenants) [ none ↦ [] | some t ↦ t ];
  agent_id = agent;
  risk_score = risk_of agents;
  correlated_agents = agents;
  source_ip = ip;
}

unfoldable pub flag_group : Map Text → Text → List Text → List Flag
flag_group tenants ip agents =
    if ltb (length agents) 3
    then []
    else if ltb (risk_of agents) 85
    then []
    else map (flag_one tenants ip agents) agents

unfoldable pub flag_groups : Map Text → Map (List Text) → List Flag
flag_groups tenants [] = []
flag_groups tenants ((ip, agents) ∷ m) = flag_group tenants ip agents ++ flag_groups tenants m

-- runSybilScan, on the rows of the query, none where it fails.
unfoldable pub run_sybil_scan : Option (List AuditRow) → List Flag
run_sybil_scan none = []
run_sybil_scan (some rows) = flag_groups (agent_tenants rows []) (ip_to_agents rows [])
