-- ===== src/Sybil/Tests.antt =====
-- The theorem on the scan at six agents of an address.
use aocs_compliance_svc.Common.{◌≡◌, refl, List, [], ◌∷◌, map, some}
use aocs_compliance_svc.Text.{Text, codes, eq_text}
use aocs_compliance_svc.Sybil.Scan.{
  AuditRow, append_uniq, agents_in, is_skipped, ip_to_agents, agent_tenants, flag_group,
  flag_groups, run_sybil_scan,
}
use aocs_compliance_svc.Text.Maps.{insert, lookup}
use aocs_compliance_svc.Sybil.Threshold.{
  IsDistinct, has_agent, is_seen, is_flagged, is_crowded, run_sybil_scan-is_flagged,
}

abbrev here : Text
here = codes "10.0.0.1"

abbrev row_of : Text → AuditRow
row_of agent = record { tenant_id = codes "acme"; agent_id = agent; ip_address = here }

abbrev six : List AuditRow
six =
    row_of (codes "a")
    ∷ row_of (codes "b")
    ∷ row_of (codes "c")
    ∷ row_of (codes "d")
    ∷ row_of (codes "e")
    ∷ row_of (codes "f")
    ∷ []

run_sybil_scan-is_flagged_example :
    (agents : List Text) × IsDistinct agents
    × ((agent : Text) → has_agent agent agents ≡ is_seen here six agent)
    × ((agent : Text) → is_flagged here agent (run_sybil_scan (some six)) ≡ is_crowded agent agents)
run_sybil_scan-is_flagged_example = run_sybil_scan-is_flagged six here refl

-- One agent with six rows is not flagged.
run_sybil_scan-alone : run_sybil_scan (some (map (λ r. row_of (codes "a")) six)) ≡ []
unfolding run_sybil_scan ip_to_agents agent_tenants is_skipped insert agents_in lookup append_uniq
    flag_groups flag_group eq_text
run_sybil_scan-alone = refl
