-- ===== src/Sybil/Threshold.antt =====
-- Which agents the scan of internal/compliance/handlers/security/sybil_resistance_worker.go flags.
use aocs_compliance_svc.Common.{
  ◌≡◌, refl, ap, ◌∙◌, inl, inr, Bool, false, ◌&&◌, ◌||◌, List, [], ◌∷◌, ◌++◌, map, not, some, any,
  length, leb, is_empty, if◌then◌else◌, Bool-cases, arith,
}
use aocs_compliance_svc.Text.{Text, eq_text}
use aocs_compliance_svc.Text.Laws.{eq_text_refl, eq_text_sound, eq_text_comm}
use aocs_compliance_svc.Text.Maps.{Map, lookup, insert, lookup-insert_self, lookup-insert_ne}
use aocs_compliance_svc.Sybil.Scan.{
  AuditRow, Flag, append_uniq, agents_in, is_skipped, ip_to_agents, agent_tenants, risk_of,
  flag_one, flag_group, flag_groups, run_sybil_scan,
}

-- The agents that are gathered for an address, after those that are known.
agents_at : Text → List AuditRow → List Text → List Text
agents_at ip [] known = known
agents_at ip (row ∷ rows) known = agents_at ip rows (
    if eq_text row.ip_address ip && not (is_empty row.agent_id)
    then append_uniq known row.agent_id
    else known)

-- An agent is flagged for an address.
unfoldable pub is_flagged : Text → Text → List Flag → Bool
is_flagged ip agent flags = any (λ f. eq_text f.source_ip ip && eq_text f.agent_id agent) flags

agents_in-insert_self :
    (ip : Text) (agents : List Text) (m : Map (List Text))
    → agents_in ip (insert ip agents m) ≡ agents
unfolding agents_in
agents_in-insert_self ip agents m = rw (agents_in, lookup-insert_self ip agents m) refl

agents_in-insert_ne :
    (k ip : Text) (agents : List Text) (m : Map (List Text))
    → eq_text k ip ≡ false
    → agents_in ip (insert k agents m) ≡ agents_in ip m
unfolding agents_in
agents_in-insert_ne k ip agents m h = rw (agents_in, lookup-insert_ne k ip agents m h) refl

agents_in_step :
    (ip : Text) (m : Map (List Text)) (at agent : Text)
    → is_empty ip ≡ false
    → agents_in ip (
        if is_empty at || is_empty agent
        then m
        else insert at (append_uniq (agents_in at m) agent) m)
      ≡ (if eq_text at ip && not (is_empty agent)
          then append_uniq (agents_in ip m) agent
          else agents_in ip m)
agents_in_step ip m at agent named = elim (Bool-cases (is_empty agent)) [
  | inl none_given ↦ ground (arith, none_given)
  | inr given ↦ elim (Bool-cases (eq_text at ip)) [
    | inl same ↦
        let e = eq_text_sound at ip same in
        rw (e, named, given, eq_text_refl ip)
          (agents_in-insert_self ip (append_uniq (agents_in ip m) agent) m)
    | inr apart ↦
        let elsewhere = agents_in-insert_ne at ip (append_uniq (agents_in at m) agent) m apart in
        ground (arith, given, apart, elsewhere)
  ]
]

ip_to_agents-agents_at :
    (ip : Text) (rows : List AuditRow) (m : Map (List Text))
    → is_empty ip ≡ false
    → agents_in ip (ip_to_agents rows m) ≡ agents_at ip rows (agents_in ip m)
unfolding ip_to_agents agents_at is_skipped
ip_to_agents-agents_at ip [] m named = refl
ip_to_agents-agents_at ip (row ∷ rows) m named =
    ip_to_agents-agents_at ip rows _ named
    ∙ ap (agents_at ip rows) (agents_in_step ip m row.ip_address row.agent_id named)

-- No address is a key twice.
abbrev has_key : {V : Type 0} → Text → Map V → Bool
has_key k m = any (λ entry. eq_text entry.0 k) m

abbrev Keyed : {V : Type 0} → Map V → Type 0
Keyed [] = Unit
Keyed ((k, v) ∷ m) = (has_key k m ≡ false) × Keyed m

has_key-insert :
    {V : Type 0} (j k : Text) (v : V) (m : Map V)
    → has_key j (insert k v m) ≡ (eq_text k j || has_key j m)
unfolding insert
has_key-insert j k v [] = ground arith
has_key-insert j k v ((i, w) ∷ m) = ground (arith, has_key-insert j k v m, eq_text_sound i k)

Keyed-insert : {V : Type 0} (k : Text) (v : V) (m : Map V) → Keyed m → Keyed (insert k v m)
unfolding insert
Keyed-insert k v [] h = (refl, tt)
Keyed-insert k v ((j, w) ∷ m) (fresh, h) = elim (Bool-cases (eq_text j k)) [
  | inl same ↦ rw same (rw (eq_text_sound j k same) at fresh, h)
  | inr apart ↦
      rw apart (rw (has_key-insert j k v m, eq_text_comm j k apart) fresh, Keyed-insert k v m h)
]

ip_to_agents-Keyed :
    (rows : List AuditRow) (m : Map (List Text)) → Keyed m → Keyed (ip_to_agents rows m)
unfolding ip_to_agents
ip_to_agents-Keyed [] m h = h
ip_to_agents-Keyed (row ∷ rows) m h =
    ip_to_agents-Keyed rows _ (elim (Bool-cases (is_skipped row)) [
      | inl skipped ↦ rw skipped h
      | inr kept ↦ rw kept (Keyed-insert row.ip_address _ m h)
    ])

or_false : (b : Bool) → (b || false) ≡ b
or_false b = ground arith

any-append :
    {A : Type 0} (p : A → Bool) (xs ys : List A) → any p (xs ++ ys) ≡ (any p xs || any p ys)
any-append p [] ys = refl
any-append p (x ∷ xs) ys = ground (arith, any-append p xs ys)

-- An agent is among six agents or more.
unfoldable pub is_crowded : Text → List Text → Bool
is_crowded agent agents = leb 6 (length agents) && any (λ a. eq_text a agent) agents

module _ (tenants : Map Text) (ip agent : Text) where
  flag_one-is_flagged :
      (k : Text) (all agents : List Text)
      → is_flagged ip agent (map (flag_one tenants k all) agents)
        ≡ (eq_text k ip && any (λ a. eq_text a agent) agents)
  unfolding is_flagged flag_one
  flag_one-is_flagged k all [] = ground arith
  flag_one-is_flagged k all (a ∷ agents) = ground (arith, flag_one-is_flagged k all agents)

  flag_group-is_flagged :
      (k : Text) (agents : List Text)
      → is_flagged ip agent (flag_group tenants k agents)
        ≡ (eq_text k ip && is_crowded agent agents)
  unfolding flag_group risk_of is_crowded is_flagged
  flag_group-is_flagged k agents = ground (arith, flag_one-is_flagged k agents agents)

  agents_in-missing : (m : Map (List Text)) → has_key ip m ≡ false → agents_in ip m ≡ []
  unfolding agents_in lookup
  agents_in-missing [] h = refl
  agents_in-missing ((k, v) ∷ m) h = ground (arith, h, agents_in-missing m)

  is_flagged-append :
      (xs ys : List Flag)
      → is_flagged ip agent (xs ++ ys) ≡ (is_flagged ip agent xs || is_flagged ip agent ys)
  unfolding is_flagged
  is_flagged-append xs ys = any-append _ xs ys

  agents_in-cons :
      (k : Text) (v : List Text) (m : Map (List Text))
      → agents_in ip ((k, v) ∷ m) ≡ (if eq_text k ip then v else agents_in ip m)
  unfolding agents_in lookup
  agents_in-cons k v m = ground arith

  is_crowded_none : is_crowded agent [] ≡ false
  unfolding is_crowded
  is_crowded_none = refl

  flagged_none : is_flagged ip agent (flag_groups tenants []) ≡ is_crowded agent (agents_in ip [])
  unfolding flag_groups is_flagged agents_in lookup is_crowded
  flagged_none = refl

  flag_groups-is_flagged :
      (m : Map (List Text))
      → Keyed m
      → is_flagged ip agent (flag_groups tenants m) ≡ is_crowded agent (agents_in ip m)
  unfolding flag_groups
  flag_groups-is_flagged [] h = flagged_none
  flag_groups-is_flagged ((k, v) ∷ m) (fresh, h) =
      let split = is_flagged-append (flag_group tenants k v) (flag_groups tenants m) in
      let first = flag_group-is_flagged k v in
      let rest = flag_groups-is_flagged m h in
      elim (Bool-cases (eq_text k ip)) [
        | inl same ↦
            let gone = agents_in-missing m (rw (eq_text_sound k ip same) at fresh) in
            rw (split, first, rest, agents_in-cons k v m, same, gone, is_crowded_none)
              (or_false (is_crowded agent v))
        | inr apart ↦ rw (split, first, rest, agents_in-cons k v m, apart) refl
      ]

-- Some row has an address and an agent that has a name.
unfoldable pub is_seen : Text → List AuditRow → Text → Bool
is_seen ip rows agent =
    any
      (λ row.
        eq_text row.ip_address ip && (not (is_empty row.agent_id) && eq_text row.agent_id agent))
      rows

abbrev pub has_agent : Text → List Text → Bool
has_agent agent agents = any (λ a. eq_text a agent) agents

-- No agent is in the list twice.
unfoldable pub IsDistinct : List Text → Type 0
IsDistinct [] = Unit
IsDistinct (a ∷ agents) = (has_agent a agents ≡ false) × IsDistinct agents

append-IsDistinct :
    (agents : List Text) (a : Text)
    → IsDistinct agents
    → has_agent a agents ≡ false
    → IsDistinct (agents ++ a ∷ [])
unfolding IsDistinct
append-IsDistinct [] a h fresh = (refl, tt)
append-IsDistinct (b ∷ agents) a (alone, h) fresh =
    let apart : eq_text b a ≡ false = ground (arith, fresh) in
    let tail : has_agent a agents ≡ false = ground (arith, fresh) in
    (
      any-append (λ c. eq_text c b) agents (a ∷ []) ∙ ground (arith, alone, eq_text_comm b a apart),
      append-IsDistinct agents a h tail,
    )

append_uniq-IsDistinct :
    (agents : List Text) (a : Text) → IsDistinct agents → IsDistinct (append_uniq agents a)
unfolding append_uniq
append_uniq-IsDistinct agents a h = elim (Bool-cases (has_agent a agents)) [
  | inl known ↦ rw (append_uniq, known) h
  | inr fresh ↦ rw (append_uniq, fresh) (append-IsDistinct agents a h fresh)
]

append_uniq-has_agent :
    (agents : List Text) (a agent : Text)
    → has_agent agent (append_uniq agents a) ≡ (eq_text a agent || has_agent agent agents)
unfolding append_uniq
append_uniq-has_agent agents a agent = elim (Bool-cases (has_agent a agents)) [
  | inl known ↦ elim (Bool-cases (eq_text a agent)) [
    | inl same ↦ rw (append_uniq, known, same) (rw (eq_text_sound a agent same) at known)
    | inr apart ↦ rw (append_uniq, known, apart) refl
  ]
  | inr fresh ↦
      rw (append_uniq, fresh) (any-append (λ c. eq_text c agent) agents (a ∷ []) ∙ ground arith)
]

agents_at-IsDistinct :
    (ip : Text) (rows : List AuditRow) (known : List Text)
    → IsDistinct known
    → IsDistinct (agents_at ip rows known)
unfolding agents_at
agents_at-IsDistinct ip [] known h = h
agents_at-IsDistinct ip (row ∷ rows) known h =
    agents_at-IsDistinct ip rows _
      (elim (Bool-cases (eq_text row.ip_address ip && not (is_empty row.agent_id))) [
        | inl here ↦ rw here (append_uniq-IsDistinct known row.agent_id h)
        | inr other ↦ rw other h
      ])

agents_at-is_seen :
    (ip : Text) (rows : List AuditRow) (known : List Text) (agent : Text)
    → has_agent agent (agents_at ip rows known) ≡ (is_seen ip rows agent || has_agent agent known)
unfolding agents_at is_seen
agents_at-is_seen ip [] known agent = refl
agents_at-is_seen ip (row ∷ rows) known agent =
    elim (Bool-cases (eq_text row.ip_address ip && not (is_empty row.agent_id))) [
      | inl here ↦
          let rest = agents_at-is_seen ip rows (append_uniq known row.agent_id) agent in
          rw here (rest ∙ ground (arith, here, append_uniq-has_agent known row.agent_id agent))
      | inr other ↦ rw other (agents_at-is_seen ip rows known agent ∙ ground (arith, other))
    ]

-- Each address has a list of agents in which no agent is twice and which has exactly the agents of
-- the rows with that address, and an agent is flagged for the address exactly where it is in that
-- list and the list has six agents or more.
pub run_sybil_scan-is_flagged :
    (rows : List AuditRow) (ip : Text)
    → is_empty ip ≡ false
    → (agents : List Text) × IsDistinct agents
      × ((agent : Text) → has_agent agent agents ≡ is_seen ip rows agent)
      × ((agent : Text)
          → is_flagged ip agent (run_sybil_scan (some rows)) ≡ is_crowded agent agents)
unfolding run_sybil_scan agents_in lookup IsDistinct
run_sybil_scan-is_flagged rows ip named = (
  agents_at ip rows [],
  agents_at-IsDistinct ip rows [] tt,
  (λ agent. agents_at-is_seen ip rows [] agent ∙ or_false (is_seen ip rows agent)),
  λ agent.
      flag_groups-is_flagged (agent_tenants rows []) ip agent (ip_to_agents rows [])
        (ip_to_agents-Keyed rows [] tt)
      ∙ ap (is_crowded agent) (ip_to_agents-agents_at ip rows [] named),
)
