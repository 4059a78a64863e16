-- ===== src/Departments/Routing.antt =====
-- HandleRouteDepartment of internal/compliance/handlers/compliance/department_routing.go. The log lines
-- and the note of the reply are left out, and what the reply repeats of the classification. The rows
-- of core_events, which are written or posted on the side, are recorded; an error of a read leaves
-- no rows.
use aocs_compliance_svc.Common.{
  ℕ, zero, suc, Bool, true, not, ◌&&◌, ◌||◌, List, [], ◌∷◌, ◌++◌, map, Option, none, some, ℤ, pos,
  negsuc, ltb, any, keep, length, is_empty, if◌then◌else◌,
}
use aocs_compliance_svc.Text.{Text, codes, eq_text}
use aocs_compliance_svc.Cases.Store.{Cell}
use aocs_compliance_svc.Departments.Settings.{string_of}

pub record RouteBody : Type 0 where
  pub case_type : Text
  pub policy_category : Text
  pub rule_type : Text
  pub description : Text
  pub agent_id : Text
  pub check_capacity : Option Bool

-- What the classifier (types.IntentClassifier) answers, as far as the handler reads it.
pub record Classification : Type 0 where
  pub departments : List Text
  pub routing_source : Text

pub record Capacity : Type 0 where
  pub available : Bool
  pub pending : ℕ
  pub max : ℕ

-- The fall back to the department of compliance, with the number of the unknown departments, and
-- the query with the departments that were chosen.
pub data RoutingEvent : Type 0 where
  catch_all : ℕ → RoutingEvent
  route_query : List Text → RoutingEvent

pub record Routing : Type 0 where
  pub departments : List Text
  pub capacity_status : List (Text × Capacity)
  pub filtered_out : List Text
  pub routing_degraded : Bool
  pub events : List RoutingEvent

pub data RoutingReply : Type 0 where
  no_database no_classifier no_tenant invalid_body nothing_given : RoutingReply
  routed : Routing → RoutingReply

-- What the handler reads: the classifier, the slugs of all departments, the PENDING cases of a
-- department, and DEPT_MAX_HITL_CASES as an int.
pub record Sources (F : Type 0) : Type 0 where
  pub classify : Text → Text → Text → Text → Classification
  pub query_slugs : Option (List (Cell F))
  pub count_pending : Text → Option ℕ
  pub max_hitl_cases : Option ℤ

abbrev pub dept_compliance : Text
dept_compliance = codes "dept_compliance"

unfoldable pub max_cases_of : Option ℤ → ℕ
max_cases_of none = 200
max_cases_of (some (pos zero)) = 200
max_cases_of (some (pos (suc n))) = suc n
max_cases_of (some (negsuc n)) = 200

unfoldable pub slugs_of : {F : Type 0} → Option (List (Cell F)) → List Text
slugs_of none = []
slugs_of (some rows) = keep (λ slug. not (is_empty slug)) (map string_of rows)

unfoldable pub is_known : List Text → Text → Bool
is_known known dept = any (eq_text dept) known

unfoldable pub is_degraded : Text → Bool
is_degraded source =
    eq_text source (codes "hardcoded_fallback_db_error")
    || eq_text source (codes "hardcoded_fallback_empty")

-- The departments of the classifier that are known, or the department of compliance.
unfoldable pub choose : List Text → List Text → List Text
choose known depts =
    let valid = keep (is_known known) depts in
    if is_empty valid
    then (if is_known known dept_compliance then dept_compliance ∷ [] else [])
    else valid

unfoldable pub fallback_events : List Text → List Text → List RoutingEvent
fallback_events known depts =
    if is_empty (keep (is_known known) depts) && is_known known dept_compliance
    then catch_all (length (keep (λ d. not (is_known known d)) depts)) ∷ []
    else []

module _ {F : Type 0} (src : Sources F) where
  open src use {classify, query_slugs, count_pending, max_hitl_cases}

  unfoldable pub capacity_of : Text → Capacity
  capacity_of dept =
      let pending : ℕ = elim (count_pending dept) [ none ↦ 0 | some n ↦ n ] in
      record {
        available = ltb pending (max_cases_of max_hitl_cases);
        pending = pending;
        max = max_cases_of max_hitl_cases;
      }

  unfoldable pub route_body : RouteBody → RoutingReply
  route_body body =
      if is_empty body.case_type && is_empty body.description
      then nothing_given
      else (let c = classify body.case_type body.policy_category body.rule_type body.description in
          let known = slugs_of query_slugs in
          let chosen = choose known c.departments in
          let checks : Bool = elim body.check_capacity [ none ↦ true | some b ↦ b ] in
          routed (record {
            departments = chosen;
            capacity_status = if checks then map (λ d. (d, capacity_of d)) chosen else [];
            filtered_out = keep (λ d. not (is_known known d)) c.departments;
            routing_degraded = is_degraded c.routing_source;
            events = fallback_events known c.departments ++ route_query chosen ∷ [];
          }))

-- HandleRouteDepartment, with whether there are a database and a classifier.
unfoldable pub route_department :
    {F : Type 0} → Bool → Bool → Sources F → Option Text → Option RouteBody → RoutingReply
route_department has_db has_classifier src tenant body =
    if not has_db then no_database else if not has_classifier then no_classifier else (elim tenant [
      | none ↦ no_tenant
      | some t ↦ elim body [ none ↦ invalid_body | some b ↦ route_body src b ]
    ])
