-- ===== src/Departments/Choice.antt =====
-- Which departments HandleRouteDepartment of
-- internal/compliance/handlers/compliance/department_routing.go answers with.
use aocs_compliance_svc.Common.{
  ◌+◌, ◌≡◌, refl, Bool, true, false, not, ◌&&◌, List, [], ◌∷◌, some, all, keep, length, is_empty,
  arith,
}
use aocs_compliance_svc.Text.{Text}
use aocs_compliance_svc.Departments.Routing.{
  RouteBody, Classification, Routing, routed, Sources, dept_compliance, slugs_of, is_known, choose,
  route_body, route_department,
}

all-keep : (p : Text → Bool) (xs : List Text) → all p (keep p xs) ≡ true
unfolding keep
all-keep p [] = refl
all-keep p (x ∷ xs) = ground (arith, all-keep p xs)

keep-length :
    (p : Text → Bool) (xs : List Text)
    → length (keep p xs) + length (keep (λ x. not (p x)) xs) ≡ length xs
unfolding keep
keep-length p [] = omega arith
keep-length p (x ∷ xs) = ground (arith, keep-length p xs)

all-choose : (known depts : List Text) → all (is_known known) (choose known depts) ≡ true
unfolding choose
all-choose known depts = ground (arith, all-keep (is_known known) depts)

choose-none :
    (known depts : List Text)
    → is_known known dept_compliance ≡ true
    → is_empty (choose known depts) ≡ false
unfolding choose
choose-none known depts h = ground (arith, h)

module _ {F : Type 0} (src : Sources F) (body : RouteBody) where
  -- What the classifier says of the body.
  abbrev pub classified : Classification
  classified = src.classify body.case_type body.policy_category body.rule_type body.description

  -- A request that is routed is answered with known departments alone, with at least one where
  -- the department of compliance is known; and each department of the classifier is either among
  -- the known ones or filtered out, by number.
  pub route_department-known :
      (tenant : Text) (r : Routing)
      → route_department true true src (some tenant) (some body) ≡ routed r
      → let known = slugs_of src.query_slugs in
        (all (is_known known) r.departments ≡ true)
        × ((is_known known dept_compliance && is_empty r.departments) ≡ false)
        × (length (keep (is_known known) classified.departments) + length r.filtered_out
            ≡ length classified.departments)
  unfolding route_department route_body
  route_department-known tenant r h =
      let known = slugs_of src.query_slugs in
      let depts = classified.departments in
      ground (
        arith,
        h,
        all-choose known depts,
        choose-none known depts,
        keep-length (is_known known) depts,
      )
