-- ===== src/Departments/Toy.antt =====
-- A service that keeps one case, in one department or another, for the tests on departments.
use mathlib.Core.List.{Memᴰ}
use aocs_compliance_svc.Common.{
  ℕ, ◌≡◌, refl, sym, ap, inl, inr, Bool, true, false, List, [], ◌∷◌, Option, none, some, pos,
  if◌then◌else◌, Bool-cases, arith,
}
use aocs_compliance_svc.Text.{Text, codes, eq_text}
use aocs_compliance_svc.Text.Laws.{eq_text_refl, eq_text_sound}
use aocs_compliance_svc.Cases.Store.{Cell, str, float}
use aocs_compliance_svc.Departments.Store.{Move, Database, Located}
use aocs_compliance_svc.Departments.Settings.{Services, string_of}
use aocs_compliance_svc.Departments.Overflow.{list_pending, write_overflow}
use aocs_compliance_svc.Departments.Deletion.{write_migration}

abbrev pub case_1 : Text
case_1 = codes "c1"

abbrev pub fraud : Text
fraud = codes "fraud"

abbrev pub compliance : Text
compliance = codes "compliance"

abbrev pub acme : Text
acme = codes "acme"

abbrev pub toy : Services
toy = record {
  Float = ℕ;
  is_positive = λ x. true;
  to_int = λ x. pos x;
  format_time = λ n. n ∷ [];
  format_after = λ n h. n ∷ [];
  overflow_dept = λ t. none;
  overflow_context = λ a b c d. d;
  migration_context = λ a b c d. d;
}

abbrev pub cell : Text → Cell ℕ
cell id = str id

-- The world is the department of the only case.
abbrev pub list_one : Option Text → Text → List (Cell ℕ)
list_one w slug = elim w [ none ↦ [] | some d ↦ if eq_text d slug then str case_1 ∷ [] else [] ]

abbrev pub put_one : Bool → Option Text → Text → Move → Option Text × Bool
put_one went w id m =
    if went
    then (
      if eq_text id case_1 then (elim w [ none ↦ none | some d ↦ some m.department_id ]) else w,
      true,
    )
    else (w, false)

abbrev pub find_one : Option Text → Text → Option Text
find_one w id = if eq_text id case_1 then w else none

-- A database with the number of cases that a department may have, and whether writes go through.
abbrev pub one_db : ℕ → Bool → Database (Option Text) ℕ
one_db capacity went = record {
  query_departments = λ w slug tenant. some (str [] ∷ []);
  query_max_cases = λ w slug tenant. some (float capacity ∷ []);
  query_sla_hours = λ w slug tenant. some [];
  query_pending = λ w slug. some (list_one w slug);
  update_pending = λ w id m. put_one went w id m;
  update_in_tenant = λ w id tenant m. put_one went w id m;
}

pub list_one-located :
    (w : Option Text) (slug id : Text)
    → Memᴰ (cell id) (list_one w slug)
    → find_one w id ≡ some slug
unfolding string_of
list_one-located none slug id at = elim at [ ]
list_one-located (some d) slug id at = elim (Bool-cases (eq_text d slug)) [
  | inl same ↦
      let at : Memᴰ (cell id) (str case_1 ∷ []) = rw same at at in
      elim at [
        | Memᴰ.head e ↦
            let e : id ≡ case_1 = ap (λ c. string_of c) e in
            rw (e, eq_text_refl case_1) (ap (λ d. some d) (eq_text_sound d slug same))
        | Memᴰ.tail at ↦ elim at [ ]
      ]
  | inr apart ↦ let at : Memᴰ (cell id) [] = rw apart at at in elim at [ ]
]

pub list_one-complete :
    (w : Option Text) (slug id : Text)
    → find_one w id ≡ some slug
    → Memᴰ (cell id) (list_one w slug)
list_one-complete none slug id h = absurd (ground arith)
list_one-complete (some d) slug id h = elim (Bool-cases (eq_text id case_1)) [
  | inl same ↦
      let e : d ≡ slug = ground arith in
      rw (e, eq_text_refl slug) (Memᴰ.head (rw (eq_text_sound id case_1 same) refl))
  | inr apart ↦ absurd (ground arith)
]

pub put_one-here :
    (went : Bool) (w : Option Text) (id : Text) (m : Move) (d : Text)
    → find_one w id ≡ some d
    → (put_one went w id m).1 ≡ true
    → find_one (put_one went w id m).0 id ≡ some m.department_id
put_one-here false w id m d h e = absurd cc
put_one-here true none id m d h e = ground arith
put_one-here true (some c) id m d h e = ground arith

pub put_one-others :
    (went : Bool) (w : Option Text) (id : Text) (m : Move) (j : Text)
    → eq_text id j ≡ false
    → find_one (put_one went w id m).0 j ≡ find_one w j
put_one-others false w id m j h = refl
put_one-others true w id m j h = elim (Bool-cases (eq_text id case_1)) [
  | inr apart ↦ rw apart refl
  | inl same ↦ elim (Bool-cases (eq_text j case_1)) [
    | inr other ↦ rw (other) refl
    | inl also ↦ absurd (cc (h, eq_text_sound j case_1 also))
  ]
]

pub put_one-failed :
    (went : Bool) (w : Option Text) (id : Text) (m : Move)
    → (put_one went w id m).1 ≡ false
    → (put_one went w id m).0 ≡ w
put_one-failed true w id m h = absurd cc
put_one-failed false w id m h = refl

unfoldable pub one_db-Located :
    (went : Bool) → Located (Option Text) ℕ (λ w slug. some (list_one w slug)) (put_one went)
one_db-Located went = record {
  located = find_one;
  list-located = λ w slug rows id listed at.
      let e : list_one w slug ≡ rows = ground arith in list_one-located w slug id (rw e at);
  list-complete = λ w slug rows id listed few h.
      let e : list_one w slug ≡ rows = ground arith in rw (sym e) (list_one-complete w slug id h);
  write-here = λ w id m d h e. put_one-here went w id m d h e;
  write-others = λ w id m j h. put_one-others went w id m j h;
  write-failed = λ w id m h. put_one-failed went w id m h;
}

pub overflow-Located :
    Located
      (Option Text)
      ℕ
      (list_pending toy (Option Text) none (one_db 0 true) acme)
      (write_overflow toy (Option Text) none (one_db 0 true) acme)
unfolding list_pending write_overflow
overflow-Located = one_db-Located true

unfoldable pub migration-Located :
    (went : Bool)
    → Located
        (Option Text)
        ℕ
        (list_pending toy (Option Text) none (one_db 0 went) acme)
        (write_migration toy (Option Text) none (one_db 0 went) acme)
unfolding list_pending write_migration
migration-Located went = one_db-Located went
