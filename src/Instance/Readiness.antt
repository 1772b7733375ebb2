-- ===== src/Instance/Readiness.antt =====
-- When HyperConverged counts as ready.
use guestcluster.Base.{
  Bool-cases, List, Option-cases, Text, [], ap, arith, codes, false, inl, inr, ltb_ℤ, refl, some,
  text_eq, text_eq→eq, true, ℤ, ◌∙◌, ◌∷◌, ◌≡◌,
}
use guestcluster.Instance.Operands.{
  Operand, OperandServer, check_hyper_converged, check_operand, check_operands, condition_status,
  expected_loop, is_stale, not_ready_condition, singleton_condition, unavailable_condition,
}
use guestcluster.Kube.{Reply, found, refused}

-- The operand has seen its latest generation, and has the three conditions.
pub record IsAvailable (x : Operand) : Type 0 where
  pub observed : ℤ
  pub observed_by : x.observed_generation ≡ some observed
  pub current : ltb_ℤ observed x.generation ≡ false
  pub available : condition_status x (codes "Available") ≡ some (codes "True")
  pub not_progressing : condition_status x (codes "Progressing") ≡ some (codes "False")
  pub not_degraded : condition_status x (codes "Degraded") ≡ some (codes "False")

-- One round of the loop.
expected_loop-cons :
    (x : Operand) (t st : Text) (rest : List (Text × Text))
    → (expected_loop x ((t, st) ∷ rest)).is_ready ≡ true
    → (condition_status x t ≡ some st) × ((expected_loop x rest).is_ready ≡ true)
unfolding expected_loop not_ready_condition
expected_loop-cons x t st rest h = elim (Option-cases (condition_status x t)) [
  | inl e ↦ cc (rw (e, expected_loop) at h)
  | inr (a, e) ↦ elim (Bool-cases (text_eq a st)) [
    | inr f ↦ cc (rw (e, f, expected_loop) at h)
    | inl f ↦ (e ∙ ap some (text_eq→eq a st f), rw (e, f, expected_loop) at h)
  ]
]

abbrev after_progressing : List (Text × Text)
after_progressing = (codes "Degraded", codes "False") ∷ []

abbrev after_available : List (Text × Text)
after_available = (codes "Progressing", codes "False") ∷ after_progressing

check_operand-IsAvailable : (x : Operand) → (check_operand x).is_ready ≡ true → IsAvailable x
unfolding check_operand is_stale not_ready_condition
check_operand-IsAvailable x h = elim (Option-cases x.observed_generation) [
  | inl e ↦ cc (rw (e, check_operand, is_stale) at h)
  | inr (g, e) ↦ elim (Bool-cases (ltb_ℤ g x.generation)) [
    | inl f ↦ cc (rw (e, f, check_operand, is_stale) at h)
    | inr f ↦
        let a =
          expected_loop-cons x (codes "Available") (codes "True") after_available
            (rw (e, f, check_operand, is_stale) at h) in
        let b = expected_loop-cons x (codes "Progressing") (codes "False") after_progressing a.1 in
        let c = expected_loop-cons x (codes "Degraded") (codes "False") [] b.1 in
        record {
          observed = g;
          observed_by = e;
          current = f;
          available = a.0;
          not_progressing = b.0;
          not_degraded = c.0;
        }
  ]
]

check_operands-IsAvailable :
    (r : Reply (List Operand))
    → (check_operands r).is_ready ≡ true
    → (x : Operand) × (r ≡ found (x ∷ [])) × IsAvailable x
unfolding check_operands unavailable_condition singleton_condition not_ready_condition
check_operands-IsAvailable (refused e) h = cc h
check_operands-IsAvailable (found []) h = cc h
check_operands-IsAvailable (found (x ∷ [])) h = (x, refl, check_operand-IsAvailable x h)
check_operands-IsAvailable (found (x ∷ y ∷ zs)) h = ground arith

-- If the check of HyperConverged reports ready, there is exactly one operand; its status has
-- observed its generation, and it is Available, not Progressing and not Degraded.
pub check_hyper_converged-IsAvailable :
    {S : Type 0} (ops : OperandServer S) (s : S)
    → (check_hyper_converged ops s).is_ready ≡ true
    → (x : Operand) × (ops.list_hyper_converged s ≡ found (x ∷ [])) × IsAvailable x
unfolding check_hyper_converged
check_hyper_converged-IsAvailable ops s h =
    check_operands-IsAvailable (ops.list_hyper_converged s) h
