-- ===== src/Bundle/Failure.antt =====
-- When the preparation Job counts as failed.
use guestcluster.Base.{
  Bool, List, Option, Option-cases, Text, [], any_if, ap, arith, codes, false, inl, inr, ltb, none,
  pos, refl, some, sym, text_eq, true, ℕ, ◌&&◌, ◌||◌, ◌∙◌, ◌∷◌, ◌≡◌,
}
use guestcluster.Bundle.{Job, JobCondition}
use guestcluster.Bundle.Reconcile.{bundle_prep_job_failure, failed_condition, pods_exhausted}

-- A condition that reports the failure of the Job.
abbrev pub reports_failure : JobCondition → Bool
reports_failure c = text_eq c.type (codes "Failed") && text_eq c.status (codes "True")

abbrev pub has_reason : Option Text → Bool
has_reason none = false
has_reason (some r) = true

failed_condition-any_if :
    (cs : List JobCondition) → has_reason (failed_condition cs) ≡ any_if reports_failure cs
unfolding failed_condition
failed_condition-any_if [] = refl
failed_condition-any_if (c ∷ cs) = ground (arith, failed_condition-any_if cs)

-- A preparation Job with a retry limit counts as failed exactly if one of its conditions reports
-- the failure as True, or more pods have failed than the limit.
pub bundle_prep_job_failure-any_if :
    (job : Job) (pods limit : ℕ)
    → job.failed ≡ pos pods
    → job.backoff_limit ≡ some (pos limit)
    → has_reason (bundle_prep_job_failure job)
      ≡ (any_if reports_failure job.conditions || ltb limit pods)
unfolding bundle_prep_job_failure pods_exhausted
bundle_prep_job_failure-any_if job pods limit n l =
    elim (Option-cases (failed_condition job.conditions)) [
      | inr (reason, e) ↦
          let some_reports : any_if reports_failure job.conditions ≡ true =
            sym (failed_condition-any_if job.conditions) ∙ ap has_reason e in
          rw (e, bundle_prep_job_failure) (rw some_reports refl)
      | inl e ↦
          let none_reports : any_if reports_failure job.conditions ≡ false =
            sym (failed_condition-any_if job.conditions) ∙ ap has_reason e in
          rw (e, bundle_prep_job_failure) (rw (none_reports, n, l, pods_exhausted) (ground arith))
    ]
