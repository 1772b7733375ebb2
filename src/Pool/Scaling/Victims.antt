-- ===== src/Pool/Scaling/Victims.antt =====
-- Which instances a scale-down can pick: those that passed the stability window, and the newest.
use guestcluster.Api.{Instance}
use guestcluster.Base.{
  All, All-append, Bool-cases, List, [], if◌then◌else◌, inl, inr, leb_ℤ, ltb_ℤ, sub_time, true, ℤ,
  ◌-₆₄◌, ◌∷◌, ◌≡◌,
}
use guestcluster.Pool.Scaling.{
  Window, instance_idle_since, newest_instance, scale_down_stability_period, watch_instance,
  window_loop,
}

module _ (P : Instance → Type 0) where
  pick :
      (a b : Instance)
      → P a
      → P b
      → P (if ltb_ℤ a.meta.creation_timestamp b.meta.creation_timestamp then b else a)
  pick a b pa pb = elim (Bool-cases (ltb_ℤ a.meta.creation_timestamp b.meta.creation_timestamp)) [
    | inl e ↦ rw e pb
    | inr e ↦ rw e pa
  ]

  -- The newest instance is one of the candidates.
  pub newest_instance-All :
      (first : Instance) (more : List Instance)
      → P first
      → All P more
      → P (newest_instance first more)
  unfolding newest_instance
  newest_instance-All first [] p ps = p
  newest_instance-All first (c ∷ cs) p ps =
      newest_instance-All
        (if ltb_ℤ first.meta.creation_timestamp c.meta.creation_timestamp then c else first) cs
        (pick first c p ps.0) ps.1

-- An instance that has been idle for the whole stability period.
abbrev pub IsStable : ℤ → Instance → Type 0
IsStable now i = leb_ℤ scale_down_stability_period (sub_time now (instance_idle_since i)) ≡ true

module _ (P : Instance → Type 0) (now : ℤ) where
  abbrev Eligible : Instance → Type 0
  Eligible i = P i × IsStable now i

  watch_instance-All :
      (w : Window) (i : Instance)
      → P i
      → All Eligible w.eligible
      → All Eligible (watch_instance now w i).eligible
  unfolding watch_instance
  watch_instance-All w i p ps =
      elim (Bool-cases (leb_ℤ scale_down_stability_period (sub_time now (instance_idle_since i)))) [
        | inl e ↦ rw e (All-append Eligible w.eligible (i ∷ []) ps ((p, e), tt))
        | inr e ↦
            rw e
              (elim (Bool-cases (
                ltb_ℤ (scale_down_stability_period -₆₄ sub_time now (instance_idle_since i))
                  w.min_remaining)) [ inl e' ↦ rw e' ps | inr e' ↦ rw e' ps ])
      ]

  -- Every eligible instance was available, and has been idle for the stability period.
  pub window_loop-All :
      (w : Window) (is_ : List Instance)
      → All P is_
      → All Eligible w.eligible
      → All Eligible (window_loop now w is_).eligible
  unfolding window_loop
  window_loop-All w [] ps es = es
  window_loop-All w (i ∷ is_) ps es =
      window_loop-All (watch_instance now w i) is_ ps.1 (watch_instance-All w i ps.0 es)
