-- ===== src/Capacity/Lowest.antt =====
-- The count limit of a namespace is the lowest that its ResourceQuotas set.
use guestcluster.Api.{Quota}
use guestcluster.Base.{
  All, Bool, List, Option, Option-cases, [], arith, false, inl, inr, ltb_ℤ, none, pos, refl, some,
  true, ℕ, ℤ, ◌↔◌, ◌∷◌, ◌≡◌,
}
use guestcluster.Capacity.{
  at_limit, capacity_of, cluster_instance_count_quota, instance_limit_loop, lookup_quantity,
  lower_count_limit, namespace_instance_limit,
}
use guestcluster.Platform.{Library}

module _ {Q : Type 0} (lib : Library Q) where
  -- The quota allows a total below its own count limit, if it has one.
  abbrev pub AllowsOneMore : ℕ → Quota Q → Type 0
  AllowsOneMore total quota =
      (q : Q)
      → lookup_quantity quota.hard cluster_instance_count_quota ≡ some q
      → ltb_ℤ (pos total) (lib.quantity_value q) ≡ true

  abbrev below : ℕ → Option ℤ → Bool
  below total none = true
  below total (some l) = ltb_ℤ (pos total) l

  step_below :
      (total : ℕ) (limit : Option ℤ) (quota : Quota Q)
      → (below total (lower_count_limit lib limit quota) ≡ true)
        ↔ ((below total limit ≡ true) × AllowsOneMore total quota)
  unfolding lower_count_limit
  step_below total limit quota = (
    (λ h. (ground arith, λ q e. ground arith)),
    (λ h. elim (Option-cases (lookup_quantity quota.hard cluster_instance_count_quota)) [
      | inl e ↦ rw (e, lower_count_limit) h.0
      | inr (q, e) ↦ rw (e, lower_count_limit) (ground (arith, h.0, h.1 q e))
    ]),
  )

  loop_below :
      (total : ℕ) (limit : Option ℤ) (quotas : List (Quota Q))
      → (below total (instance_limit_loop lib limit quotas) ≡ true)
        ↔ ((below total limit ≡ true) × All (AllowsOneMore total) quotas)
  unfolding instance_limit_loop
  loop_below total limit [] = ((λ h. (h, tt)), (λ h. h.0))
  loop_below total limit (quota ∷ rest) =
      let r = loop_below total (lower_count_limit lib limit quota) rest in
      let step = step_below total limit quota in
      (
        (λ h. let b = r.0 h in let c = step.0 b.0 in (c.0, (c.1, b.1))),
        (λ h. r.1 (step.1 (h.0, h.1.0), h.1.1)),
      )

  capacity-below :
      (total : ℕ) (limit : Option ℤ)
      → (at_limit (capacity_of total limit) ≡ false) ↔ (below total limit ≡ true)
  unfolding at_limit
  capacity-below total none = ((λ e. refl), (λ e. refl))
  capacity-below total (some l) = ((λ e. ground arith), (λ e. ground arith))

  -- A number of instances is below the limit that the ResourceQuotas give exactly if every quota
  -- with a count limit lies above that number: the limit is the lowest one, and there is none
  -- where no quota has one.
  pub at_limit-AllowsOneMore :
      (total : ℕ) (quotas : List (Quota Q))
      → (at_limit (capacity_of total (namespace_instance_limit lib quotas)) ≡ false)
        ↔ All (AllowsOneMore total) quotas
  unfolding namespace_instance_limit
  at_limit-AllowsOneMore total quotas =
      let c = capacity-below total (instance_limit_loop lib none quotas) in
      let l = loop_below total none quotas in ((λ h. (l.0 (c.0 h)).1), (λ h. c.1 (l.1 (refl, h))))
