-- ===== src/Capacity/Limits.antt =====
-- The limit of each dimension is at most what every ResourceQuota of the namespace states.
use guestcluster.Api.{Quota}
use guestcluster.Base.{
  All, Bool-cases, List, Option, Option-cases, [], arith, false, if◌then◌else◌, inl, inr, ltb,
  ltb_ℤ, ltb→lt, pos, some, subst, sym, ℕ, ◌∙◌, ◌∷◌, ◌≡◌, ◌≤◌,
}
use guestcluster.Capacity.{
  Amounts, Dimension, amount_of, cpu, lookup_quantity, lower_limit, memory,
  namespace_resource_limits, no_limits, quota_key, resource_limits_loop, storage,
}
use guestcluster.Lease.Passes.{current}
use guestcluster.Platform.{Library, QuantityLaws}

module _ {Q : Type 0} (lib : Library Q) (amount : Q → ℕ) (laws : QuantityLaws lib amount) where
  -- There is a limit, and it is at most `n`.
  abbrev pub Below : Option Q → ℕ → Type 0
  Below r n = (l : Q) × (r ≡ some l) × (amount l ≤ n)

  -- What a quota states of a dimension.
  abbrev pub States : Quota Q → Dimension → Q → Type 0
  States quota d q = lookup_quantity quota.hard (quota_key d) ≡ some q

  lower-amount :
      (q c : Q)
      → (amount (if lib.quantity_lt q c then q else c) ≤ amount q)
        × (amount (if lib.quantity_lt q c then q else c) ≤ amount c)
  lower-amount q c = elim (Bool-cases (lib.quantity_lt q c)) [
    | inl e ↦
        let lt = ltb→lt (amount q) (amount c) (sym (laws.lt_amount q c) ∙ e) in
        rw e (omega arith, omega arith)
    | inr e ↦
        let le : ltb (amount q) (amount c) ≡ false = sym (laws.lt_amount q c) ∙ e in
        rw e (ground arith, omega arith)
  ]

  lower_limit-Below :
      (d : Dimension) (current : Option Q) (quota : Quota Q) (r : Option Q) (n : ℕ)
      → lower_limit lib d current quota ≡ some r
      → Below current n
      → Below r n
  unfolding lower_limit
  lower_limit-Below d current quota r n h (l, e, le) =
      elim (Option-cases (lookup_quantity quota.hard (quota_key d))) [
        | inl f ↦ let same : current ≡ r = cc (rw (f, lower_limit) at h) in (l, sym same ∙ e, le)
        | inr (q, f) ↦ elim (Option-cases (lib.as_int64 q)) [
          | inl g ↦ cc (rw (f, g, lower_limit) at h)
          | inr (v, g) ↦ elim (Bool-cases (ltb_ℤ v (pos 0))) [
            | inl b ↦ cc (rw (f, g, b, lower_limit) at h)
            | inr b ↦
                let got : some (if lib.quantity_lt q l then q else l) ≡ r =
                  cc (rw (f, g, b, e, lower_limit) at h) in
                (_, sym got, omega (arith, (lower-amount q l).1))
          ]
        ]
      ]

  lower_limit-States :
      (d : Dimension) (current : Option Q) (quota : Quota Q) (r : Option Q) (q : Q)
      → lower_limit lib d current quota ≡ some r
      → States quota d q
      → Below r (amount q)
  unfolding lower_limit
  lower_limit-States d current quota r q h f = elim (Option-cases (lib.as_int64 q)) [
    | inl g ↦ cc (rw (f, g, lower_limit) at h)
    | inr (v, g) ↦ elim (Bool-cases (ltb_ℤ v (pos 0))) [
      | inl b ↦ cc (rw (f, g, b, lower_limit) at h)
      | inr b ↦ elim (Option-cases current) [
        | inl e ↦
            let got : some q ≡ r = cc (rw (f, g, b, e, lower_limit) at h) in
            (q, sym got, omega arith)
        | inr (l, e) ↦
            let got : some (if lib.quantity_lt q l then q else l) ≡ r =
              cc (rw (f, g, b, e, lower_limit) at h) in
            (_, sym got, (lower-amount q l).0)
      ]
    ]
  ]

  -- One round of the loop.
  record Round (limits next : Amounts (Option Q)) (quota : Quota Q) : Type 0 where
    lowered :
        (d : Dimension) → lower_limit lib d (amount_of limits d) quota ≡ some (amount_of next d)

  resource_limits_loop-Round :
      (limits : Amounts (Option Q)) (quota : Quota Q) (rest : List (Quota Q))
      (out : Amounts (Option Q))
      → resource_limits_loop lib limits (quota ∷ rest) ≡ some out
      → (next : Amounts (Option Q)) × Round limits next quota
        × (resource_limits_loop lib next rest ≡ some out)
  unfolding resource_limits_loop
  resource_limits_loop-Round limits quota rest out h =
      elim (Option-cases (lower_limit lib cpu limits.cpu_amount quota)) [
        | inl a ↦ cc (rw (a, resource_limits_loop) at h)
        | inr (c, a) ↦ elim (Option-cases (lower_limit lib memory limits.memory_amount quota)) [
          | inl b ↦ cc (rw (a, b, resource_limits_loop) at h)
          | inr (m, b) ↦ elim (Option-cases (lower_limit lib storage limits.storage_amount quota)) [
            | inl e ↦ cc (rw (a, b, e, resource_limits_loop) at h)
            | inr (s, e) ↦ (
              record { cpu_amount = c; memory_amount = m; storage_amount = s },
              record { lowered = by_dimension c m s a b e },
              rw (a, b, e, resource_limits_loop) at h,
            )
          ]
        ]
      ]
    where
      by_dimension :
          (c m s : Option Q)
          → lower_limit lib cpu limits.cpu_amount quota ≡ some c
          → lower_limit lib memory limits.memory_amount quota ≡ some m
          → lower_limit lib storage limits.storage_amount quota ≡ some s
          → (d : Dimension)
          → lower_limit lib d (amount_of limits d) quota
            ≡ some (amount_of (record { cpu_amount = c; memory_amount = m; storage_amount = s }) d)
      by_dimension c m s a b e cpu = a
      by_dimension c m s a b e memory = b
      by_dimension c m s a b e storage = e

  resource_limits_loop-Below :
      (limits : Amounts (Option Q)) (quotas : List (Quota Q)) (out : Amounts (Option Q))
      (d : Dimension) (n : ℕ)
      → resource_limits_loop lib limits quotas ≡ some out
      → Below (amount_of limits d) n
      → Below (amount_of out d) n
  unfolding resource_limits_loop
  resource_limits_loop-Below limits [] out d n h b =
      let same : limits ≡ out = cc h in subst (λ x. Below (amount_of x d) n) same b
  resource_limits_loop-Below limits (quota ∷ rest) out d n h b =
      let r = resource_limits_loop-Round limits quota rest out h in
      resource_limits_loop-Below r.0 rest out d n r.2
        (lower_limit-Below d (amount_of limits d) quota (amount_of r.0 d) n (r.1.lowered d) b)

  resource_limits_loop-States :
      (limits : Amounts (Option Q)) (quotas : List (Quota Q)) (out : Amounts (Option Q))
      (d : Dimension)
      → resource_limits_loop lib limits quotas ≡ some out
      → All (λ quota. (q : Q) → States quota d q → Below (amount_of out d) (amount q)) quotas
  resource_limits_loop-States limits [] out d h = tt
  resource_limits_loop-States limits (quota ∷ rest) out d h =
      let r = resource_limits_loop-Round limits quota rest out h in
      (
        (λ q st. resource_limits_loop-Below r.0 rest out d (amount q) r.2 (
            lower_limit-States d (amount_of limits d) quota (amount_of r.0 d) q (r.1.lowered d)
              st)),
        resource_limits_loop-States r.0 rest out d r.2,
      )

  -- If the resource limits of a namespace are computed, every ResourceQuota that states an amount
  -- for a dimension is at or above the limit of that dimension, and there is such a limit.
  pub namespace_resource_limits-lowest :
      (quotas : List (Quota Q)) (limits : Amounts (Option Q)) (d : Dimension)
      → namespace_resource_limits lib quotas ≡ some limits
      → All (λ quota. (q : Q) → States quota d q → Below (amount_of limits d) (amount q)) quotas
  unfolding namespace_resource_limits
  namespace_resource_limits-lowest quotas limits d h =
      resource_limits_loop-States (no_limits lib) quotas limits d h
