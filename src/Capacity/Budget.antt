-- ===== src/Capacity/Budget.antt =====
-- The quota check adds up what the instances of a namespace reserve, and compares it with the limits.
use guestcluster.Api.{Instance, Quota}
use guestcluster.Base.{
  All, All-map, Bool-cases, List, Option, Option-cases, [], ap, arith, false, if◌then◌else◌, inl,
  inr, ltb, ltb→lt, none, some, subst, sym, true, ℕ, ◌+◌, ◌<◌, ◌∙◌, ◌∷◌, ◌≡◌, ◌≤◌, ◌⊎◌,
}
use guestcluster.Capacity.{
  Amounts, Dimension, QuotaViolation, amount_of, cpu, lookup_quantity, memory,
  namespace_resource_limits, quota_key, storage,
}
use guestcluster.Capacity.Limits.{Below, namespace_resource_limits-lowest}
use guestcluster.Capacity.Usage.{
  add_usage, counts_against, dimension_violation, exceeds, first_violation, has_limits,
  instance_resource_usage, no_usage, resource_violation, usage_loop,
}
use guestcluster.Platform.{Library, QuantityLaws}

module _ {Q : Type 0} (lib : Library Q) (amount : Q → ℕ) (laws : QuantityLaws lib amount) where
  abbrev amount_in : Option (Amounts Q) → Dimension → ℕ
  amount_in none d = 0
  amount_in (some a) d = amount (amount_of a d)

  -- What an instance asks for in a dimension, if that can be computed.
  unfoldable pub asked : Instance → Dimension → ℕ
  asked i d = amount_in (instance_resource_usage lib i) d

  asked-some :
      (i : Instance) (a : Amounts Q) (d : Dimension)
      → instance_resource_usage lib i ≡ some a
      → asked i d ≡ amount (amount_of a d)
  unfolding asked
  asked-some i a d h = ap (λ o. amount_in o d) h

  -- The sum over the instances that count beside the candidate.
  unfoldable pub reserved : Instance → Dimension → List Instance → ℕ
  reserved candidate d [] = 0
  reserved candidate d (i ∷ is_) =
      let rest = reserved candidate d is_ in
      if counts_against candidate i then asked i d + rest else rest

  add_usage-amount :
      (a b : Amounts Q) (d : Dimension)
      → amount (amount_of (add_usage lib a b) d) ≡ amount (amount_of a d) + amount (amount_of b d)
  unfolding add_usage
  add_usage-amount a b cpu = laws.add_amount a.cpu_amount b.cpu_amount
  add_usage-amount a b memory = laws.add_amount a.memory_amount b.memory_amount
  add_usage-amount a b storage = laws.add_amount a.storage_amount b.storage_amount

  usage_loop-reserved :
      (candidate : Instance) (used : Amounts Q) (is_ : List Instance) (total : Amounts Q)
      (d : Dimension)
      → usage_loop lib candidate used is_ ≡ some total
      → amount (amount_of total d) ≡ amount (amount_of used d) + reserved candidate d is_
  unfolding usage_loop reserved
  usage_loop-reserved candidate used [] total d h =
      let same : used ≡ total = cc h in rw (← same) (omega arith)
  usage_loop-reserved candidate used (i ∷ is_) total d h =
      elim (Bool-cases (counts_against candidate i)) [
        | inr e ↦ rw e (usage_loop-reserved candidate used is_ total d (rw (e, usage_loop) at h))
        | inl e ↦ elim (Option-cases (instance_resource_usage lib i)) [
          | inl f ↦ cc (rw (e, f, usage_loop) at h)
          | inr (a, f) ↦
              let ih =
                usage_loop-reserved candidate (add_usage lib used a) is_ total d
                  (rw (e, f, usage_loop) at h) in
              rw e (omega (arith, ih, add_usage-amount used a d, asked-some i a d f))
        ]
      ]

  no_usage-amount : (d : Dimension) → amount (amount_of (no_usage lib) d) ≡ 0
  no_usage-amount cpu = laws.zero_amount
  no_usage-amount memory = laws.zero_amount
  no_usage-amount storage = laws.zero_amount

  exceeds-amount :
      (limit used requested : Q)
      → exceeds lib (some limit) used requested
        ≡ ltb (amount limit) (amount used + amount requested)
  unfolding exceeds
  exceeds-amount limit used requested =
      laws.lt_amount limit (lib.quantity_add used requested)
      ∙ ap (λ n. ltb (amount limit) n) (laws.add_amount used requested)

  module _ (limits : Amounts (Option Q)) (used requested : Amounts Q) where
    abbrev Fits : Dimension → Type 0
    Fits d =
        (l : Q)
        → amount_of limits d ≡ some l
        → amount (amount_of used d) + amount (amount_of requested d) ≤ amount l

    abbrev Breaks : QuotaViolation Q → Type 0
    Breaks v =
        (amount_of limits v.dimension ≡ some v.limit)
        × (amount v.limit
            < amount (amount_of used v.dimension) + amount (amount_of requested v.dimension))

    dimension-Fits :
        (d : Dimension) (later : Option (QuotaViolation Q))
        → dimension_violation lib d limits used requested later ≡ none
        → Fits d × (later ≡ none)
    dimension-Fits d later h = elim (Option-cases (amount_of limits d)) [
      | inl e ↦ ((λ l f. cc (e, f)), rw (e, dimension_violation) at h)
      | inr (l, e) ↦
          elim (Bool-cases (exceeds lib (some l) (amount_of used d) (amount_of requested d))) [
            | inl b ↦ cc (rw (e, b, dimension_violation) at h)
            | inr b ↦
                let test = sym (exceeds-amount l (amount_of used d) (amount_of requested d)) ∙ b in
                (
                  (λ m f. let same : l ≡ m = cc (e, f) in rw (← same) (ground (arith, test))),
                  rw (e, b, dimension_violation) at h,
                )
          ]
    ]

    dimension-Breaks :
        (d : Dimension) (later : Option (QuotaViolation Q)) (v : QuotaViolation Q)
        → dimension_violation lib d limits used requested later ≡ some v
        → Breaks v ⊎ (later ≡ some v)
    dimension-Breaks d later v h = elim (Option-cases (amount_of limits d)) [
      | inl e ↦ inr (rw (e, dimension_violation) at h)
      | inr (l, e) ↦
          elim (Bool-cases (exceeds lib (some l) (amount_of used d) (amount_of requested d))) [
            | inr b ↦ inr (rw (e, b, dimension_violation) at h)
            | inl b ↦
                let test = sym (exceeds-amount l (amount_of used d) (amount_of requested d)) ∙ b in
                let made : QuotaViolation Q = record {
                  dimension = d;
                  used = amount_of used d;
                  requested = amount_of requested d;
                  limit = l;
                } in
                let same : made ≡ v = cc (rw (e, b, dimension_violation) at h) in
                inl (subst Breaks same (e, ltb→lt _ _ test))
          ]
    ]

    first_violation-Breaks :
        (v : QuotaViolation Q) → first_violation lib limits used requested ≡ some v → Breaks v
    unfolding first_violation
    first_violation-Breaks v h = elim (dimension-Breaks cpu _ v h) [
      | inl b ↦ b
      | inr h1 ↦ elim (dimension-Breaks memory _ v h1) [
        | inl b ↦ b
        | inr h2 ↦ elim (dimension-Breaks storage none v h2) [ inl b ↦ b | inr h3 ↦ cc h3 ]
      ]
    ]

    first_violation-Fits :
        first_violation lib limits used requested ≡ none → (d : Dimension) → Fits d
    unfolding first_violation
    first_violation-Fits h cpu = (dimension-Fits cpu _ h).0
    first_violation-Fits h memory = (dimension-Fits memory _ (dimension-Fits cpu _ h).1).0
    first_violation-Fits h storage =
        (dimension-Fits storage none (dimension-Fits memory _ (dimension-Fits cpu _ h).1).1).0

  has_limits-none :
      (limits : Amounts (Option Q)) (d : Dimension)
      → has_limits limits ≡ false
      → amount_of limits d ≡ none
  has_limits-none limits cpu h = ground arith
  has_limits-none limits memory h = ground arith
  has_limits-none limits storage h = ground arith

  -- The evaluation, where there is a limit: the two amounts, and the first violation.
  record Evaluated (is_ : List Instance) (limits : Amounts (Option Q)) (candidate : Instance)
      (result : Option (QuotaViolation Q)) : Type 0 where
    used : Amounts Q
    requested : Amounts Q
    used_by : usage_loop lib candidate (no_usage lib) is_ ≡ some used
    asked_by : instance_resource_usage lib candidate ≡ some requested
    compared : first_violation lib limits used requested ≡ result

  evaluate :
      (is_ : List Instance) (limits : Amounts (Option Q)) (candidate : Instance)
      (result : Option (QuotaViolation Q))
      → resource_violation lib is_ limits candidate ≡ some result
      → has_limits limits ≡ true
      → Evaluated is_ limits candidate result
  unfolding resource_violation
  evaluate is_ limits candidate result h some_limit =
      elim (Option-cases (usage_loop lib candidate (no_usage lib) is_)) [
        | inl e ↦ cc (rw (some_limit, e, resource_violation) at h)
        | inr (u, e) ↦ elim (Option-cases (instance_resource_usage lib candidate)) [
          | inl f ↦ cc (rw (some_limit, e, f, resource_violation) at h)
          | inr (r, f) ↦ record {
            used = u;
            requested = r;
            used_by = e;
            asked_by = f;
            compared = cc (rw (some_limit, e, f, resource_violation) at h);
          }
        ]
      ]

  used-reserved :
      (is_ : List Instance) (candidate : Instance) (used : Amounts Q) (d : Dimension)
      → usage_loop lib candidate (no_usage lib) is_ ≡ some used
      → amount (amount_of used d) ≡ reserved candidate d is_
  used-reserved is_ candidate used d h =
      omega (arith, usage_loop-reserved candidate (no_usage lib) is_ used d h, no_usage-amount d)

  -- Nothing is violated.
  pub resource_violation-none :
      (is_ : List Instance) (limits : Amounts (Option Q)) (candidate : Instance) (d : Dimension)
      (l : Q)
      → resource_violation lib is_ limits candidate ≡ some none
      → amount_of limits d ≡ some l
      → reserved candidate d is_ + asked candidate d ≤ amount l
  resource_violation-none is_ limits candidate d l h e = elim (Bool-cases (has_limits limits)) [
    | inr f ↦ cc (e, has_limits-none limits d f)
    | inl f ↦
        let v = evaluate is_ limits candidate none h f in
        omega (
          arith,
          first_violation-Fits limits v.used v.requested v.compared d l e,
          used-reserved is_ candidate v.used d v.used_by,
          asked-some candidate v.requested d v.asked_by,
        )
  ]

  -- If the resource check reports a violation, the reported limit is the limit of the reported
  -- dimension, and it is below what the counted instances and the candidate ask for in that
  -- dimension.
  pub resource_violation-some :
      (is_ : List Instance) (limits : Amounts (Option Q)) (candidate : Instance)
      (v : QuotaViolation Q)
      → resource_violation lib is_ limits candidate ≡ some (some v)
      → (amount_of limits v.dimension ≡ some v.limit)
        × (amount v.limit < reserved candidate v.dimension is_ + asked candidate v.dimension)
  unfolding resource_violation
  resource_violation-some is_ limits candidate v h = elim (Bool-cases (has_limits limits)) [
    | inr f ↦ cc (rw (f, resource_violation) at h)
    | inl f ↦
        let w = evaluate is_ limits candidate (some v) h f in
        let b = first_violation-Breaks limits w.used w.requested v w.compared in
        (
          b.0,
          omega (
            arith,
            b.1,
            used-reserved is_ candidate w.used v.dimension w.used_by,
            asked-some candidate w.requested v.dimension w.asked_by,
          ),
        )
  ]

  -- If the resource check reports no violation for a candidate, what the counted instances of the
  -- namespace and the candidate ask for in a dimension stays within what every ResourceQuota of
  -- the namespace states for it.
  pub within_quotas :
      (quotas : List (Quota Q)) (limits : Amounts (Option Q)) (is_ : List Instance)
      (candidate : Instance) (d : Dimension)
      → namespace_resource_limits lib quotas ≡ some limits
      → resource_violation lib is_ limits candidate ≡ some none
      → All
          (λ quota.
            (q : Q)
            → lookup_quantity quota.hard (quota_key d) ≡ some q
            → reserved candidate d is_ + asked candidate d ≤ amount q)
          quotas
  within_quotas quotas limits is_ candidate d h v =
      All-map
        (λ quota.
          (q : Q)
          → lookup_quantity quota.hard (quota_key d) ≡ some q
          → Below lib amount laws (amount_of limits d) (amount q))
        (λ quota.
          (q : Q)
          → lookup_quantity quota.hard (quota_key d) ≡ some q
          → reserved candidate d is_ + asked candidate d ≤ amount q)
        quotas
        (λ quota below q st.
          let b = below q st in
          omega (arith, b.2, resource_violation-none is_ limits candidate d b.0 v b.1))
        (namespace_resource_limits-lowest lib amount laws quotas limits d h)
