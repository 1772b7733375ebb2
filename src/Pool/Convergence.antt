-- ===== src/Pool/Convergence.antt =====
-- How the deficit and the excess of a pool move when an instance is created, bound, deleted or gone:
-- the pool neither creates twice for one deficit nor trims what it needs.
use guestcluster.Api.{PoolSpec}
use guestcluster.Base.{
  Bool, Bool-cases, IsInt32, [], arith, false, if◌then◌else◌, inl, inr, ltb, pos, refl, suc, sym,
  true, zero, ℕ, ◌&&◌, ◌+◌, ◌-◌, ◌||◌, ◌∙◌, ◌≡◌, ◌≤◌,
}
use guestcluster.Pool.Accounting.{Supply, is_positive, pool_need, pool_room}
use guestcluster.Pool.Accounting.Counts.{supply_of}
use guestcluster.Pool.Scaling.{pool_excess}
use guestcluster.Pool.Scaling.Deficit.{
  HasSizes, pool_excess_positive, pool_need_positive, pool_room_positive,
}
use Prim.Native.Nat.{min, max}

-- The numbers of a pool of `t` instances, `a` of them free and `p` coming, with `w` waiting leases.
pub record Census : Type 0 where
  pub total : ℕ
  pub available : ℕ
  pub pending : ℕ
  pub waiting : ℕ

abbrev pub supply_in : Census → Supply
supply_in c = supply_of c.total c.available 0 c.pending 0 []

abbrev pub needs : PoolSpec → Census → Bool
needs spec c = is_positive (pool_need spec (supply_in c) (pos c.waiting))

abbrev pub has_room : PoolSpec → Census → Bool
has_room spec c = is_positive (pool_room spec (supply_in c))

abbrev pub has_excess : PoolSpec → Census → Bool
has_excess spec c = is_positive (pool_excess spec (supply_in c) (pos c.waiting))

-- A create adds an instance that is coming.
abbrev pub with_new : Census → Census
with_new c = record c { total = suc c.total; pending = suc c.pending }

-- The numbers fit an int32.
pub record Fits (c : Census) : Type 0 where
  pub parts : c.available + c.pending ≤ c.total
  pub total_fits : IsInt32 c.total
  pub waiting_fits : IsInt32 c.waiting

module _ (spec : PoolSpec) (mx mn ws : ℕ) (sizes : HasSizes spec mx mn ws) where
  need_test :
      (c : Census)
      → Fits c
      → needs spec c ≡ (
          ltb c.total mn
          || (ltb (c.available + c.pending) ws || ltb (c.available + c.pending) c.waiting))
  need_test c f =
      pool_need_positive spec mx mn ws c.total c.available 0 c.pending 0 c.waiting [] sizes
        (omega arith) f.parts f.waiting_fits

  excess_test :
      (c : Census)
      → Fits c
      → has_excess spec c ≡ (ltb ws c.available && ltb c.waiting c.available && ltb mn c.total)
  excess_test c f =
      pool_excess_positive spec mx mn ws c.total c.available 0 c.pending 0 c.waiting [] sizes
        (omega arith) (omega arith) f.waiting_fits

  room_test : (c : Census) → Fits c → has_room spec c ≡ ltb c.total mx
  room_test c f =
      pool_room_positive spec mx mn ws c.total c.available 0 c.pending 0 c.waiting [] sizes
        (omega arith)

  -- The creates that a pool makes, one for each reconcile, with nothing else happening.
  unfoldable pub top_up : ℕ → Census → Census
  top_up zero c = c
  top_up (suc rounds) c = if needs spec c && has_room spec c then top_up rounds (with_new c) else c

  -- Once nothing is to be created, nothing more is.
  pub top_up-stays :
      (rounds : ℕ) (c : Census) → (needs spec c && has_room spec c) ≡ false → top_up rounds c ≡ c
  unfolding top_up
  top_up-stays zero c e = refl
  top_up-stays (suc rounds) c e = rw e refl

  -- The creates that are missing, and those that there is room for.
  abbrev pub missing : Census → ℕ
  missing c =
      min
        (max (mn - c.total)
          (max (ws - (c.available + c.pending)) (c.waiting - (c.available + c.pending))))
        (mx - c.total)

  tops_up : (c : Census) → Fits c → (needs spec c && has_room spec c) ≡ ltb 0 (missing c)
  tops_up c f = rw (need_test c f, room_test c f) (ground arith)

  with_new-Fits : (c : Census) → Fits c → has_room spec c ≡ true → Fits (with_new c)
  with_new-Fits c f r =
      let below = sym (room_test c f) ∙ r in
      record {
        parts = omega (arith, f.parts);
        total_fits = ground (arith, sizes.max_fits, below);
        waiting_fits = f.waiting_fits;
      }

  -- The instance that a need asks for makes no excess.
  pub with_new-no_excess :
      (c : Census)
      → Fits c
      → needs spec c ≡ true
      → has_room spec c ≡ true
      → has_excess spec (with_new c) ≡ false
  with_new-no_excess c f n r =
      rw (excess_test (with_new c) (with_new-Fits c f r))
        (ground (arith, sym (need_test c f) ∙ n, f.parts))

  -- The rounds create what is missing, one each.
  pub top_up_exact :
      (rounds : ℕ) (c : Census)
      → Fits c
      → ((top_up rounds c).total ≡ c.total + min rounds (missing c))
        × ((top_up rounds c).pending ≡ c.pending + min rounds (missing c))
        × ((top_up rounds c).available ≡ c.available)
        × ((top_up rounds c).waiting ≡ c.waiting)
  unfolding top_up
  top_up_exact zero c f = (omega arith, omega arith, refl, refl)
  top_up_exact (suc rounds) c f = elim (Bool-cases (ltb 0 (missing c))) [
    | inr e ↦ rw (tops_up c f ∙ e) (ground arith, ground arith, refl, refl)
    | inl e ↦ rw (tops_up c f ∙ e) (
        let r = top_up_exact rounds (with_new c) (record {
          parts = omega (arith, f.parts);
          total_fits = ground (arith, sizes.max_fits);
          waiting_fits = f.waiting_fits;
        }) in
        (ground (arith, r.0), ground (arith, r.1), r.2, r.3))
  ]

  pub excess-no_need : (c : Census) → Fits c → has_excess spec c ≡ true → needs spec c ≡ false
  excess-no_need c f h = rw (need_test c f) (ground (arith, sym (excess_test c f) ∙ h, f.parts))

  -- One instance less, where there was an excess, leaves no need.
  pub trimmed-no_need :
      (c c' : Census)
      → Fits c
      → Fits c'
      → has_excess spec c ≡ true
      → c.total ≤ suc c'.total
      → c.available + c.pending ≤ suc (c'.available + c'.pending)
      → c'.waiting ≡ c.waiting
      → needs spec c' ≡ false
  trimmed-no_need c c' f f' h t ap_ w =
      rw (need_test c' f') (ground (arith, sym (excess_test c f) ∙ h, f.parts))

  -- For a pool with sizes in int32 and numbers that fit, a need excludes an excess, so that the
  -- reconcile that creates does not also trim.
  pub create_causes_no_trim :
      (c : Census) → Fits c → needs spec c ≡ true → has_excess spec c ≡ false
  create_causes_no_trim c f h =
      rw (excess_test c f) (ground (arith, sym (need_test c f) ∙ h, f.parts))
