-- ===== src/Pool/Scaling/Deficit.antt =====
-- The signs of need, room and excess, for pools whose numbers fit an int32: no difference wraps.
use guestcluster.Api.{Instance, PoolSpec}
use guestcluster.Base.{
  IsInt32, List, arith, ltb, max_ℤ, pos, sub_ℕ, wrap32, ℕ, ◌&&◌, ◌+ℤ◌, ◌+◌, ◌-₃₂◌, ◌-ℤ◌, ◌||◌, ◌≡◌,
  ◌≤◌,
}
use guestcluster.Pool.Accounting.{is_positive, pool_need, pool_room}
use guestcluster.Pool.Accounting.Counts.{supply_of}
use guestcluster.Pool.Scaling.{pool_excess}

pub -₃₂-sub_ℕ : (x y : ℕ) → IsInt32 x → IsInt32 y → pos x -₃₂ pos y ≡ sub_ℕ x y
unfolding ◌-₃₂◌ wrap32 ◌-ℤ◌
-₃₂-sub_ℕ x y hx hy = ground arith

wrap32-sum : (x y : ℕ) → IsInt32 (x + y) → wrap32 (pos x +ℤ pos y) ≡ pos (x + y)
unfolding wrap32 ◌+ℤ◌
wrap32-sum x y h = ground arith

-- The numbers of a pool's spec, as the CRD admits them.
pub record HasSizes (spec : PoolSpec) (mx mn ws : ℕ) : Type 0 where
  pub max_eq : spec.max_size ≡ pos mx
  pub min_eq : spec.min_size ≡ pos mn
  pub spares_eq : spec.warm_spares ≡ pos ws
  pub max_fits : IsInt32 mx
  pub min_fits : IsInt32 mn
  pub spares_fit : IsInt32 ws

module _ (spec : PoolSpec) (mx mn ws t a l p d w : ℕ) (free : List Instance) where
  -- The largest of the three deficits, as an integer.
  pub pool_need-eq :
      HasSizes spec mx mn ws
      → IsInt32 t
      → a + p ≤ t
      → IsInt32 w
      → pool_need spec (supply_of t a l p d free) (pos w)
        ≡ max_ℤ (max_ℤ (sub_ℕ mn t) (sub_ℕ ws (a + p))) (sub_ℕ w (a + p))
  unfolding pool_need
  pool_need-eq sizes ht h hw =
      rw (sizes.min_eq, sizes.spares_eq)
        (rw (
          wrap32-sum a p (omega arith),
          -₃₂-sub_ℕ mn t sizes.min_fits ht,
          -₃₂-sub_ℕ ws (a + p) sizes.spares_fit (omega arith),
          -₃₂-sub_ℕ w (a + p) hw (omega arith),
        ))

  -- The pool needs an instance exactly if one of the three floors is not reached.
  pub pool_need_positive :
      HasSizes spec mx mn ws
      → IsInt32 t
      → a + p ≤ t
      → IsInt32 w
      → is_positive (pool_need spec (supply_of t a l p d free) (pos w))
        ≡ (ltb t mn || (ltb (a + p) ws || ltb (a + p) w))
  unfolding is_positive
  pool_need_positive sizes ht h hw = rw (pool_need-eq sizes ht h hw) (ground arith)

  -- There is room exactly below maxSize.
  pub pool_room_positive :
      HasSizes spec mx mn ws
      → IsInt32 t
      → is_positive (pool_room spec (supply_of t a l p d free)) ≡ ltb t mx
  unfolding pool_room is_positive
  pool_room_positive sizes ht =
      rw sizes.max_eq (rw (-₃₂-sub_ℕ mx t sizes.max_fits ht) (ground arith))

  -- There is excess exactly if both floors leave something.
  pub pool_excess_positive :
      HasSizes spec mx mn ws
      → IsInt32 t
      → a ≤ t
      → IsInt32 w
      → is_positive (pool_excess spec (supply_of t a l p d free) (pos w))
        ≡ (ltb ws a && ltb w a && ltb mn t)
  unfolding pool_excess is_positive
  pool_excess_positive sizes ht h hw =
      rw (sizes.min_eq, sizes.spares_eq)
        (ground (
          arith,
          -₃₂-sub_ℕ a ws (omega arith) sizes.spares_fit,
          -₃₂-sub_ℕ a w (omega arith) hw,
          -₃₂-sub_ℕ t mn ht sizes.min_fits,
        ))
