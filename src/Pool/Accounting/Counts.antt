-- ===== src/Pool/Accounting/Counts.antt =====
-- What the two accounting loops of the pool controller count.
use guestcluster.Api.{Instance, Lease, LeasePhase, Phase}
use guestcluster.Base.{
  Bool, Bool-cases, IsInt32, List, Text, [], any_if, ap, arith, count_if, false, if◌then◌else◌,
  inc32-pos, inl, inr, keep_if, length, none, not, pos, refl, some, suc, sym, text_eq, true, ℕ,
  ◌&&◌, ◌++◌, ◌+ℤ◌, ◌+◌, ◌||◌, ◌∙◌, ◌∷◌, ◌≡◌, ◌≤◌,
}
use guestcluster.Kube.{is_deleting}
use guestcluster.Pool.Accounting.{
  LeaseAccounting, Supply, account_instance, account_lease, add_claim, compute_instance_accounting,
  compute_lease_accounting, instance_accounting_loop, is_claimed, lease_accounting_loop,
  phase_waits,
}
use native.Mathlib.Nat.{add-zero, zero-add}
use mathlib.Core.List.{append-nil, append_assoc}

abbrev pub is_ready_phase : Phase → Bool
is_ready_phase Phase.ready = true
is_ready_phase _ = false

abbrev pub is_failed_phase : Phase → Bool
is_failed_phase Phase.failed = true
is_failed_phase _ = false

abbrev pub phase_comes : Phase → Bool
phase_comes Phase.unset = true
phase_comes Phase.provisioning = true
phase_comes Phase.terminating = true
phase_comes _ = false

-- A Ready instance that no lease names.
unfoldable pub is_free : List Text → Instance → Bool
is_free claimed i =
    not (is_deleting i.meta)
    && (is_ready_phase i.status.phase && not (is_claimed claimed i.meta.name))

-- A Ready instance that a lease names.
unfoldable pub is_in_use : List Text → Instance → Bool
is_in_use claimed i =
    not (is_deleting i.meta) && (is_ready_phase i.status.phase && is_claimed claimed i.meta.name)

-- An instance that is on its way to Ready, or on its way out.
unfoldable pub is_coming : Instance → Bool
is_coming i = is_deleting i.meta || phase_comes i.status.phase

-- A Failed instance.
unfoldable pub is_broken : Instance → Bool
is_broken i = not (is_deleting i.meta) && is_failed_phase i.status.phase

-- A new or a Pending lease.
abbrev pub asks : LeasePhase → Bool
asks LeasePhase.unset = true
asks LeasePhase.pending = true
asks _ = false

-- A lease that still waits for an instance of the pool.
unfoldable pub is_waiting : Text → Lease → Bool
is_waiting pool_name l =
    not (is_deleting l.meta) && (text_eq l.spec.pool_ref pool_name && asks l.status.phase)

-- A lease that names the instance.
unfoldable pub names_instance : Text → Lease → Bool
names_instance name l = elim l.status.instance_ref [ none ↦ false | some n ↦ text_eq n name ]

abbrev pub bit : Bool → ℕ
bit true = 1
bit false = 0

abbrev pub supply_of : ℕ → ℕ → ℕ → ℕ → ℕ → List Instance → Supply
supply_of t a l p d free = record {
  total = pos t;
  available = pos a;
  leased = pos l;
  pending = pos p;
  terminating = pos d;
  available_instances = free;
}

supply_of_eq :
    {t t' a a' l l' p p' d d' : ℕ} {free free' : List Instance}
    → t ≡ t'
    → a ≡ a'
    → l ≡ l'
    → p ≡ p'
    → d ≡ d'
    → free ≡ free'
    → supply_of t a l p d free ≡ supply_of t' a' l' p' d' free'
supply_of_eq et ea el ep ed ef = cc

count_if-cons :
    {A : Type 0} (p : A → Bool) (x : A) (xs : List A)
    → count_if p (x ∷ xs) ≡ bit (p x) + count_if p xs
unfolding count_if
count_if-cons p x xs = ground arith

keep_if-cons :
    {A : Type 0} (p : A → Bool) (x : A) (ys xs : List A)
    → ys ++ keep_if p (x ∷ xs) ≡ (ys ++ (if p x then x ∷ [] else [])) ++ keep_if p xs
unfolding keep_if
keep_if-cons p x ys xs = elim (Bool-cases (p x)) [
  | inl e ↦ rw e (sym (append_assoc ys (x ∷ []) (keep_if p xs)))
  | inr e ↦ rw (e, append-nil) refl
]

account_instance-supply_of :
    (claimed : List Text) (t a l p d : ℕ) (free : List Instance) (i : Instance)
    → IsInt32 (suc t)
    → a ≤ t
    → l ≤ t
    → p ≤ t
    → d ≤ t
    → account_instance claimed (supply_of t a l p d free) i
      ≡ supply_of
          (suc t)
          (a + bit (is_free claimed i))
          (l + bit (is_in_use claimed i))
          (p + bit (is_coming i))
          (d + bit (is_deleting i.meta))
          (free ++ (if is_free claimed i then i ∷ [] else []))
unfolding account_instance is_free is_in_use is_coming
account_instance-supply_of claimed t a l p d free i h ha hl hp hd =
    ground (arith, inc32-pos t, inc32-pos a, inc32-pos l, inc32-pos p, inc32-pos d, append-nil free)

bit-le : (b : Bool) → bit b ≤ 1
bit-le true = omega arith
bit-le false = omega arith

instance_accounting_loop-supply_of :
    (claimed : List Text) (is_ : List Instance) (t a l p d : ℕ) (free : List Instance)
    → IsInt32 (t + length is_)
    → a ≤ t
    → l ≤ t
    → p ≤ t
    → d ≤ t
    → instance_accounting_loop claimed (supply_of t a l p d free) is_
      ≡ supply_of
          (t + length is_)
          (a + count_if (is_free claimed) is_)
          (l + count_if (is_in_use claimed) is_)
          (p + count_if is_coming is_)
          (d + count_if (λ i. is_deleting i.meta) is_)
          (free ++ keep_if (is_free claimed) is_)
unfolding instance_accounting_loop count_if keep_if
instance_accounting_loop-supply_of claimed [] t a l p d free h ha hl hp hd =
    simp (append-nil, add-zero)
instance_accounting_loop-supply_of claimed (i ∷ is_) t a l p d free h ha hl hp hd =
    ap (λ acc. instance_accounting_loop claimed acc is_)
      (account_instance-supply_of claimed t a l p d free i (omega arith) ha hl hp hd)
    ∙ (instance_accounting_loop-supply_of claimed is_ (suc t) (a + bit (is_free claimed i))
          (l + bit (is_in_use claimed i)) (p + bit (is_coming i)) (d + bit (is_deleting i.meta))
          (free ++ (if is_free claimed i then i ∷ [] else [])) (omega arith)
          (omega (arith, bit-le (is_free claimed i))) (omega (arith, bit-le (is_in_use claimed i)))
          (omega (arith, bit-le (is_coming i))) (omega (arith, bit-le (is_deleting i.meta)))
        ∙ supply_of_eq (omega arith) (regroup a (is_free claimed)) (regroup l (is_in_use claimed))
            (regroup p is_coming) (regroup d (λ j. is_deleting j.meta))
            (sym (keep_if-cons (is_free claimed) i free is_)))
  where
    regroup :
        (n : ℕ) (q : Instance → Bool) → n + bit (q i) + count_if q is_ ≡ n + count_if q (i ∷ is_)
    regroup n q = omega (arith, count_if-cons q i is_)

-- If the list fits an int32, the accounting of instances returns its length, the numbers of the
-- free ones, of those in use, of those that come or go and of those being deleted, and the list
-- of the free ones in their order.
pub compute_instance_accounting-supply_of :
    (is_ : List Instance) (claimed : List Text)
    → IsInt32 (length is_)
    → compute_instance_accounting is_ claimed
      ≡ supply_of
          (length is_)
          (count_if (is_free claimed) is_)
          (count_if (is_in_use claimed) is_)
          (count_if is_coming is_)
          (count_if (λ i. is_deleting i.meta) is_)
          (keep_if (is_free claimed) is_)
unfolding compute_instance_accounting
compute_instance_accounting-supply_of is_ claimed h =
    instance_accounting_loop-supply_of claimed is_ 0 0 0 0 0 [] (rw zero-add h) (omega arith)
      (omega arith) (omega arith) (omega arith)
    ∙ supply_of_eq (zero-add _) (zero-add _) (zero-add _) (zero-add _) (zero-add _) refl

-- Every instance is free, in use, coming or going, or failed, and only one of these.
partition_of_total :
    (claimed : List Text) (is_ : List Instance)
    → count_if (is_free claimed) is_
        + count_if (is_in_use claimed) is_
        + (count_if is_coming is_ + count_if is_broken is_)
      ≡ length is_
unfolding count_if is_free is_in_use is_coming is_broken
partition_of_total claimed [] = refl
partition_of_total claimed (i ∷ is_) = ground (arith, partition_of_total claimed is_)

pos-add : (m n : ℕ) → pos m +ℤ pos n ≡ pos (m + n)
unfolding ◌+ℤ◌
pos-add m n = ground arith

-- If the list fits an int32, the total that the accounting of instances returns is the sum of its
-- available, its leased and its pending count and of the number of Failed instances that are not
-- being deleted: no instance counts in two of these, and none in none.
pub compute_instance_accounting-total :
    (is_ : List Instance) (claimed : List Text)
    → IsInt32 (length is_)
    → let supply = compute_instance_accounting is_ claimed in
      supply.total
      ≡ supply.available +ℤ supply.leased +ℤ supply.pending +ℤ pos (count_if is_broken is_)
compute_instance_accounting-total is_ claimed h =
    let a = count_if (is_free claimed) is_ in
    let l = count_if (is_in_use claimed) is_ in
    let p = count_if is_coming is_ in
    rw
      (
        compute_instance_accounting-supply_of is_ claimed h,
        pos-add a l,
        pos-add (a + l) p,
        pos-add (a + l + p) (count_if is_broken is_),
      )
      (ap pos (omega (arith, partition_of_total claimed is_)))

phase_waits-asks : (p : LeasePhase) → phase_waits p ≡ asks p
phase_waits-asks LeasePhase.bound = refl
phase_waits-asks LeasePhase.releasing = refl
phase_waits-asks LeasePhase.released = refl
phase_waits-asks LeasePhase.failed = refl
phase_waits-asks LeasePhase.unset = refl
phase_waits-asks LeasePhase.pending = refl

account_lease-counts :
    (pool_name : Text) (claimed : List Text) (n : ℕ) (l : Lease)
    → IsInt32 (suc n)
    → account_lease pool_name (record { claimed = claimed; pending_demand = pos n }) l ≡ record {
      claimed = add_claim l.status.instance_ref claimed;
      pending_demand = pos (n + bit (is_waiting pool_name l));
    }
unfolding account_lease is_waiting
account_lease-counts pool_name claimed n l h =
    ground (arith, inc32-pos n, phase_waits-asks l.status.phase)

-- The names that the leases claim, the last first, in front of those already known.
unfoldable pub claims_of : List Text → List Lease → List Text
claims_of claimed [] = claimed
claims_of claimed (l ∷ ls) = claims_of (add_claim l.status.instance_ref claimed) ls

lease_accounting_loop-counts :
    (pool_name : Text) (ls : List Lease) (claimed : List Text) (n : ℕ)
    → IsInt32 (n + length ls)
    → lease_accounting_loop pool_name (record { claimed = claimed; pending_demand = pos n }) ls
      ≡ record {
        claimed = claims_of claimed ls;
        pending_demand = pos (n + count_if (is_waiting pool_name) ls);
      }
unfolding lease_accounting_loop claims_of count_if
lease_accounting_loop-counts pool_name [] claimed n h = rw add-zero refl
lease_accounting_loop-counts pool_name (l ∷ ls) claimed n h =
    ap (λ acc. lease_accounting_loop pool_name acc ls)
      (account_lease-counts pool_name claimed n l (omega arith))
    ∙ (lease_accounting_loop-counts pool_name ls (add_claim l.status.instance_ref claimed)
          (n + bit (is_waiting pool_name l)) (omega (arith, bit-le (is_waiting pool_name l)))
        ∙ accounting_eq (omega (arith, count_if-cons (is_waiting pool_name) l ls)))
  where
    accounting_eq :
        {c : List Text} {m k : ℕ}
        → m ≡ k
        → ◌≡◌ {A = LeaseAccounting}
            (record { claimed = c; pending_demand = pos m })
            (record { claimed = c; pending_demand = pos k })
    accounting_eq e = rw e refl

-- The claimed names and the demand.
pub compute_lease_accounting-counts :
    (ls : List Lease) (pool_name : Text)
    → IsInt32 (length ls)
    → compute_lease_accounting ls pool_name ≡ record {
      claimed = claims_of [] ls;
      pending_demand = pos (count_if (is_waiting pool_name) ls);
    }
unfolding compute_lease_accounting
compute_lease_accounting-counts ls pool_name h =
    lease_accounting_loop-counts pool_name ls [] 0 (rw zero-add h)
    ∙ ap (λ k. record { claimed = claims_of [] ls; pending_demand = pos k }) (zero-add _)

is_claimed-claims_of_from :
    (ls : List Lease) (claimed : List Text) (name : Text)
    → is_claimed (claims_of claimed ls) name
      ≡ (is_claimed claimed name || any_if (names_instance name) ls)
unfolding claims_of is_claimed add_claim names_instance
is_claimed-claims_of_from [] claimed name = ground arith
is_claimed-claims_of_from (l ∷ ls) claimed name =
    is_claimed-claims_of_from ls (add_claim l.status.instance_ref claimed) name ∙ step
  where
    step :
        (is_claimed (add_claim l.status.instance_ref claimed) name
          || any_if (names_instance name) ls)
        ≡ (is_claimed claimed name || any_if (names_instance name) (l ∷ ls))
    step = ground arith

-- A name counts as claimed exactly if some lease of the list names it, in whatever phase the
-- lease is and also if it is being deleted.
pub is_claimed-claims_of :
    (ls : List Lease) (name : Text)
    → is_claimed (claims_of [] ls) name ≡ any_if (names_instance name) ls
unfolding is_claimed
is_claimed-claims_of ls name = is_claimed-claims_of_from ls [] name

-- If the list fits an int32, the accounting of leases takes a name as claimed exactly if some
-- lease of the list names it, whatever the phase of that lease is and also if it is being
-- deleted; and its demand is the number of leases of the pool that are new or Pending and not
-- being deleted.
pub compute_lease_accounting-any_if :
    (ls : List Lease) (pool_name name : Text)
    → IsInt32 (length ls)
    → let accounting = compute_lease_accounting ls pool_name in
      (is_claimed accounting.claimed name ≡ any_if (names_instance name) ls)
      × (accounting.pending_demand ≡ pos (count_if (is_waiting pool_name) ls))
compute_lease_accounting-any_if ls pool_name name h =
    rw (compute_lease_accounting-counts ls pool_name h) (is_claimed-claims_of ls name, refl)

account_lease-claimed :
    (pool_name : Text) (acc : LeaseAccounting) (l : Lease)
    → (account_lease pool_name acc l).claimed ≡ add_claim l.status.instance_ref acc.claimed
unfolding account_lease
account_lease-claimed pool_name acc l = ground arith

lease_accounting_loop-claimed :
    (pool_name : Text) (acc : LeaseAccounting) (ls : List Lease)
    → (lease_accounting_loop pool_name acc ls).claimed ≡ claims_of acc.claimed ls
unfolding lease_accounting_loop claims_of
lease_accounting_loop-claimed pool_name acc [] = refl
lease_accounting_loop-claimed pool_name acc (l ∷ ls) =
    lease_accounting_loop-claimed pool_name (account_lease pool_name acc l) ls
    ∙ ap (λ c. claims_of c ls) (account_lease-claimed pool_name acc l)

-- The claimed names do not depend on the size of the counter.
pub compute_lease_accounting-claimed :
    (ls : List Lease) (pool_name : Text)
    → (compute_lease_accounting ls pool_name).claimed ≡ claims_of [] ls
unfolding compute_lease_accounting
compute_lease_accounting-claimed ls pool_name = lease_accounting_loop-claimed pool_name _ ls
