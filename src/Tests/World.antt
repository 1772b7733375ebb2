-- ===== src/Tests/World.antt =====
-- A concrete API server with its laws, for the examples: lists of objects that every read sees.
use guestcluster.Api.{Instance, Lease, Pool, Secret, new_instance_status}
use guestcluster.Base.{
  All, Bool, Bool-cases, List, Option, SameItems, Text, [], any_if, arith, atoi, codes, count_if,
  false, if◌then◌else◌, inl, inr, keep_if, ltb, negsuc, none, not, pos, refl, some, suc, text_eq,
  text_eq→eq, true, ℕ, ℤ, ◌&&◌, ◌*◌, ◌+◌, ◌∷◌, ◌≡◌, ◌≤◌,
}
use guestcluster.Kube.{
  ApiError, Labels, Meta, Reply, already_exists, contains_finalizer, found, named, not_found,
  refused,
}
use guestcluster.Platform.{Library, Server}
use guestcluster.Store.{InstanceStore, IsFresh, tally}
use mathlib.Core.Option

pub record World : Type 0 where
  pub instances : List Instance
  pub leases : List Lease
  pub pools : List Pool
  pub secrets : List Secret

abbrev pub home : Text
home = codes "ci"

abbrev pub in_namespace : Text → Instance → Bool
in_namespace ns i = text_eq i.meta.namespace ns

abbrev pub is_called : Text → Text → Instance → Bool
is_called ns name i = text_eq i.meta.namespace ns && text_eq i.meta.name name

abbrev pub stored : World → List Instance
stored w = keep_if (in_namespace home) w.instances

abbrev pub find : {A : Type 0} → (A → Meta) → Text → Text → List A → Reply A
find meta ns name [] = refused not_found
find meta ns name (x ∷ xs) =
    if text_eq (meta x).namespace ns && text_eq (meta x).name name
    then found x
    else find meta ns name xs

-- The object that a create stores.
abbrev fresh : Instance → Instance
fresh i = record i {
  meta = record i.meta { deletion_timestamp = none };
  status = new_instance_status;
}

-- The Secret that a create stores: the server assigns the uid and the time.
abbrev pub assigned : Secret → Secret
assigned x = record x { meta = record x.meta { uid = codes "1"; creation_timestamp = pos 1 } }

abbrev create : Instance → World → Option ApiError × World
create i w =
    if any_if (is_called i.meta.namespace i.meta.name) w.instances
    then (some already_exists, w)
    else (none, record w { instances = fresh i ∷ w.instances })

abbrev delete : Text → Text → World → Option ApiError × World
delete ns name w =
    (none, record w { instances = keep_if (λ i. not (is_called ns name i)) w.instances })

abbrev replace : (World → World) → World → Option ApiError × World
replace f w = (none, f w)

abbrev pub put_at : Text → Text → Lease → List Lease → List Lease
put_at ns name l [] = []
put_at ns name l (k ∷ ks) =
    if text_eq k.meta.namespace ns && text_eq k.meta.name name
    then l ∷ ks
    else k ∷ put_at ns name l ks

abbrev pub put_lease : Lease → List Lease → List Lease
put_lease l ls = put_at l.meta.namespace l.meta.name l ls

-- A lease that has a finalizer is marked by a delete.
abbrev marked : Lease → Lease
marked l = record l { meta = record l.meta { deletion_timestamp = some (pos 1) } }

abbrev pub world_server : Server World ℕ
world_server = record {
  cached_pool = λ ns name w. find (λ (p : Pool). p.meta) ns name w.pools;
  cached_instance = λ ns name w. find (λ (i : Instance). i.meta) ns name w.instances;
  cached_bundle = λ name w. refused not_found;
  cached_claims = λ ns name w. found w.leases;
  cached_secret = λ ns name w. find (λ (x : Secret). x.meta) ns name w.secrets;
  cached_leases = λ ns w. found w.leases;
  get_namespace = λ ns w. found (record {
    meta = record (named [] ns) {
      labels = (codes "guestcluster.opdev.io/enabled", codes "true") ∷ [];
    };
    is_terminating = false;
  });
  list_instances = λ ns w. found (keep_if (in_namespace ns) w.instances);
  list_quotas = λ ns w. found [];
  list_leases = λ ns w. found w.leases;
  get_lease = λ ns name w. find (λ (l : Lease). l.meta) ns name w.leases;
  get_secret = λ ns name w. find (λ (x : Secret). x.meta) ns name w.secrets;
  create_instance = create;
  delete_instance = delete;
  update_instance = λ i. replace (λ w. w);
  update_instance_status = λ i. replace (λ w. w);
  update_pool_status = λ p. replace (λ w. w);
  create_bundle = λ b. replace (λ w. w);
  create_secret = λ x. replace (λ w. record w { secrets = assigned x ∷ w.secrets });
  update_secret = λ x. replace (λ w. record w { secrets = x ∷ w.secrets });
  update_lease = λ l. replace (λ w. record w { leases = put_lease l w.leases });
  update_lease_status = λ l. replace (λ w. record w { leases = put_lease l w.leases });
  delete_lease = λ l. replace (λ w. record w { leases = put_lease (marked l) w.leases });
}

abbrev from_ℤ : ℤ → ℕ
from_ℤ (pos n) = n
from_ℤ (negsuc n) = 0

abbrev pub world_library : Library ℕ
world_library = record {
  set_condition = λ cs c. c ∷ cs;
  remove_condition = λ cs t. cs;
  same_pool_status = λ a b. false;
  same_instance_status = λ a b. false;
  same_lease_status = λ a b. false;
  set_controller_reference = λ owner m. some (record m { owners = owner.name ∷ m.owners });
  is_controlled_by = λ m owner. contains_finalizer m.owners owner.name;
  parse_quantity = λ t. Option.map from_ℤ (atoi t);
  new_quantity = from_ℤ;
  zero_quantity = 0;
  as_int64 = λ q. some (pos q);
  quantity_value = λ q. pos q;
  quantity_lt = ltb;
  quantity_add = λ a b. a + b;
  quantity_mul = λ a z. some (a * from_ℤ z);
}

pub count_if-delete :
    (p r q : Instance → Bool) (xs : List Instance)
    → count_if p (keep_if r (keep_if q xs)) ≤ count_if p (keep_if r xs)
unfolding count_if keep_if
count_if-delete p r q [] = omega arith
count_if-delete p r q (x ∷ xs) = ground (arith, count_if-delete p r q xs)

count_if-delete_other :
    (p r : Instance → Bool) (n : Text) (xs : List Instance)
    → ((i : Instance) → p i ≡ true → text_eq i.meta.name n ≡ false)
    → count_if p (keep_if r (keep_if (λ i. not (is_called home n i)) xs))
      ≡ count_if p (keep_if r xs)
unfolding count_if keep_if
count_if-delete_other p r n [] h = refl
count_if-delete_other p r n (x ∷ xs) h = ground (arith, count_if-delete_other p r n xs h, h x)

created_law :
    (i : Instance) (w : World)
    → (create i w).0 ≡ none
    → i.meta.namespace ≡ home
    → (j : Instance) × IsFresh i j × SameItems (stored (create i w).1) (j ∷ stored w)
unfolding keep_if count_if text_eq
created_law i w ok at_home =
    elim (Bool-cases (any_if (is_called i.meta.namespace i.meta.name) w.instances)) [
      | inl e ↦ ground arith
      | inr e ↦ rw e (
        fresh i,
        record {
          same_name = refl;
          same_labels = refl;
          same_spec = refl;
          no_deletion = refl;
          unset_phase = refl;
        },
        λ q. rw at_home refl,
      )
    ]

adds_one_law :
    (i : Instance) (w : World) (q : Labels → Bool)
    → tally stored q (create i w).1 ≤ suc (tally stored q w)
unfolding keep_if count_if
adds_one_law i w q = ground arith

keeps_law :
    (i : Instance) (w : World) (q : Instance → Bool)
    → count_if q (stored w) ≤ count_if q (stored (create i w).1)
unfolding keep_if count_if
keeps_law i w q = ground arith

homed_law :
    (xs : List Instance) → All (λ i. i.meta.namespace ≡ home) (keep_if (in_namespace home) xs)
unfolding keep_if
homed_law [] = tt
homed_law (x ∷ xs) = elim (Bool-cases (in_namespace home x)) [
  | inl e ↦ rw e (text_eq→eq x.meta.namespace home e, homed_law xs)
  | inr e ↦ rw e (homed_law xs)
]

key_law :
    (ns name : Text) (ps : List Pool) (p : Pool)
    → find (λ (p : Pool). p.meta) ns name ps ≡ found p
    → (p.meta.namespace ≡ ns) × (p.meta.name ≡ name)
key_law ns name [] p h = ground arith
key_law ns name (x ∷ ps) p h =
    elim (Bool-cases (text_eq x.meta.namespace ns && text_eq x.meta.name name)) [
      | inl e ↦
          let same_pool : x ≡ p = cc (rw e at h) in
          let named_so : text_eq x.meta.namespace ns ≡ true = ground arith in
          let called_so : text_eq x.meta.name name ≡ true = ground arith in
          rw (← same_pool)
            (text_eq→eq x.meta.namespace ns named_so, text_eq→eq x.meta.name name called_so)
      | inr e ↦ key_law ns name ps p (rw e at h)
    ]

pub world-InstanceStore : InstanceStore world_server home stored
world-InstanceStore = record {
  listed = λ w xs h. ground arith;
  homed = λ w. homed_law w.instances;
  pool_key = λ name w p h. key_law home name w.pools p h;
  created = created_law;
  create_adds_one = adds_one_law;
  create_keeps = keeps_law;
  delete_adds_none = λ n w q.
      count_if-delete (λ i. q i.meta.labels) (in_namespace home) (λ i. not (is_called home n i))
        w.instances;
  delete_keeps_others = λ n w q h. count_if-delete_other q (in_namespace home) n w.instances h;
  pool_status_keeps = λ p w. refl;
  bundle_keeps = λ b w. refl;
  bundle_keeps_quotas = λ b w. refl;
  bundle_keeps_leases = λ b w. refl;
}
