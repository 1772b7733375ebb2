-- ===== src/Store.antt =====
-- What the controllers rely on of the API server: how the objects that a namespace holds change by
-- each write. `stored` is what the server holds in the namespace; nothing is said of its order.
use guestcluster.Api.{Bundle, Instance, Phase, Pool}
use guestcluster.Base.{
  All, Bool, List, SameItems, Text, count_if, false, none, suc, text_eq, true, ℕ, ◌∷◌, ◌≡◌, ◌≤◌,
}
use guestcluster.Kube.{Labels, found}
use guestcluster.Platform.{Server}

-- The counts that look at labels only.
abbrev pub tally : {S : Type 0} → (S → List Instance) → (Labels → Bool) → S → ℕ
tally stored q s = count_if (λ i. q i.meta.labels) (stored s)

-- The object that the server stores for a newly created instance.
pub record IsFresh (i j : Instance) : Type 0 where
  pub same_name : j.meta.name ≡ i.meta.name
  pub same_labels : j.meta.labels ≡ i.meta.labels
  pub same_spec : j.spec ≡ i.spec
  pub no_deletion : j.meta.deletion_timestamp ≡ none
  pub unset_phase : j.status.phase ≡ Phase.unset

-- A create adds the object or, if it is refused, may have added nothing: a timeout tells nothing.
-- A delete removes the named object or marks it, and leaves the others. Writes of other kinds leave
-- the instances alone.
pub record InstanceStore {S Q : Type 0} (srv : Server S Q) (ns : Text) (stored : S → List Instance)
    : Type 0 where
  pub listed : (s : S) (xs : List Instance) → srv.list_instances ns s ≡ found xs → xs ≡ stored s
  pub homed : (s : S) → All (λ i. i.meta.namespace ≡ ns) (stored s)
  pub pool_key :
      (name : Text) (s : S) (p : Pool)
      → srv.cached_pool ns name s ≡ found p
      → (p.meta.namespace ≡ ns) × (p.meta.name ≡ name)
  pub created :
      (i : Instance) (s : S)
      → (srv.create_instance i s).0 ≡ none
      → i.meta.namespace ≡ ns
      → (j : Instance) × IsFresh i j × SameItems (stored (srv.create_instance i s).1) (j ∷ stored s)
  pub create_adds_one :
      (i : Instance) (s : S) (q : Labels → Bool)
      → tally stored q (srv.create_instance i s).1 ≤ suc (tally stored q s)
  pub create_keeps :
      (i : Instance) (s : S) (q : Instance → Bool)
      → count_if q (stored s) ≤ count_if q (stored (srv.create_instance i s).1)
  pub delete_adds_none :
      (n : Text) (s : S) (q : Labels → Bool)
      → tally stored q (srv.delete_instance ns n s).1 ≤ tally stored q s
  pub delete_keeps_others :
      (n : Text) (s : S) (q : Instance → Bool)
      → ((i : Instance) → q i ≡ true → text_eq i.meta.name n ≡ false)
      → count_if q (stored (srv.delete_instance ns n s).1) ≡ count_if q (stored s)
  pub pool_status_keeps : (p : Pool) (s : S) → stored (srv.update_pool_status p s).1 ≡ stored s
  pub bundle_keeps : (b : Bundle) (s : S) → stored (srv.create_bundle b s).1 ≡ stored s
  pub bundle_keeps_quotas :
      (b : Bundle) (s : S) → srv.list_quotas ns (srv.create_bundle b s).1 ≡ srv.list_quotas ns s
  pub bundle_keeps_leases :
      (b : Bundle) (s : S) → srv.list_leases ns (srv.create_bundle b s).1 ≡ srv.list_leases ns s
