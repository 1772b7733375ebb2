-- ===== src/Lease/Laws.antt =====
-- What the lease controller relies on of the API server: how the leases of a namespace change by
-- each write. `leases` is what the server holds; nothing is said of its order.
use guestcluster.Api.{Lease, Secret}
use guestcluster.Base.{List, SameItems, Text, ◌∷◌, ◌≡◌}
use guestcluster.Kube.{found}
use guestcluster.Platform.{Server}

-- A write of `l'`, where `l` is what is stored. It may be refused or lost; the server may fill in
-- the metadata; and it removes an object that is being deleted when its last finalizer is gone.
pub data LeaseWrite (l l' : Lease) (xs ys : List Lease) : Type 0 where
  lost : ys ≡ xs → LeaseWrite l l' xs ys
  stored_as :
      (rest : List Lease) (m : Lease)
      → SameItems xs (l ∷ rest)
      → SameItems ys (m ∷ rest)
      → m.spec ≡ l'.spec
      → m.status ≡ l'.status
      → LeaseWrite l l' xs ys
  gone : (rest : List Lease) → SameItems xs (l ∷ rest) → SameItems ys rest → LeaseWrite l l' xs ys

-- `l` was read in the state `t`, and no lease has changed since then.
pub record IsCurrent {S Q : Type 0} (srv : Server S Q) (ns : Text) (leases : S → List Lease)
    (l : Lease) (t s : S) : Type 0 where
  pub name : Text
  pub was_read : srv.get_lease ns name t ≡ found l
  pub unchanged : leases s ≡ leases t

pub record LeaseStore {S Q : Type 0} (srv : Server S Q) (ns : Text) (leases : S → List Lease)
    : Type 0 where
  pub leases_listed : (s : S) (xs : List Lease) → srv.list_leases ns s ≡ found xs → xs ≡ leases s
  pub lease_key :
      (name : Text) (s : S) (l : Lease)
      → srv.get_lease ns name s ≡ found l
      → (l.meta.namespace ≡ ns) × (l.meta.name ≡ name)
  pub lease_written :
      (l l' : Lease) (t s : S)
      → IsCurrent srv ns leases l t s
      → l'.meta.namespace ≡ l.meta.namespace
      → l'.meta.name ≡ l.meta.name
      → l'.status ≡ l.status
      → LeaseWrite l l' (leases s) (leases (srv.update_lease l' s).1)
  pub lease_status_written :
      (l l' : Lease) (t s : S)
      → IsCurrent srv ns leases l t s
      → l'.meta ≡ l.meta
      → l'.spec ≡ l.spec
      → LeaseWrite l l' (leases s) (leases (srv.update_lease_status l' s).1)
  pub lease_deleted :
      (l : Lease) (t s : S)
      → IsCurrent srv ns leases l t s
      → LeaseWrite l l (leases s) (leases (srv.delete_lease l s).1)
  pub secret_created : (x : Secret) (s : S) → leases (srv.create_secret x s).1 ≡ leases s
  pub secret_updated : (x : Secret) (s : S) → leases (srv.update_secret x s).1 ≡ leases s
  pub instance_deleted : (n : Text) (s : S) → leases (srv.delete_instance ns n s).1 ≡ leases s
