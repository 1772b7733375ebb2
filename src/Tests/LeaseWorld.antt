-- ===== src/Tests/LeaseWorld.antt =====
-- The laws of leases in the concrete world.
use guestcluster.Api.{Lease, Secret}
use guestcluster.Base.{
  Bool, Bool-cases, List, SameItems, Text, [], ap, arith, count_if, inl, inr, pos, refl, some,
  subst, sym, text_eq, text_eq→eq, true, ◌&&◌, ◌∙◌, ◌∷◌, ◌≡◌, ◌≤◌,
}
use guestcluster.Kube.{found}
use guestcluster.Lease.Laws.{IsCurrent, LeaseStore, LeaseWrite, stored_as}
use guestcluster.Lease.Secrets.{SecretStore}
use guestcluster.Tests.World.{World, assigned, find, home, put_at, put_lease, world_server}

abbrev is_key : Text → Text → Lease → Bool
is_key ns name l = text_eq l.meta.namespace ns && text_eq l.meta.name name

swap_items :
    (k l : Lease) (xs rest : List Lease)
    → SameItems xs (l ∷ rest)
    → SameItems (k ∷ xs) (l ∷ k ∷ rest)
unfolding count_if
swap_items k l xs rest h q = ground (arith, h q)

put_at-find :
    (ns name : Text) (l l' : Lease) (ls : List Lease)
    → find (λ (l : Lease). l.meta) ns name ls ≡ found l
    → (rest : List Lease) × SameItems ls (l ∷ rest) × SameItems (put_at ns name l' ls) (l' ∷ rest)
put_at-find ns name l l' [] h = ground arith
put_at-find ns name l l' (k ∷ ks) h = elim (Bool-cases (is_key ns name k)) [
  | inl e ↦
      let same_lease : k ≡ l = cc (rw e at h) in
      (ks, (λ q. ap (λ x. count_if q (x ∷ ks)) same_lease), (λ q. rw e refl))
  | inr e ↦
      let r = put_at-find ns name l l' ks (rw e at h) in
      (
        k ∷ r.0,
        swap_items k l ks r.0 r.1,
        (λ q. rw e (swap_items k l' (put_at ns name l' ks) r.0 r.2 q)),
      )
]

lease_key_law :
    (ns name : Text) (ls : List Lease) (l : Lease)
    → find (λ (l : Lease). l.meta) ns name ls ≡ found l
    → (l.meta.namespace ≡ ns) × (l.meta.name ≡ name)
lease_key_law ns name [] l h = ground arith
lease_key_law ns name (k ∷ ks) l h = elim (Bool-cases (is_key ns name k)) [
  | inl e ↦
      let same_lease : k ≡ l = cc (rw e at h) in
      let named_so : text_eq k.meta.namespace ns ≡ true = ground arith in
      let called_so : text_eq k.meta.name name ≡ true = ground arith in
      rw (← same_lease)
        (text_eq→eq k.meta.namespace ns named_so, text_eq→eq k.meta.name name called_so)
  | inr e ↦ lease_key_law ns name ks l (rw e at h)
]

abbrev pub held : World → List Lease
held w = w.leases

write_law :
    (l l' m : Lease) (t s : World)
    → IsCurrent world_server home held l t s
    → m.meta.namespace ≡ l.meta.namespace
    → m.meta.name ≡ l.meta.name
    → m.spec ≡ l'.spec
    → m.status ≡ l'.status
    → LeaseWrite l l' (held s) (put_lease m (held s))
write_law l l' m t s now en em es est =
    let key = lease_key_law home now.name t.leases l now.was_read in
    let r = put_at-find home now.name l m s.leases (rw now.unchanged now.was_read) in
    subst (λ n. LeaseWrite l l' (held s) (put_at n m.meta.name m (held s))) (sym (en ∙ key.0))
      (subst (λ n. LeaseWrite l l' (held s) (put_at home n m (held s))) (sym (em ∙ key.1))
        (stored_as r.0 m r.1 r.2 es est))

pub world-LeaseStore : LeaseStore world_server home held
world-LeaseStore = record {
  leases_listed = λ w xs h. cc h;
  lease_key = λ name w l h. lease_key_law home name w.leases l h;
  lease_written = λ l l' t s c en em est. write_law l l' l' t s c en em refl refl;
  lease_status_written = λ l l' t s c e es.
      write_law l l' l' t s c (ap (λ m. m.namespace) e) (ap (λ m. m.name) e) refl refl;
  lease_deleted = λ l t s c.
      write_law l l (record l { meta = record l.meta { deletion_timestamp = some (pos 1) } }) t s c
        refl refl refl refl;
  secret_created = λ x w. refl;
  secret_updated = λ x w. refl;
  instance_deleted = λ n w. refl;
}

abbrev pub kept_secrets : World → List Secret
kept_secrets w = w.secrets

pub world-SecretStore : SecretStore world_server kept_secrets
unfolding count_if
world-SecretStore = record {
  create_keeps_secrets = λ x w q. secret_added (assigned x) w q;
  update_keeps_others = λ ns name x x' w q h e f. secret_added x' w q;
  lease_status_keeps_secrets = λ l w. refl;
}
  where
    secret_added :
        (x : Secret) (w : World) (q : Secret → Bool)
        → count_if q w.secrets ≤ count_if q (x ∷ w.secrets)
    secret_added x w q = ground arith
