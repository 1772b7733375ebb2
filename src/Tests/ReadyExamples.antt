-- ===== src/Tests/ReadyExamples.antt =====
-- An instance of the concrete world whose kubeconfig is published.
use guestcluster.Api.{Instance, Secret}
use guestcluster.Base.{
  Bool, Bool-cases, List, Option, Text, [], ap, arith, codes, count_if, false, inl, inr, none, pos,
  refl, some, subst, text_eq, text_eq_refl, text_eq→eq, true, ◌&&◌, ◌∙◌, ◌∷◌, ◌≡◌, ◌≤◌, ◌⊎◌,
}
use guestcluster.Instance.Delete.{waiting}
use guestcluster.Instance.Dispatch.{Backings}
use guestcluster.Instance.Handlers.{MayTouch, reconcile-MayTouch}
use guestcluster.Instance.Operands.{
  Operand, OperandServer, StatusItem, check_hyper_converged, check_operand, check_operands,
  condition_status, expected_loop, status_loop,
}
use guestcluster.Instance.Published.{ReadyStore, mark_ready-spares_foreign}
use guestcluster.Instance.Readiness.{IsAvailable, check_hyper_converged-IsAvailable}
use guestcluster.Instance.Ready.{mark_ready, verify_crc_secret}
use guestcluster.Kube.{
  Error, M, Meta, Outcome, Reply, done, found, go_on, named, not_found, refused,
}
use guestcluster.Tests.LeaseExamples.{has_no_owner, no_owner-uncontrolled}
use guestcluster.Tests.LeaseWorld.{kept_secrets}
use guestcluster.Tests.PoolExamples.{claimed_instance, world}
use guestcluster.Tests.World.{World, assigned, find, home, world_library, world_server}
use guestcluster.Instance.Dispatch.{reconcile as instance_reconcile}

abbrev slot_of : Reply Secret → Option Secret
slot_of (found x) = some x
slot_of (refused e) = none

abbrev slot : Text → Text → World → Option Secret
slot ns n w = slot_of (find (λ (x : Secret). x.meta) ns n w.secrets)

secret_key_law :
    (ns name : Text) (xs : List Secret) (x : Secret)
    → find (λ (x : Secret). x.meta) ns name xs ≡ found x
    → (x.meta.namespace ≡ ns) × (x.meta.name ≡ name)
secret_key_law ns name [] x h = ground arith
secret_key_law ns name (k ∷ ks) x h =
    elim (Bool-cases (text_eq k.meta.namespace ns && text_eq k.meta.name name)) [
      | inl e ↦
          let same_secret : k ≡ x = cc (rw e at h) in
          let named_so : text_eq k.meta.namespace ns ≡ true = ground arith in
          let called_so : text_eq k.meta.name name ≡ true = ground arith in
          rw (← same_secret)
            (text_eq→eq k.meta.namespace ns named_so, text_eq→eq k.meta.name name called_so)
      | inr e ↦ secret_key_law ns name ks x (rw e at h)
    ]

first_slot :
    (ns n : Text) (x : Secret) (w : World)
    → x.meta.namespace ≡ ns
    → x.meta.name ≡ n
    → slot ns n (record w { secrets = x ∷ w.secrets }) ≡ some x
first_slot ns n x w e f =
    subst (λ m. slot m n (record w { secrets = x ∷ w.secrets }) ≡ some x) e
      (subst (λ m. slot x.meta.namespace m (record w { secrets = x ∷ w.secrets }) ≡ some x) f
        (rw (text_eq_refl x.meta.namespace, text_eq_refl x.meta.name) refl))

secret_added :
    (x : Secret) (w : World) (q : Secret → Bool) → count_if q w.secrets ≤ count_if q (x ∷ w.secrets)
unfolding count_if
secret_added x w q = ground arith

world-ReadyStore : ReadyStore world_server world_library kept_secrets slot
world-ReadyStore = record {
  read_slot = λ ns n w x h. ap slot_of h;
  created_slot =
      λ x w e. (assigned x, first_slot x.meta.namespace x.meta.name (assigned x) w refl refl, refl);
  updated_slot = λ ns n x x' w h e f u.
      let key = secret_key_law ns n w.secrets x h in
      (x', first_slot ns n x' w (e ∙ key.0) (f ∙ key.1), refl);
  create_keeps = λ x w q. secret_added (assigned x) w q;
  update_keeps = λ ns n x x' w q h e f g. secret_added x' w q;
  status_keeps = λ i w. refl;
  status_keeps_slot = λ i ns n w. refl;
  owned_key = λ owner m owned h. owned_law owner m owned h;
}
  where
    owned_law :
        (owner m owned : Meta)
        → world_library.set_controller_reference owner m ≡ some owned
        → (owned.namespace ≡ m.namespace) × (owned.name ≡ m.name)
    owned_law owner m owned h =
        let same_meta : record m { owners = owner.name ∷ m.owners } ≡ owned = cc h in
        rw (← same_meta) (refl, refl)

abbrev instance_check : Secret → Option Error
instance_check = verify_crc_secret world_server world_library claimed_instance

-- A Secret of another client at the name of the kubeconfig.
abbrev taken_name : World
taken_name = record world {
  secrets =
      (record { meta = named home (codes "p-0-kubeconfig"); type = codes "Opaque"; content = [] })
      ∷ [];
}

checked_owner : (x : Secret) → instance_check x ≡ none → has_no_owner x ≡ false
unfolding verify_crc_secret
checked_owner x h = elim (Bool-cases (has_no_owner x)) [
  | inr e ↦ e
  | inl e ↦
      let u = no_owner-uncontrolled claimed_instance.meta x e in
      elim (Bool-cases (text_eq x.meta.namespace claimed_instance.meta.namespace)) [
        | inl n ↦ cc (rw (n, u, verify_crc_secret) at h)
        | inr n ↦ cc (rw (n, verify_crc_secret) at h)
      ]
]

mark_ready-spares_foreign_example :
    count_if has_no_owner (kept_secrets taken_name)
    ≤ count_if has_no_owner (
        kept_secrets
          (mark_ready world_server world_library instance_check claimed_instance
            (codes "4.19.0")
            (codes "https://api")
            (codes "key")
            taken_name).1)
mark_ready-spares_foreign_example =
    mark_ready-spares_foreign world_server world_library world-ReadyStore has_no_owner
      instance_check checked_owner claimed_instance (codes "4.19.0") (codes "https://api")
      (codes "key") taken_name

abbrev published : World
published =
    (mark_ready world_server world_library instance_check claimed_instance (codes "4.19.0")
      (codes "https://api") (codes "key") world).1

abbrev condition_item : Text → Text → StatusItem
condition_item t st = record { type = some t; status = some st }

abbrev operand : Operand
operand = record {
  generation = pos 2;
  observed_generation = some (pos 2);
  conditions = some (
      condition_item (codes "Degraded") (codes "False")
      ∷ condition_item (codes "Available") (codes "True")
      ∷ condition_item (codes "Progressing") (codes "False")
      ∷ []);
}

abbrev operands : OperandServer World
operands = record {
  list_hyper_converged = λ w. found (operand ∷ []);
  list_engines = λ w. found [];
  get_crd = λ n w. refused not_found;
  get_operator_replicas = λ w. refused not_found;
}

operand_ready : (check_hyper_converged operands world).is_ready ≡ true
unfolding check_hyper_converged check_operands check_operand expected_loop condition_status
    status_loop text_eq
operand_ready = refl

check_hyper_converged-IsAvailable_example :
    (x : Operand) × (operands.list_hyper_converged world ≡ found (x ∷ [])) × IsAvailable x
check_hyper_converged-IsAvailable_example =
    check_hyper_converged-IsAvailable operands world operand_ready

abbrev lost_backing : Instance → M World Outcome
lost_backing i w = (go_on done, record w { secrets = [] })

abbrev backings : Backings World
backings = record {
  crc_handler = lost_backing;
  hyper_shift_handler = lost_backing;
  ready_crc_handler = lost_backing;
  ready_hyper_shift_handler = lost_backing;
}

reconcile-MayTouch_example :
    ((instance_reconcile world_server world_library operands
        (λ i w. (waiting, i, w))
        backings
        (pos 0)
        home
        (codes "p-0")
        taken_name).1.secrets
      ≡ taken_name.secrets)
    ⊎ ((i : Instance) × (world_server.cached_instance home (codes "p-0") taken_name ≡ found i)
        × MayTouch i)
reconcile-MayTouch_example =
    reconcile-MayTouch world_server world_library operands (λ i w. (waiting, i, w)) backings
      (λ w. w.secrets ≡ taken_name.secrets) (λ i w r. r) (λ i w r. r) (pos 0) home (codes "p-0")
      taken_name refl
