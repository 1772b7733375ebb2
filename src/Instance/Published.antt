-- ===== src/Instance/Published.antt =====
-- An instance is recorded as Ready only after its kubeconfig is published, and no Secret of anybody
-- else is written over.
use guestcluster.Api.{Instance, Secret}
use guestcluster.Base.{
  Bool, Bool-cases, List, Option, Option-cases, Text, [], ap, arith, count_if, false, inl, inr,
  none, refl, some, text_eq, text_eq_refl, ◌∙◌, ◌∷◌, ◌≡◌, ◌≤◌, ◌⊎◌,
}
use guestcluster.Instance.Ready.{
  after_upsert_create, kubeconfig_changed, kubeconfig_secret, kubeconfig_secret_key, mark_ready,
  ocp_version_secret_key, ready_instance, record_ready, settle_created, settle_secret, taken_over,
  upsert_from, upsert_secret,
}
use guestcluster.Instance.Status.{update_instance_status_if_changed}
use guestcluster.Kube.{
  ApiError, Error, Meta, Reply, Reply-cases, Step, already_exists, bind-final, forbidden, found,
  go_on, label_value, not_found, other, refused, wrapped, ◌>>◌,
}
use guestcluster.Platform.{Library, Server}
use guestcluster.Resources.{kubeconfig_secret_name}

-- How the Secret of a namespace and a name, and all the Secrets, change by the writes of markReady.
-- What is stored has the content that was sent; the server fills in the rest as it likes, such as the
-- uid and the times. SetControllerReference changes the owners only.
pub record ReadyStore {S Q : Type 0} (srv : Server S Q) (lib : Library Q)
    (secrets : S → List Secret) (slot : Text → Text → S → Option Secret) : Type 0 where
  pub read_slot :
      (ns n : Text) (s : S) (x : Secret) → srv.get_secret ns n s ≡ found x → slot ns n s ≡ some x
  pub created_slot :
      (x : Secret) (s : S)
      → (srv.create_secret x s).0 ≡ none
      → (m : Secret) × (slot x.meta.namespace x.meta.name (srv.create_secret x s).1 ≡ some m)
        × (m.content ≡ x.content)
  pub updated_slot :
      (ns n : Text) (x x' : Secret) (s : S)
      → srv.get_secret ns n s ≡ found x
      → x'.meta.namespace ≡ x.meta.namespace
      → x'.meta.name ≡ x.meta.name
      → (srv.update_secret x' s).0 ≡ none
      → (m : Secret) × (slot ns n (srv.update_secret x' s).1 ≡ some m) × (m.content ≡ x'.content)
  pub create_keeps :
      (x : Secret) (s : S) (q : Secret → Bool)
      → count_if q (secrets s) ≤ count_if q (secrets (srv.create_secret x s).1)
  pub update_keeps :
      (ns n : Text) (x x' : Secret) (s : S) (q : Secret → Bool)
      → srv.get_secret ns n s ≡ found x
      → x'.meta.namespace ≡ x.meta.namespace
      → x'.meta.name ≡ x.meta.name
      → q x ≡ false
      → count_if q (secrets s) ≤ count_if q (secrets (srv.update_secret x' s).1)
  pub status_keeps : (i : Instance) (s : S) → secrets (srv.update_instance_status i s).1 ≡ secrets s
  pub status_keeps_slot :
      (i : Instance) (ns n : Text) (s : S)
      → slot ns n (srv.update_instance_status i s).1 ≡ slot ns n s
  pub owned_key :
      (owner m owned : Meta)
      → lib.set_controller_reference owner m ≡ some owned
      → (owned.namespace ≡ m.namespace) × (owned.name ≡ m.name)

module _ {S : Type 0} (slot : Text → Text → S → Option Secret) where
  -- The slot holds a Secret that the test finds unchanged.
  abbrev pub Holds : Text → Text → (Secret → Bool) → S → Type 0
  Holds ns n changed t = (x : Secret) × (slot ns n t ≡ some x) × (changed x ≡ false)

  -- The Secret of an instance holds a kubeconfig and a version.
  abbrev pub IsPublished : Instance → Text → Text → S → Type 0
  IsPublished i v kubeconfig t =
      Holds i.meta.namespace (kubeconfig_secret_name i.meta.name) (kubeconfig_changed kubeconfig v)
        t

module _ {S Q : Type 0} (srv : Server S Q) (lib : Library Q) {secrets : S → List Secret}
    {slot : Text → Text → S → Option Secret} (store : ReadyStore srv lib secrets slot)
    (q : Secret → Bool) (verify : Secret → Option Error)
    (foreign : (x : Secret) → verify x ≡ none → q x ≡ false) where
  module _ (context : Error → Error) (desired : Secret) (changed : Secret → Bool)
      (wanted : (x : Secret) → x.content ≡ desired.content → changed x ≡ false) (V : S → Type 0)
      (created : (x : Secret) (t : S) → V t → V (srv.create_secret x t).1)
      (updated : (x : Secret) (t : S) → V t → V (srv.update_secret x t).1) where
    abbrev Settled : S → Step (Unit {0}) × S → Type 0
    Settled s r =
        (count_if q (secrets s) ≤ count_if q (secrets r.1))
        × (r.0 ≡ go_on tt → Holds slot desired.meta.namespace desired.meta.name changed r.1)
        × (V s → V r.1)

    settle-Settled :
        (x : Secret) (s : S)
        → srv.get_secret desired.meta.namespace desired.meta.name s ≡ found x
        → Settled s (settle_secret srv lib context desired changed verify x s)
    unfolding settle_secret taken_over
    settle-Settled x s h = elim (Option-cases (verify x)) [
      | inr (e, v) ↦ rw (v, settle_secret) (omega arith, (λ g. cc g), λ w. w)
      | inl v ↦ elim (Bool-cases (changed x)) [
        | inr c ↦
            rw (v, c, settle_secret) (omega arith, (λ g. (x, store.read_slot _ _ s x h, c)), λ w. w)
        | inl c ↦
            let x' = taken_over desired x in
            let k =
              store.update_keeps desired.meta.namespace desired.meta.name x x' s q h refl refl
                (foreign x v) in
            elim (Option-cases (srv.update_secret x' s).0) [
              | inl u ↦
                  rw (v, c, u, settle_secret)
                    (
                      k,
                      (λ g.
                          let m = store.updated_slot _ _ x x' s h refl refl u in
                          (m.0, m.1, wanted m.0 m.2)),
                      updated x' s,
                    )
              | inr (e, u) ↦ rw (v, c, u, settle_secret) (k, (λ g. cc g), updated x' s)
            ]
      ]
    ]

    created-Settled : (s : S) → Settled s (settle_created srv lib context desired changed verify s)
    unfolding settle_created
    created-Settled s =
        elim (Reply-cases (srv.get_secret desired.meta.namespace desired.meta.name s)) [
          | inl (x, e) ↦ rw (e, settle_created) (settle-Settled x s e)
          | inr (x, e) ↦ rw (e, settle_created) (omega arith, (λ g. cc g), λ w. w)
        ]

    after_create-Settled :
        (r : Option ApiError) (s t : S)
        → count_if q (secrets s) ≤ count_if q (secrets t)
        → (r ≡ none
            → (m : Secret) × (slot desired.meta.namespace desired.meta.name t ≡ some m)
              × (m.content ≡ desired.content))
        → (V s → V t)
        → Settled s (after_upsert_create srv lib context desired changed verify r t)
    unfolding after_upsert_create
    after_create-Settled none s t k c w =
        (k, (λ g. let m = c refl in (m.0, m.1, wanted m.0 m.2)), w)
    after_create-Settled (some already_exists) s t k c w =
        let d = created-Settled t in (omega (arith, d.0), d.1, λ v. d.2 (w v))
    after_create-Settled (some not_found) s t k c w = (k, (λ g. cc g), w)
    after_create-Settled (some (forbidden m)) s t k c w = (k, (λ g. cc g), w)
    after_create-Settled (some (other m)) s t k c w = (k, (λ g. cc g), w)

    from-Settled :
        (r : Reply Secret) (s : S)
        → srv.get_secret desired.meta.namespace desired.meta.name s ≡ r
        → Settled s (upsert_from srv lib context desired changed verify r s)
    unfolding upsert_from
    from-Settled (found x) s h = settle-Settled x s h
    from-Settled (refused not_found) s h =
        after_create-Settled (srv.create_secret desired s).0 s (srv.create_secret desired s).1
          (store.create_keeps desired s q) (λ e. store.created_slot desired s e) (created desired s)
    from-Settled (refused already_exists) s h = (omega arith, (λ g. cc g), λ w. w)
    from-Settled (refused (forbidden m)) s h = (omega arith, (λ g. cc g), λ w. w)
    from-Settled (refused (other m)) s h = (omega arith, (λ g. cc g), λ w. w)

    upsert-Settled : (s : S) → Settled s (upsert_secret srv lib context desired changed verify s)
    unfolding upsert_secret
    upsert-Settled s = from-Settled _ s refl

  record_ready-secrets :
      (i : Instance) (v a : Text) (s : S) → secrets (record_ready srv lib i v a s).1 ≡ secrets s
  unfolding record_ready update_instance_status_if_changed
  record_ready-secrets i v a s = ground (arith, store.status_keeps (ready_instance srv lib i v a) s)

  record_ready-slot :
      (i : Instance) (v a ns n : Text) (s : S)
      → slot ns n (record_ready srv lib i v a s).1 ≡ slot ns n s
  unfolding record_ready update_instance_status_if_changed
  record_ready-slot i v a ns n s =
      ground (arith, store.status_keeps_slot (ready_instance srv lib i v a) ns n s)

  changed-wanted :
      (kubeconfig v : Text) (x : Secret)
      → x.content ≡ (kubeconfig_secret_key, kubeconfig) ∷ (ocp_version_secret_key, v) ∷ []
      → kubeconfig_changed kubeconfig v x ≡ false
  unfolding kubeconfig_changed label_value text_eq
  changed-wanted kubeconfig v x e =
      rw (e, text_eq_refl kubeconfig, text_eq_refl v, kubeconfig_changed, label_value) refl

  module _ (i : Instance) (v endpoint kubeconfig : Text) where
    mark_ready-Settled :
        (V : S → Type 0)
        → ((x : Secret) (t : S) → V t → V (srv.create_secret x t).1)
        → ((x : Secret) (t : S) → V t → V (srv.update_secret x t).1)
        → (s : S)
        → let s' = (mark_ready srv lib verify i v endpoint kubeconfig s).1 in
          (count_if q (secrets s) ≤ count_if q (secrets s'))
          × (V s → V s' ⊎ IsPublished slot i v kubeconfig s')
    unfolding mark_ready kubeconfig_secret
    mark_ready-Settled V created updated s =
        elim (Option-cases
          (lib.set_controller_reference i.meta (kubeconfig_secret i kubeconfig v).meta)) [
            | inl e ↦ rw (e, mark_ready) (omega arith, λ w. inl w)
            | inr (owned, e) ↦ rw (e, mark_ready) (after_owner owned e)
          ]
      where
        After : S → Type 0
        After t =
            (count_if q (secrets s) ≤ count_if q (secrets t))
            × (V s → V t ⊎ IsPublished slot i v kubeconfig t)

        moved :
            (owned : Meta) (t : S)
            → lib.set_controller_reference i.meta (kubeconfig_secret i kubeconfig v).meta
              ≡ some owned
            → Holds slot owned.namespace owned.name (kubeconfig_changed kubeconfig v) t
            → IsPublished slot i v kubeconfig (record_ready srv lib i v endpoint t).1
        moved owned t e (x, h, c) =
            let k = store.owned_key i.meta (kubeconfig_secret i kubeconfig v).meta owned e in
            (x, record_ready-slot i v endpoint _ _ t ∙ rw (← k.0, ← k.1) h, c)

        after_owner :
            (owned : Meta)
            → lib.set_controller_reference i.meta (kubeconfig_secret i kubeconfig v).meta
              ≡ some owned
            → After
                ((upsert_secret srv lib
                      (wrapped "upserting kubeconfig secret")
                      (record (kubeconfig_secret i kubeconfig v) { meta = owned })
                      (kubeconfig_changed kubeconfig v)
                      verify
                    >> record_ready srv lib i v endpoint)
                  s).1
        after_owner owned e =
            let desired = record (kubeconfig_secret i kubeconfig v) { meta = owned } in
            let settled =
              upsert-Settled (wrapped "upserting kubeconfig secret") desired
                (kubeconfig_changed kubeconfig v) (λ x e. changed-wanted kubeconfig v x e) V created
                updated s in
            bind-final After
              (upsert_secret srv lib (wrapped "upserting kubeconfig secret") desired
                (kubeconfig_changed kubeconfig v) verify)
              (λ _. record_ready srv lib i v endpoint) s
              (λ _ g.
                let t =
                  (upsert_secret srv lib (wrapped "upserting kubeconfig secret") desired
                    (kubeconfig_changed kubeconfig v) verify s).1 in
                (
                  omega (arith, settled.0, ap (count_if q) (record_ready-secrets i v endpoint t)),
                  λ w. inr (moved owned t e (settled.1 g)),
                ))
              (λ _ _. (settled.0, λ w. inl (settled.2 w)))

    -- markReady never writes over a Secret that the check refuses: a Boolean test that fails on
    -- every Secret that the check admits holds of at least as many Secrets after markReady as
    -- before.
    pub mark_ready-spares_foreign :
        (s : S)
        → count_if q (secrets s)
          ≤ count_if q (secrets (mark_ready srv lib verify i v endpoint kubeconfig s).1)
    mark_ready-spares_foreign s =
        (mark_ready-Settled (λ t. Unit {0}) (λ x t w. tt) (λ x t w. tt) s).0
