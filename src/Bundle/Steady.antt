-- ===== src/Bundle/Steady.antt =====
-- A prepared bundle becomes Ready in one reconcile, and a Ready bundle stays as it is.
use guestcluster.Api.{Bundle, BundlePhase, Secret}
use guestcluster.Base.{
  Text, ap, false, inl, inr, none, refl, some, sym, text_eq_refl, true, ◌∙◌, ◌≡◌,
}
use guestcluster.Bundle.{BundleServer, Claim, ConfigMap, Job, Site}
use guestcluster.Bundle.Await.{await, await-found, write-succeeded}
use guestcluster.Bundle.Build.{bundle_arch}
use guestcluster.Bundle.Moves.{IsFinished}
use guestcluster.Bundle.Phases.{BundleStore}
use guestcluster.Bundle.Reconcile.{
  by_phase, check_ssh_secret, clean_up, finish, golden_name, metadata_name, publish, ready_bundle,
  reconcile, reconcile_preparing, reconcile_ready, refers_to_golden, republish, scratch_name,
  ssh_secret_name, watch_job, with_references,
}
use guestcluster.Kube.{Reply-cases, done, found, go_on, handle, is_deleting, outcome, ◌>>=◌}
use guestcluster.Platform.{Library}

module _ {S Q : Type 0} (srv : BundleServer S Q) (lib : Library Q) (must_parse : Text → Q)
    (site : Site) where
  refers_to_golden-refers :
      (b : Bundle)
      → b.status.disk_image_pvc_ref ≡ some (golden_name srv lib must_parse site b)
      → b.status.disk_image_pvc_namespace ≡ site.operator_namespace
      → refers_to_golden srv lib must_parse site b ≡ true
  unfolding refers_to_golden
  refers_to_golden-refers b e n =
      rw
        (
          e,
          n,
          text_eq_refl (golden_name srv lib must_parse site b),
          text_eq_refl site.operator_namespace,
          refers_to_golden,
        )
        refl

  -- The handler of the phase, where the bundle is there and is not being deleted.
  reconcile-found :
      (name : Text) (b : Bundle) (p : BundlePhase) (s : S)
      → srv.get_bundle name s ≡ found b
      → is_deleting b.meta ≡ false
      → b.status.phase ≡ p
      → reconcile srv lib must_parse site name s ≡ handle (by_phase srv lib must_parse site b p) s
  unfolding reconcile
  reconcile-found name b p s h d e =
      rw (h, d, reconcile) (ap (λ q. handle (by_phase srv lib must_parse site b q) s) e)

  ready-steady :
      (b : Bundle) (golden : Claim Q) (secret : Secret) (s : S)
      → srv.get_claim site.operator_namespace (golden_name srv lib must_parse site b) s
        ≡ found golden
      → srv.get_secret site.operator_namespace (ssh_secret_name srv lib must_parse site b) s
        ≡ found secret
      → refers_to_golden srv lib must_parse site b ≡ true
      → by_phase srv lib must_parse site b BundlePhase.ready s ≡ (go_on done, s)
  unfolding by_phase reconcile_ready check_ssh_secret republish
  ready-steady b golden secret s g k f =
      rw (g, by_phase, reconcile_ready) (rw (k, check_ssh_secret) (rw (f, republish) refl))

  -- With the claim and the key that it refers to in place, a Ready bundle stays as it is.
  reconcile-steady :
      (name : Text) (b : Bundle) (golden : Claim Q) (secret : Secret) (s : S)
      → srv.get_bundle name s ≡ found b
      → is_deleting b.meta ≡ false
      → b.status.phase ≡ BundlePhase.ready
      → srv.get_claim site.operator_namespace (golden_name srv lib must_parse site b) s
        ≡ found golden
      → srv.get_secret site.operator_namespace (ssh_secret_name srv lib must_parse site b) s
        ≡ found secret
      → b.status.disk_image_pvc_ref ≡ some (golden_name srv lib must_parse site b)
      → b.status.disk_image_pvc_namespace ≡ site.operator_namespace
      → reconcile srv lib must_parse site name s ≡ (done, s)
  reconcile-steady name b golden secret s h d p g k e n =
      reconcile-found name b BundlePhase.ready s h d p
      ∙ ap (λ r. (outcome r.0, r.1))
          (ready-steady b golden secret s g k (refers_to_golden-refers b e n))

  -- `b'` has the status that a reconcile writes for `b`: the Ready status of a bundle in
  -- Preparing, or the new references of a bundle that is Ready.
  pub data Published (b b' : Bundle) : Type 0 where
    prepared :
        (cm : ConfigMap)
        → b'.status ≡ (ready_bundle srv lib must_parse site cm b).status
        → Published b b'
    referred :
        b.status.phase ≡ BundlePhase.ready
        → b'.status ≡ (with_references srv lib must_parse site b).status
        → Published b b'

  -- The golden claim and the SSH key of the bundle are there.
  pub record HasParts (b : Bundle) (s : S) : Type 0 where
    pub golden : Claim Q
    pub secret : Secret
    pub golden_found :
        srv.get_claim site.operator_namespace (golden_name srv lib must_parse site b) s
        ≡ found golden
    pub secret_found :
        srv.get_secret site.operator_namespace (ssh_secret_name srv lib must_parse site b) s
        ≡ found secret

  golden_name-spec :
      (b b' : Bundle)
      → b'.spec ≡ b.spec
      → golden_name srv lib must_parse site b' ≡ golden_name srv lib must_parse site b
  unfolding bundle_arch
  golden_name-spec b b' e =
      ap (λ spec. golden_name srv lib must_parse site (record b { spec = spec })) e

  Published-status :
      (b b' : Bundle)
      → Published b b'
      → (b'.status.phase ≡ BundlePhase.ready)
        × (b'.status.disk_image_pvc_ref ≡ some (golden_name srv lib must_parse site b))
        × (b'.status.disk_image_pvc_namespace ≡ site.operator_namespace)
  unfolding ready_bundle with_references
  Published-status b b' (prepared cm e) = rw e (refl, refl, refl)
  Published-status b b' (referred r e) = rw e (r, refl, refl)

  -- If the stored status of a CRCBundle is what a reconcile wrote, either as the Ready status of
  -- a prepared bundle or as the new references of a Ready one, and the spec is the same, the
  -- bundle is not being deleted and its golden claim and SSH key are there, the next reconcile
  -- writes nothing and asks for nothing.
  pub Published-steady :
      (name : Text) (b b' : Bundle) (s : S)
      → Published b b'
      → b'.spec ≡ b.spec
      → srv.get_bundle name s ≡ found b'
      → is_deleting b'.meta ≡ false
      → HasParts b' s
      → reconcile srv lib must_parse site name s ≡ (done, s)
  Published-steady name b b' s p same_spec h d parts =
      let st = Published-status b b' p in
      reconcile-steady name b' parts.golden parts.secret s h d st.0 parts.golden_found
        parts.secret_found (st.1 ∙ ap (λ x. some x) (sym (golden_name-spec b b' same_spec))) st.2

  module _ {phase : S → BundlePhase} (name : Text) (store : BundleStore srv name phase) where
    clean_up-done :
        (b : Bundle) (job : Job) (t : S)
        → ((clean_up srv lib must_parse site b job t).0 ≡ go_on done)
          × (phase (clean_up srv lib must_parse site b job t).1 ≡ phase t)
    unfolding clean_up
    clean_up-done b job t =
        let t1 = (srv.delete_job job t).1 in
        elim (Reply-cases
          (srv.get_claim site.operator_namespace (scratch_name srv lib must_parse site b) t1)) [
            | inl (c, e) ↦
                rw (e, clean_up) (refl, store.claim_deleted c t1 ∙ store.job_deleted job t)
            | inr (x, e) ↦ rw (e, clean_up) (refl, store.job_deleted job t)
          ]

    prepared-cleans_up :
        (b : Bundle) (s : S) (f : IsFinished srv lib must_parse site s b)
        → by_phase srv lib must_parse site b BundlePhase.preparing s
          ≡ clean_up srv lib must_parse site b f.prepared.job
              (srv.update_bundle_status
                (ready_bundle srv lib must_parse site f.prepared.config_map b)
                s).1
    unfolding by_phase reconcile_preparing watch_job publish finish
    prepared-cleans_up b s f =
        let p = f.prepared in
        let ns = site.operator_namespace in
        let end = λ (cm : ConfigMap) (x : Secret). finish srv lib must_parse site b p.job cm in
        let then_secret = λ (cm : ConfigMap).
          await "getting bundle SSH key secret"
            (srv.get_secret ns (ssh_secret_name srv lib must_parse site b))
          >>= end cm in
        rw (p.job_found, by_phase, reconcile_preparing)
          (rw (p.not_failed, p.succeeded, watch_job)
            (await-found "getting bundle metadata configmap"
                (srv.get_config_map ns (metadata_name srv lib must_parse site b)) then_secret s
                p.config_map p.config_map_found
              ∙ await-found "getting bundle SSH key secret"
                  (srv.get_secret ns (ssh_secret_name srv lib must_parse site b)) (end p.config_map)
                  s p.ssh_secret p.ssh_secret_found
              ∙ write-succeeded "updating CRCBundle status"
                  (srv.update_bundle_status (ready_bundle srv lib must_parse site p.config_map b))
                  (clean_up srv lib must_parse site b p.job) s f.saved))

    -- If a CRCBundle in Preparing is prepared and the write of its Ready status succeeds, and
    -- successful status writes of the bundle of that name store its phase, one reconcile ends
    -- without an error, asks for no requeue, and leaves the phase Ready, whether or not the
    -- deletes after it succeed.
    pub reconcile-finishes :
        ((b : Bundle) (t : S)
          → b.meta.name ≡ name
          → (srv.update_bundle_status b t).0 ≡ none
          → phase (srv.update_bundle_status b t).1 ≡ b.status.phase)
        → (b : Bundle) (s : S) → srv.get_bundle name s ≡ found b
        → is_deleting b.meta ≡ false
        → IsFinished srv lib must_parse site s b
        → ((reconcile srv lib must_parse site name s).0 ≡ done)
          × (phase (reconcile srv lib must_parse site name s).1 ≡ BundlePhase.ready)
    unfolding ready_bundle
    reconcile-finishes stored b s h d f =
        let b' = ready_bundle srv lib must_parse site f.prepared.config_map b in
        let t = (srv.update_bundle_status b' s).1 in
        let c = clean_up-done b f.prepared.job t in
        let e =
          reconcile-found name b BundlePhase.preparing s h d f.was_preparing
          ∙ ap (λ r. (outcome r.0, r.1)) (prepared-cleans_up b s f) in
        (
          ap (λ r. r.0) e ∙ ap outcome c.0,
          ap (λ r. phase r.1) e ∙ (c.1 ∙ stored b' s (store.called s b h) f.saved),
        )
