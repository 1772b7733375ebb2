-- ===== src/Bundle/Rule.antt =====
-- What a reconcile of a CRCBundle keeps, if each of its writes keeps it.
use guestcluster.Api.{Bundle, BundlePhase, Secret}
use guestcluster.Base.{
  Bool-cases, Option-cases, String, Text, ap, arith, false, inl, inr, none, refl, subst, sym, true,
  ◌≡◌, ◌⊎◌,
}
use guestcluster.Bundle.{BundleServer, Claim, ConfigMap, Job, Site}
use guestcluster.Bundle.Await.{await, await-final, write-went_on}
use guestcluster.Bundle.Build.{
  build_bundle_prep_job, build_golden_pvc, build_scratch_pvc, resolve_bundle_urls,
}
use guestcluster.Bundle.Moves.{
  BundleWritesKeep, IsFinished, IsPrepared, Move, awaits_preparation, fails, finishes, keeps,
  resets, retries, starts,
}
use guestcluster.Bundle.Reconcile.{
  bundle_prep_job_failure, by_phase, check_ssh_secret, clean_up, create_missing_claim,
  create_missing_job, ensure_job, ensure_pvc, failed_bundle, finish, golden_name, in_phase, is_zero,
  job_name, metadata_name, preparing_bundle, publish, ready_bundle, reconcile, reconcile_failed,
  reconcile_pending, reconcile_preparing, reconcile_ready, refers_to_golden, republish,
  reset_to_pending, save, scratch_name, set_bundle_condition, ssh_secret_name, watch_job,
  with_references,
}
use guestcluster.Kube.{
  Reply, Reply-cases, already_exists, bind-final, done, forbidden, found, is_deleting, not_found,
  other, refused, value, write, write-final, write-state, ◌>>=◌, ◌>>◌,
}
use guestcluster.Platform.{Library}

module _ {S Q : Type 0} (srv : BundleServer S Q) (lib : Library Q) (must_parse : Text → Q)
    (site : Site) where
  module _ (s : S) (b : Bundle) (R : S → Type 0)
      (keep : BundleWritesKeep srv lib must_parse site s b R) (r : R s) where
    save-kept :
        (b' : Bundle)
        → b'.meta ≡ b.meta
        → Move srv lib must_parse site s b b'.status.phase
        → R (save srv lib must_parse site b' s).1
    unfolding save
    save-kept b' m p = ground (arith, keep.status b' s m p r)

    create_claim-kept :
        (c : Claim Q) (x : Reply (Claim Q)) (t : S)
        → R t
        → R (create_missing_claim srv lib must_parse site c x t).1
    unfolding create_missing_claim
    create_claim-kept c (found x) t h = h
    create_claim-kept c (refused not_found) t h = ground (arith, keep.claim_new c t h)
    create_claim-kept c (refused already_exists) t h = h
    create_claim-kept c (refused (forbidden m)) t h = h
    create_claim-kept c (refused (other m)) t h = h

    ensure_pvc-kept : (c : Claim Q) (t : S) → R t → R (ensure_pvc srv lib must_parse site b c t).1
    unfolding ensure_pvc
    ensure_pvc-kept c t h = elim (Option-cases (lib.set_controller_reference b.meta c.meta)) [
      | inl e ↦ rw (e, ensure_pvc) h
      | inr (owned, e) ↦ rw (e, ensure_pvc) (create_claim-kept _ _ t h)
    ]

    create_job-kept :
        (j : Job) (x : Reply Job) (t : S)
        → R t
        → R (create_missing_job srv lib must_parse site j x t).1
    unfolding create_missing_job
    create_job-kept j (found x) t h = h
    create_job-kept j (refused not_found) t h = ground (arith, keep.job_new j t h)
    create_job-kept j (refused already_exists) t h = h
    create_job-kept j (refused (forbidden m)) t h = h
    create_job-kept j (refused (other m)) t h = h

    ensure_job-kept : (t : S) → R t → R (ensure_job srv lib must_parse site b t).1
    unfolding ensure_job
    ensure_job-kept t h =
        let urls = resolve_bundle_urls b in
        let job = build_bundle_prep_job site b urls.0 urls.1 site.crc_agent_image in
        elim (Option-cases (lib.set_controller_reference b.meta job.meta)) [
          | inl e ↦ rw (e, ensure_job) h
          | inr (owned, e) ↦ rw (e, ensure_job) (create_job-kept _ _ t h)
        ]

    -- A status write, and then the end.
    write-kept :
        (context : String) (b' : Bundle) (t : S)
        → b'.meta ≡ b.meta
        → Move srv lib must_parse site s b b'.status.phase
        → R t
        → R ((write context (srv.update_bundle_status b') >> value done) t).1
    write-kept context b' t m p h =
        subst R (sym (write-state context (srv.update_bundle_status b') t)) (keep.status b' t m p h)

    pending-kept :
        awaits_preparation b.status.phase ≡ true
        → R (reconcile_pending srv lib must_parse site b s).1
    unfolding reconcile_pending
    pending-kept w = elim (Option-cases (build_golden_pvc lib must_parse site b)) [
      | inl e ↦ rw (e, reconcile_pending) r
      | inr (golden, e) ↦
          let scratch = build_scratch_pvc lib must_parse site b in
          let b' = preparing_bundle srv lib must_parse site b in
          let end = write "updating CRCBundle status" (srv.update_bundle_status b') >> value done in
          let then_job = ensure_job srv lib must_parse site b >> end in
          let then_scratch = ensure_pvc srv lib must_parse site b scratch >> then_job in
          let r1 = ensure_pvc-kept golden s r in
          rw (e, reconcile_pending)
            (bind-final R (ensure_pvc srv lib must_parse site b golden) (λ _. then_scratch) s
              (λ _ _.
                let t1 = (ensure_pvc srv lib must_parse site b golden s).1 in
                let r2 = ensure_pvc-kept scratch t1 r1 in
                bind-final R (ensure_pvc srv lib must_parse site b scratch) (λ _. then_job) t1
                  (λ _ _.
                    let t2 = (ensure_pvc srv lib must_parse site b scratch t1).1 in
                    let r3 = ensure_job-kept t2 r2 in
                    bind-final R (ensure_job srv lib must_parse site b) (λ _. end) t2
                      (λ _ _.
                        write-kept "updating CRCBundle status" b' _ (ground arith)
                          (starts w (ground arith)) r3)
                      (λ _ _. r3))
                  (λ _ _. r2))
              (λ _ _. r1))
    ]

    clean_up-kept :
        (job : Job) (t : S)
        → IsFinished srv lib must_parse site s b
        → R t
        → R (clean_up srv lib must_parse site b job t).1
    unfolding clean_up
    clean_up-kept job t f h =
        let t1 = (srv.delete_job job t).1 in
        let r1 = keep.job_gone job t f h in
        elim (Reply-cases
          (srv.get_claim site.operator_namespace (scratch_name srv lib must_parse site b) t1)) [
            | inl (c, e) ↦ rw (e, clean_up) (keep.claim_gone c t1 f r1)
            | inr (x, e) ↦ rw (e, clean_up) r1
          ]

    finish-kept :
        (job : Job) (p : IsPrepared srv lib must_parse site s b)
        → b.status.phase ≡ BundlePhase.preparing
        → R (finish srv lib must_parse site b job p.config_map s).1
    unfolding finish
    finish-kept job p w =
        let b' = ready_bundle srv lib must_parse site p.config_map b in
        let set = write "updating CRCBundle status" (srv.update_bundle_status b') in
        let r1 : R (set s).1 =
          subst R (sym (write-final "updating CRCBundle status" (srv.update_bundle_status b') s))
            (keep.status b' s (ground arith) (finishes w p (ground arith)) r) in
        bind-final R set (λ _. clean_up srv lib must_parse site b job) s
          (λ _ e.
            clean_up-kept job _
              (record {
                was_preparing = w;
                prepared = p;
                saved = write-went_on "updating CRCBundle status" (srv.update_bundle_status b') s e;
              })
              r1)
          (λ _ _. r1)

    publish-kept :
        (job : Job)
        → b.status.phase ≡ BundlePhase.preparing
        → srv.get_job site.operator_namespace (job_name srv lib must_parse site b) s ≡ found job
        → bundle_prep_job_failure job ≡ none
        → is_zero job.succeeded ≡ false
        → R (publish srv lib must_parse site b job s).1
    unfolding publish
    publish-kept job w j f z =
        let ns = site.operator_namespace in
        let get_secret = srv.get_secret ns (ssh_secret_name srv lib must_parse site b) in
        let then_finish =
          λ (cm : ConfigMap) (x : Secret). finish srv lib must_parse site b job cm in
        await-final R "getting bundle metadata configmap"
          (srv.get_config_map ns (metadata_name srv lib must_parse site b))
          (λ cm. await "getting bundle SSH key secret" get_secret >>= then_finish cm) s
          (λ cm e.
            await-final R "getting bundle SSH key secret" get_secret (then_finish cm) s
              (λ x g.
                finish-kept job
                  (record {
                    job = job;
                    config_map = cm;
                    ssh_secret = x;
                    job_found = j;
                    not_failed = f;
                    succeeded = z;
                    config_map_found = e;
                    ssh_secret_found = g;
                  })
                  w)
              r)
          r

    watch_job-kept :
        (job : Job)
        → b.status.phase ≡ BundlePhase.preparing
        → srv.get_job site.operator_namespace (job_name srv lib must_parse site b) s ≡ found job
        → R (watch_job srv lib must_parse site b job s).1
    unfolding watch_job
    watch_job-kept job w j = elim (Option-cases (bundle_prep_job_failure job)) [
      | inr (reason, e) ↦
          rw (e, watch_job)
            (save-kept (failed_bundle srv lib must_parse site reason b) (ground arith)
              (fails job reason w j e (ground arith)))
      | inl e ↦ elim (Bool-cases (is_zero job.succeeded)) [
        | inl z ↦ rw (e, z, watch_job) r
        | inr z ↦ rw (e, z, watch_job) (publish-kept job w j e z)
      ]
    ]

    -- Without its Job, a bundle goes back to Pending.
    retry-kept :
        (b.status.phase ≡ BundlePhase.preparing) ⊎ (b.status.phase ≡ BundlePhase.failed)
        → srv.get_job site.operator_namespace (job_name srv lib must_parse site b) s
          ≡ refused not_found
        → R
            (save srv lib must_parse site
              (in_phase srv lib must_parse site BundlePhase.pending b)
              s).1
    unfolding in_phase
    retry-kept w e =
        save-kept (in_phase srv lib must_parse site BundlePhase.pending b) refl (retries w e refl)

    preparing_from :
        (w : b.status.phase ≡ BundlePhase.preparing) (x : Reply Job)
        → srv.get_job site.operator_namespace (job_name srv lib must_parse site b) s ≡ x
        → R (reconcile_preparing srv lib must_parse site b s).1
    unfolding reconcile_preparing
    preparing_from w (found a) e = rw (e, reconcile_preparing) (watch_job-kept a w e)
    preparing_from w (refused not_found) e = rw (e, reconcile_preparing) (retry-kept (inl w) e)
    preparing_from w (refused already_exists) e = rw (e, reconcile_preparing) r
    preparing_from w (refused (forbidden m)) e = rw (e, reconcile_preparing) r
    preparing_from w (refused (other m)) e = rw (e, reconcile_preparing) r

    failed_from :
        (w : b.status.phase ≡ BundlePhase.failed) (x : Reply Job)
        → srv.get_job site.operator_namespace (job_name srv lib must_parse site b) s ≡ x
        → R (reconcile_failed srv lib must_parse site b s).1
    unfolding reconcile_failed
    failed_from w (found a) e = rw (e, reconcile_failed) r
    failed_from w (refused not_found) e = rw (e, reconcile_failed) (retry-kept (inr w) e)
    failed_from w (refused already_exists) e = rw (e, reconcile_failed) r
    failed_from w (refused (forbidden m)) e = rw (e, reconcile_failed) r
    failed_from w (refused (other m)) e = rw (e, reconcile_failed) r

    reset-kept :
        (reason : String)
        → b.status.phase ≡ BundlePhase.ready
        → (srv.get_claim site.operator_namespace (golden_name srv lib must_parse site b) s
            ≡ refused not_found)
          ⊎ (srv.get_secret site.operator_namespace (ssh_secret_name srv lib must_parse site b) s
              ≡ refused not_found)
        → R (reset_to_pending srv lib must_parse site b reason s).1
    unfolding reset_to_pending in_phase set_bundle_condition
    reset-kept reason w e = save-kept _ refl (resets w e refl)

    republish-kept :
        b.status.phase ≡ BundlePhase.ready → R (republish srv lib must_parse site b s).1
    unfolding republish
    republish-kept w = elim (Bool-cases (refers_to_golden srv lib must_parse site b)) [
      | inl e ↦ rw (e, republish) r
      | inr e ↦
          rw (e, republish)
            (write-kept "updating CRCBundle disk image PVC references"
              (with_references srv lib must_parse site b) s (ground arith) (keeps (ground arith)) r)
    ]

    secret_from :
        (w : b.status.phase ≡ BundlePhase.ready) (x : Reply Secret)
        → srv.get_secret site.operator_namespace (ssh_secret_name srv lib must_parse site b) s ≡ x
        → R (check_ssh_secret srv lib must_parse site b s).1
    unfolding check_ssh_secret
    secret_from w (found a) e = rw (e, check_ssh_secret) (republish-kept w)
    secret_from w (refused not_found) e =
        rw (e, check_ssh_secret) (reset-kept "SSH key secret is missing" w (inr e))
    secret_from w (refused already_exists) e = rw (e, check_ssh_secret) r
    secret_from w (refused (forbidden m)) e = rw (e, check_ssh_secret) r
    secret_from w (refused (other m)) e = rw (e, check_ssh_secret) r

    ready_from :
        (w : b.status.phase ≡ BundlePhase.ready) (x : Reply (Claim Q))
        → srv.get_claim site.operator_namespace (golden_name srv lib must_parse site b) s ≡ x
        → R (reconcile_ready srv lib must_parse site b s).1
    unfolding reconcile_ready
    ready_from w (found a) e =
        rw (e, reconcile_ready)
          (secret_from w
            (srv.get_secret site.operator_namespace (ssh_secret_name srv lib must_parse site b) s)
            refl)
    ready_from w (refused not_found) e =
        rw (e, reconcile_ready) (reset-kept "golden PVC is missing" w (inl e))
    ready_from w (refused already_exists) e = rw (e, reconcile_ready) r
    ready_from w (refused (forbidden m)) e = rw (e, reconcile_ready) r
    ready_from w (refused (other m)) e = rw (e, reconcile_ready) r

    -- `p` is the phase of `b`.
    phase-kept :
        (p : BundlePhase) → b.status.phase ≡ p → R (by_phase srv lib must_parse site b p s).1
    unfolding by_phase
    phase-kept BundlePhase.ready e = ready_from e _ refl
    phase-kept BundlePhase.preparing e = preparing_from e _ refl
    phase-kept BundlePhase.failed e = failed_from e _ refl
    phase-kept BundlePhase.pending e = pending-kept (ap awaits_preparation e)
    phase-kept BundlePhase.unset e = pending-kept (ap awaits_preparation e)
    phase-kept (BundlePhase.other_phase q) e = pending-kept (ap awaits_preparation e)

  module _ (name : Text) (s : S) (R : S → Type 0)
      (keep : (b : Bundle)
        → srv.get_bundle name s ≡ found b
        → BundleWritesKeep srv lib must_parse site s b R)
      (r : R s) where
    from_read :
        (x : Reply Bundle)
        → srv.get_bundle name s ≡ x
        → R (reconcile srv lib must_parse site name s).1
    unfolding reconcile
    from_read (found b) e = elim (Bool-cases (is_deleting b.meta)) [
      | inl d ↦ rw (e, d, reconcile) r
      | inr d ↦ rw (e, d, reconcile) (phase-kept s b R (keep b e) r b.status.phase refl)
    ]
    from_read (refused not_found) e = rw (e, reconcile) r
    from_read (refused already_exists) e = rw (e, reconcile) r
    from_read (refused (forbidden m)) e = rw (e, reconcile) r
    from_read (refused (other m)) e = rw (e, reconcile) r

    -- If the writes of a reconcile that reads `b` keep `R`, so does the reconcile.
    pub reconcile-rule : R (reconcile srv lib must_parse site name s).1
    reconcile-rule = from_read (srv.get_bundle name s) refl
