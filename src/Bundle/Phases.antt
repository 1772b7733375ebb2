-- ===== src/Bundle/Phases.antt =====
-- The phase of a CRCBundle, from one reconcile to the next.
use guestcluster.Api.{Bundle, BundlePhase}
use guestcluster.Base.{Text, ap, inl, inr, refl, subst, sym, ◌∙◌, ◌≡◌, ◌⊎◌}
use guestcluster.Bundle.{BundleServer, Claim, Job, Site}
use guestcluster.Bundle.Moves.{IsFinished, Move}
use guestcluster.Bundle.Reconcile.{reconcile}
use guestcluster.Bundle.Rule.{reconcile-rule}
use guestcluster.Kube.{found}
use guestcluster.Platform.{Library}

-- Creates and deletes of other objects leave the bundle alone, and a status write is stored or lost.
pub record BundleStore {S Q : Type 0} (srv : BundleServer S Q) (name : Text)
    (phase : S → BundlePhase) : Type 0 where
  pub called : (s : S) (b : Bundle) → srv.get_bundle name s ≡ found b → b.meta.name ≡ name
  pub claim_created : (c : Claim Q) (s : S) → phase (srv.create_claim c s).1 ≡ phase s
  pub job_created : (j : Job) (s : S) → phase (srv.create_job j s).1 ≡ phase s
  pub claim_deleted : (c : Claim Q) (s : S) → phase (srv.delete_claim c s).1 ≡ phase s
  pub job_deleted : (j : Job) (s : S) → phase (srv.delete_job j s).1 ≡ phase s
  pub status_written :
      (b : Bundle) (s : S)
      → b.meta.name ≡ name
      → (phase (srv.update_bundle_status b s).1 ≡ phase s)
        ⊎ (phase (srv.update_bundle_status b s).1 ≡ b.status.phase)

module _ {S Q : Type 0} (srv : BundleServer S Q) (lib : Library Q) (must_parse : Text → Q)
    (site : Site) (name : Text) where
  -- A reconcile of a CRCBundle keeps the stored phase or makes a move of the bundle that it read:
  -- from a new or pending one to Preparing; from Preparing to Ready if the Job is there, has not
  -- failed and has succeeded, and the metadata and the SSH key are there; from Preparing to
  -- Failed if the Job is there and has failed; from Preparing or Failed to Pending if the Job is
  -- missing; from Ready to Pending if the golden claim or the SSH key is missing.
  pub reconcile-Move :
      {phase : S → BundlePhase} (store : BundleStore srv name phase) (s : S)
      → let s' = (reconcile srv lib must_parse site name s).1 in
        (phase s' ≡ phase s)
        ⊎ ((b : Bundle) × (srv.get_bundle name s ≡ found b)
            × Move srv lib must_parse site s b (phase s'))
  reconcile-Move {phase} store s =
      reconcile-rule srv lib must_parse site name s
        (λ t.
          (phase t ≡ phase s)
          ⊎ ((b : Bundle) × (srv.get_bundle name s ≡ found b)
              × Move srv lib must_parse site s b (phase t)))
        (λ b e. record {
          claim_new = λ c t r. unchanged _ _ (store.claim_created c t) r;
          job_new = λ j t r. unchanged _ _ (store.job_created j t) r;
          claim_gone = λ c t f r. unchanged _ _ (store.claim_deleted c t) r;
          job_gone = λ j t f r. unchanged _ _ (store.job_deleted j t) r;
          status = λ b' t m p r.
              written b e b' p r
                (store.status_written b' t (ap (λ x. x.name) m ∙ store.called s b e));
        })
        (inl refl)
    where
      Moved : BundlePhase → Type 0
      Moved p =
          (p ≡ phase s)
          ⊎ ((b : Bundle) × (srv.get_bundle name s ≡ found b) × Move srv lib must_parse site s b p)

      unchanged : (p q : BundlePhase) → p ≡ q → Moved q → Moved p
      unchanged p q e m = subst Moved (sym e) m

      written :
          (b : Bundle)
          → srv.get_bundle name s ≡ found b
          → (b' : Bundle) → Move srv lib must_parse site s b b'.status.phase
          → {p q : BundlePhase} → Moved q
          → (p ≡ q) ⊎ (p ≡ b'.status.phase)
          → Moved p
      written b e b' m {p} {q} r (inl f) = subst Moved (sym f) r
      written b e b' m {p} {q} r (inr f) =
          inr (b, e, subst (λ x. Move srv lib must_parse site s b x) (sym f) m)

  -- A reconcile of a CRCBundle deletes nothing before the bundle is recorded as Ready: what the
  -- creates and the status writes keep, the reconcile keeps, unless the bundle that it read was
  -- in Preparing with its Job succeeded, the metadata and the SSH key in place, and the write of
  -- the Ready status succeeded.
  pub reconcile-IsFinished :
      (R : S → Type 0)
      → ((c : Claim Q) (t : S) → R t → R (srv.create_claim c t).1)
      → ((j : Job) (t : S) → R t → R (srv.create_job j t).1)
      → ((b : Bundle) (t : S) → R t → R (srv.update_bundle_status b t).1)
      → (s : S) → R s
      → R (reconcile srv lib must_parse site name s).1
        ⊎ ((b : Bundle) × (srv.get_bundle name s ≡ found b)
            × IsFinished srv lib must_parse site s b)
  reconcile-IsFinished R claim_new job_new status s r =
      reconcile-rule srv lib must_parse site name s (λ t. R t ⊎ Done)
        (λ b e. record {
          claim_new = λ c t x. either (claim_new c t) x;
          job_new = λ j t x. either (job_new j t) x;
          status = λ b' t m p x. either (status b' t) x;
          claim_gone = λ c t f x. inr (b, e, f);
          job_gone = λ j t f x. inr (b, e, f);
        })
        (inl r)
    where
      Done : Type 0
      Done =
          (b : Bundle) × (srv.get_bundle name s ≡ found b) × IsFinished srv lib must_parse site s b

      either : {t u : S} → (R t → R u) → R t ⊎ Done → R u ⊎ Done
      either f (inl x) = inl (f x)
      either f (inr d) = inr d
