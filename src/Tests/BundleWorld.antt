-- ===== src/Tests/BundleWorld.antt =====
-- A concrete API server for one CRCBundle, with its laws.
use guestcluster.Api.{Bundle, BundlePhase, Secret}
use guestcluster.Base.{
  Bool-cases, List, Text, [], arith, codes, inl, inr, none, refl, text_eq, text_eq→eq, true, ℕ,
  ◌&&◌, ◌∷◌, ◌≡◌,
}
use guestcluster.Bundle.{BundleServer, Claim, ConfigMap, Job}
use guestcluster.Bundle.Phases.{BundleStore}
use guestcluster.Kube.{found}
use guestcluster.Tests.World.{find}

pub record Depot : Type 0 where
  pub bundle : Bundle
  pub claims : List (Claim ℕ)
  pub jobs : List Job
  pub config_maps : List ConfigMap
  pub secrets : List Secret

abbrev pub bundle_name : Text
bundle_name = codes "crc-4.19.0-amd64"

abbrev pub depot_server : BundleServer Depot ℕ
depot_server = record {
  get_bundle = λ name w. find (λ (b : Bundle). b.meta) [] name (w.bundle ∷ []);
  get_claim = λ ns name w. find (λ (c : Claim ℕ). c.meta) ns name w.claims;
  get_job = λ ns name w. find (λ (j : Job). j.meta) ns name w.jobs;
  get_config_map = λ ns name w. find (λ (c : ConfigMap). c.meta) ns name w.config_maps;
  get_secret = λ ns name w. find (λ (x : Secret). x.meta) ns name w.secrets;
  create_claim = λ c w. (none, record w { claims = c ∷ w.claims });
  create_job = λ j w. (none, record w { jobs = j ∷ w.jobs });
  delete_claim = λ c w. (none, record w { claims = [] });
  delete_job = λ j w. (none, record w { jobs = [] });
  update_bundle_status = λ b w. (none, record w { bundle = b });
}

abbrev pub stored_phase : Depot → BundlePhase
stored_phase w = w.bundle.status.phase

found_name :
    (b c : Bundle)
    → find (λ (b : Bundle). b.meta) [] bundle_name (c ∷ []) ≡ found b
    → b.meta.name ≡ bundle_name
found_name b c h =
    elim (Bool-cases (text_eq c.meta.namespace [] && text_eq c.meta.name bundle_name)) [
      | inr e ↦ cc (rw e at h)
      | inl e ↦
          let same_bundle : c ≡ b = cc (rw e at h) in
          let called_so : text_eq c.meta.name bundle_name ≡ true = ground arith in
          rw (← same_bundle) (text_eq→eq c.meta.name bundle_name called_so)
    ]

pub depot-BundleStore : BundleStore depot_server bundle_name stored_phase
depot-BundleStore = record {
  called = λ s b h. found_name b s.bundle h;
  claim_created = λ c s. refl;
  job_created = λ j s. refl;
  claim_deleted = λ c s. refl;
  job_deleted = λ j s. refl;
  status_written = λ b s e. inr refl;
}
