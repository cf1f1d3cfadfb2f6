-- ===== src/System/Journey.antt =====
-- From an operator source to a catalog: a source that the controller brings to Succeeded fills the
-- datastore, and a config that names one of its packages reaches Succeeded after that.
use operator_marketplace.Common.{
  String, ◌≡◌, ap, ◌∙◌, true, none, some, List, [], ◌∷◌, contains, map,
}
use operator_marketplace.Common.Errors.{ok}
use operator_marketplace.Api.Meta.{NamespacedName, is_zero}
use operator_marketplace.Api.OperatorSource.{OperatorSource, current_phase_name}
use operator_marketplace.Api.CatalogSourceConfig.{CatalogSourceConfig}
use operator_marketplace.Phase.{initial, succeeded}
use operator_marketplace.Datastore.{Datastore}
use operator_marketplace.Datastore.Metadata.{RegistryMetadata}
use operator_marketplace.Datastore.Rows.{get_all_packages}
use operator_marketplace.Datastore.Written.{repository_of, contains-write}
use operator_marketplace.AppRegistry.{metadata_of}
use operator_marketplace.Cluster.{Environment}
use operator_marketplace.Sources.World.{World}
use operator_marketplace.Sources.Handler.{returned}
use operator_marketplace.Sources.Progress.{IsHealthy}
use operator_marketplace.Sources.Progress.Phases.{IsPublic}
use operator_marketplace.Sources.Progress.Arrival.{four_requests, four_requests-IsWritten}
use operator_marketplace.Configs.Cache.{Cache, get_package_ids}
use operator_marketplace.Configs.Reconcilers.{ConfigWorld, config_phase}
use operator_marketplace.Configs.Reconcilers.Packages.{any_offered_one}
use operator_marketplace.Configs.Progress.{IsHealthyCluster}
use operator_marketplace.Configs.Progress.Steps.{IsConfigAt}
use operator_marketplace.Configs.Progress.Arrival.{two_requests, config_reaches_succeeded}

-- The store offers each repository of the listing.
abbrev pub Offers : List RegistryMetadata → Datastore → Type 0
Offers ms ds =
    (pkg : String)
    → contains pkg (map repository_of ms) ≡ true
    → contains pkg (get_all_packages ds.rows) ≡ true

module _ {E : Environment} {request : NamespacedName} (H : IsHealthy E request)
    (ms : List RegistryMetadata) (listing : metadata_of (H.first ∷ H.others) ≡ ok ms) where
  four_requests-Offers :
      (w : World E) (o : OperatorSource)
      → H.held w.cluster ≡ some o
      → current_phase_name o ≡ initial
      → is_zero o.meta.deletion_timestamp ≡ true
      → IsPublic E o.spec
      → Offers ms (four_requests E request w).1.store
  four_requests-Offers w o held phase live public pkg h =
      let (writer, ds, same, e) = four_requests-IsWritten H ms listing w o held phase live public in
      ap (λ ds'. contains pkg (get_all_packages ds'.rows)) e ∙ contains-write pkg writer ms ds h

  -- In a cluster that is healthy for both: once the controller has been called four times for a
  -- source in Initial that is not being deleted, has a URL as endpoint and names no secret, and
  -- whatever has happened to the cluster since, a config that is in Initial, is not being
  -- deleted and names a package that the source's registry lists is in Succeeded after two calls for
  -- it, none of which returns an error.
  pub source_serves_config :
      {config_request : NamespacedName} (G : IsHealthyCluster E config_request) (w : World E)
      (o : OperatorSource) (c : CatalogSourceConfig) (cache : Cache) (s : E.State) (pkg : String)
      → H.held w.cluster ≡ some o
      → current_phase_name o ≡ initial
      → is_zero o.meta.deletion_timestamp ≡ true
      → IsPublic E o.spec
      → G.held s ≡ some c
      → config_phase c ≡ initial
      → is_zero c.meta.deletion_timestamp ≡ true
      → contains pkg (map repository_of ms) ≡ true
      → contains pkg (get_package_ids c.spec.packages) ≡ true
      → let w' : ConfigWorld E = record {
        store = (four_requests E request w).1.store;
        cache = cache;
        cluster = s;
      } in
        ((two_requests E config_request w').0 ≡ returned none ∷ returned none ∷ [])
        × IsConfigAt G c succeeded (two_requests E config_request w').1
  source_serves_config {config_request} G w o c cache s pkg held phase live public there new alive
        offers names =
      let w' : ConfigWorld E = record {
        store = (four_requests E request w).1.store;
        cache = cache;
        cluster = s;
      } in
      let (outcomes, at, store) = config_reaches_succeeded E config_request G w' c there new alive (
        any_offered_one w'.store pkg (get_package_ids c.spec.packages)
          (four_requests-Offers w o held phase live public pkg offers) names) in
      (outcomes, at)
