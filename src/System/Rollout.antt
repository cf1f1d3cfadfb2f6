-- ===== src/System/Rollout.antt =====
-- From a new release in a remote registry to the configs: a round of polling finds it, and a config
-- that names a package of the source is deployed again.
use mathlib.Core.Path.{subst}
use operator_marketplace.Common.{
  String, ◌≡◌, refl, sym, ap, ◌∙◌, true, false, none, some, List, [], ◌∷◌, contains, Option,
  is_some,
}
use operator_marketplace.Common.Maps.{lookup}
use operator_marketplace.Common.Errors.{ok}
use operator_marketplace.Common.Text.{split}
use operator_marketplace.Api.Meta.{NamespacedName, is_zero}
use operator_marketplace.Api.OperatorSource.{OperatorSource}
use operator_marketplace.Api.CatalogSourceConfig.{CatalogSourceConfig}
use operator_marketplace.Phase.{succeeded}
use operator_marketplace.Datastore.Rows.{get_row}
use operator_marketplace.Datastore.Metadata.{RegistryMetadata, OperatorSourceRow, get_packages}
use operator_marketplace.Datastore.Update.{
  UpdateResult, PackageUpdateAggregator, new_package_update_aggregator, add_result, is_updated,
  is_removed,
}
use operator_marketplace.Datastore.Aggregate.{aggregate_lem}
use operator_marketplace.Datastore.Verdict.{AllReleased, has_update_verdict}
use operator_marketplace.Datastore.Differences.{
  has_new_release, gone, has_update_lists, has_new_release-differs,
}
use operator_marketplace.Datastore.Reading.{or_false}
use operator_marketplace.Datastore.Written.{contains-get_all_packages}
use operator_marketplace.AppRegistry.{metadata_of}
use operator_marketplace.Cluster.{Environment, Options}
use operator_marketplace.Sources.World.{World}
use operator_marketplace.Sources.Handler.{returned}
use operator_marketplace.Sources.Poller.{Round, sent, idle, send_notification, poll}
use operator_marketplace.Sources.Progress.{IsHealthy}
use operator_marketplace.Sources.Progress.Phases.{IsPublic, IsAt}
use operator_marketplace.Sources.Progress.Purges.{IsUpdatable}
use operator_marketplace.Sources.Progress.Updates.{only_row, poll-update}
use operator_marketplace.Syncers.{receive}
use operator_marketplace.Configs.Cache.{Cache, get_package_ids}
use operator_marketplace.Configs.Reconcilers.{ConfigWorld}
use operator_marketplace.Configs.Reconcilers.Packages.{any_offered, any_offered_one}
use operator_marketplace.Configs.Triggerer.Changed.{
  affected-contains, contains-kept, split-kept, updated-is_updated_or_removed,
}
use operator_marketplace.Configs.Progress.{IsHealthyCluster}
use operator_marketplace.Configs.Progress.Steps.{IsConfigAt}
use operator_marketplace.Configs.Progress.Arrival.{two_requests}
use operator_marketplace.Configs.Progress.Notices.{ListsHeld, renewed, notice_redeploys}

-- The calls for sources leave the config as it is.
pub record LeavesConfig {E : Environment} {request : NamespacedName}
    (G : IsHealthyCluster E request) : Type 0 where
  pub listing :
      (options : Options) (namespace : Option String) (s : E.State)
      → G.held (E.list_packages options namespace s).1 ≡ G.held s
  pub update : (o : OperatorSource) (s : E.State) → G.held (E.sources.update o s).1 ≡ G.held s

-- What is asked of a result for a package that is updated and not removed.
notified :
    (r : UpdateResult) (pkg : String)
    → contains pkg r.updated ≡ true
    → contains pkg r.removed ≡ false
    → let n = add_result r new_package_update_aggregator in
      (is_some (lookup pkg n.updated) ≡ true) × (is_some (lookup pkg n.removed) ≡ false)
unfolding is_updated is_removed
notified r pkg u d =
    let (removed, updated) = aggregate_lem pkg (r ∷ []) in
    (
      updated ∙ or_false (contains pkg r.updated) ∙ u,
      removed ∙ or_false (contains pkg r.removed) ∙ d,
    )

module _ {E : Environment} {request config_request : NamespacedName} (H : IsHealthy E request)
    (K : IsUpdatable H) (G : IsHealthyCluster E config_request) (lists : ListsHeld G)
    (leaves : LeavesConfig G) where
  offered :
      (n : PackageUpdateAggregator) (w : World E) (c : CatalogSourceConfig)
      (row : OperatorSourceRow) (uid pkg : String)
      → lookup uid w.store.rows ≡ some row
      → contains pkg (get_packages row) ≡ true
      → contains pkg (split "," c.spec.packages) ≡ true
      → is_some (lookup pkg n.removed) ≡ false
      → any_offered w.store (get_package_ids (renewed n c).spec.packages) ≡ true
  unfolding get_package_ids
  offered n w c row uid pkg found has names stays =
      any_offered_one w.store pkg _ (contains-get_all_packages pkg uid row w.store.rows found has) (
        ap (contains pkg) (split-kept n pkg c.spec.packages names stays)
        ∙ contains-kept n pkg (split "," c.spec.packages) names stays)

  -- After the round, a notification takes the config to Succeeded, with the packages that stay.
  abbrev pub RollsOut : CatalogSourceConfig → Cache → Round × World E → Type 0
  RollsOut c cache (round, w) =
      (n : PackageUpdateAggregator) × (round ≡ sent (some n))
      × (let w' : ConfigWorld E = record {
        store = w.store;
        cache = cache;
        cluster = receive E (some n) w.cluster;
      } in
          ((two_requests E config_request w').0 ≡ returned none ∷ returned none ∷ [])
          × IsConfigAt G (renewed n c) succeeded (two_requests E config_request w').1)

  rolls_out :
      (n : PackageUpdateAggregator) (w : World E) (c : CatalogSourceConfig) (cache : Cache)
      (row : OperatorSourceRow) (uid pkg : String)
      → lookup uid w.store.rows ≡ some row
      → contains pkg (get_packages row) ≡ true
      → G.held w.cluster ≡ some c
      → is_zero c.meta.deletion_timestamp ≡ true
      → contains pkg (split "," c.spec.packages) ≡ true
      → is_some (lookup pkg n.updated) ≡ true
      → is_some (lookup pkg n.removed) ≡ false
      → RollsOut c cache (send_notification E n, w)
  unfolding send_notification
  rolls_out n w c cache row uid pkg found has held live names up stays = (
    n,
    rw (updated-is_updated_or_removed n pkg up) refl,
    notice_redeploys G lists n (record { store = w.store; cache = cache; cluster = w.cluster }) c
        held live (affected-contains n pkg (split "," c.spec.packages) names up)
        (offered n w c row uid pkg found has names stays),
  )

  -- In a cluster that is healthy for both, whose listing gives the config and whose calls for sources
  -- leave it as it is, a datastore that holds one row, of a source in Succeeded that is not being
  -- deleted, has a URL as endpoint and names no secret, of whose repositories one is listed with
  -- another release, and each listed repository has a release: for a config that is not being deleted
  -- and names a package of the row whose repository is still listed, a round of polling, during which no
  -- other goroutine changes the datastore or the cluster, ends with a notification, and once the catalog loop has received it, two calls of the controller's Reconcile
  -- for the config return no error, and it is in Succeeded with its packages but those that the
  -- notification calls removed, whatever the cache holds for it.
  pub release_reaches_config :
      (row : OperatorSourceRow) (w : World E) (ms : List RegistryMetadata) (c : CatalogSourceConfig)
      (cache : Cache) (pkg : String)
      → w.store ≡ record { rows = (row.key.uid, row) ∷ [] }
      → IsPublic E row.key.spec
      → metadata_of (H.first ∷ H.others) ≡ ok ms
      → AllReleased ms
      → row.key.name ≡ request
      → IsAt H row.key.uid row.key.spec succeeded w
      → has_new_release row ms ≡ true
      → contains pkg (get_packages row) ≡ true
      → contains pkg (gone ms row.repositories) ≡ false
      → G.held w.cluster ≡ some c
      → is_zero c.meta.deletion_timestamp ≡ true
      → contains pkg (split "," c.spec.packages) ≡ true
      → RollsOut c cache (poll E (idle E) w)
  unfolding lookup get_row
  release_reaches_config row w ms c cache pkg only public listing released named a new has stays
        held live names =
      let found = only_row H K row w ms only public listing released in
      let (r, done, ups, rem) = has_update_lists ms row.key.uid w.store row pkg found released in
      let (r', done', says, _) = has_update_verdict ms row.key.uid w.store row found released in
      let same : r' ≡ r = cc (done, done') in
      let says' : r.registry_has_update ≡ true =
        ap (λ x. x.registry_has_update) (sym same)
        ∙ says
        ∙ rw (has_new_release-differs row ms new) refl in
      let (up, stays') = notified r pkg (ups ∙ rw (new, has) refl) (rem ∙ stays) in
      let (changed, polled, _) =
        poll-update H K row w ms only public listing released r named a done says' in
      let n = add_result r new_package_update_aggregator in
      subst (RollsOut c cache) (sym polled) (
        rolls_out n _ c cache row row.key.uid pkg found has
          (leaves.update changed _ ∙ leaves.listing _ _ w.cluster ∙ held) live names up stays')
