-- ===== src/Tests/Releases.antt =====
-- A new release that gets to the datastore (the registry lists etcd 0.9.2, and the row has 0.9.1),
-- and the retrieval of all packages.
use operator_marketplace.Common.{◌≡◌, refl, none, some, [], ◌∷◌, contains, true, List, ◌↔◌}
use operator_marketplace.Common.Maps.{lookup, insert}
use operator_marketplace.Phase.{succeeded}
use operator_marketplace.Datastore.{repositories_of, new_repository}
use operator_marketplace.Datastore.Metadata.{get_packages, OperatorSourceRow, OperatorMetadata}
use operator_marketplace.Datastore.Rows.{new_row}
use operator_marketplace.AppRegistry.{metadata_of, split_name}
use operator_marketplace.Common.Text.{split}
use operator_marketplace.Sources.World.{World}
use operator_marketplace.Sources.Handler.{returned}
use operator_marketplace.Sources.Poller.{idle, poll}
use operator_marketplace.Sources.Progress.Phases.{IsAt}
use operator_marketplace.Sources.Progress.Purges.{IsUpdatable}
use operator_marketplace.Sources.Progress.Updates.{five_requests, IsCurrent, new_release_arrives}
use operator_marketplace.AppRegistry.{retrieve_all}
use operator_marketplace.AppRegistry.Retrieval.Lists.{AreManifests, retrieve_all_iff}
use operator_marketplace.Cluster.{Options, Package}
use operator_marketplace.Common.Errors.{ok}
use operator_marketplace.Tests.Samples.{Small, small, in_phase, metadata, world}
use operator_marketplace.System.Rollout.{LeavesConfig, RollsOut, release_reaches_config}
use operator_marketplace.Tests.Journeys.{writable_configs, lists_held, deployed}
use operator_marketplace.Tests.Arrivals.{writable, writable_cluster, request}

abbrev stale_row : OperatorSourceRow
unfolding new_row repositories_of new_repository insert
stale_row =
    new_row (in_phase succeeded none)
      (repositories_of (in_phase succeeded none) (metadata "etcd" "0.9.1" ∷ []) [])

abbrev stale_world : World writable
stale_world = record {
  store = record { rows = ("u1", stale_row) ∷ [] };
  cluster = record ((world true).cluster) { source = some (in_phase succeeded none) };
}

abbrev updatable : IsUpdatable writable_cluster
updatable = record { delete_ok = λ c s. refl; list_held = λ options namespace s. refl }

new_release_arrives_example :
    ((five_requests writable request (poll writable (idle writable) stale_world).1).0
      ≡ returned none ∷ returned none ∷ returned none ∷ returned none ∷ returned none ∷ [])
    × IsAt writable_cluster "u1"
        (in_phase succeeded none).spec
        succeeded
        (five_requests writable request (poll writable (idle writable) stale_world).1).1
    × IsCurrent "u1"
        (metadata "etcd" "0.9.2" ∷ [])
        (five_requests writable request (poll writable (idle writable) stale_world).1).1.store
unfolding new_row repositories_of new_repository insert lookup contains metadata_of split_name split
new_release_arrives_example =
    new_release_arrives writable_cluster updatable stale_row stale_world
      (metadata "etcd" "0.9.2" ∷ []) refl
      (record { request_uri = refl; url = refl; no_secret = refl }) refl (refl, tt) refl
      (record {
        object = in_phase succeeded none;
        held = refl;
        here = refl;
        live = refl;
        same_uid = refl;
        same_spec = refl;
      })
      refl (refl, tt)

abbrev client : Options
client = record { source = "https://quay.io/cnr"; auth_token = "" }

abbrev retrieved : List OperatorMetadata
retrieved =
    record {
      registry_metadata = record {
        namespace = "community";
        repository = "etcd";
        release = "0.9.2";
        digest = "digest";
      };
      raw_yaml = "blob";
    }
    ∷ []

retrieve_all_iff_example :
    (retrieve_all small client "" stale_world.cluster ≡ (ok retrieved, stale_world.cluster)) ↔ (
      (ps : List Package) × (between : Small) × (small.list_packages client none stale_world.cluster
        ≡ (ok ps, between))
      × AreManifests small client ps between retrieved stale_world.cluster)
retrieve_all_iff_example =
    retrieve_all_iff small client "" stale_world.cluster retrieved stale_world.cluster

leaves_config : LeavesConfig writable_configs
leaves_config = record { listing = λ options namespace s. refl; update = λ o s. refl }

-- The stale source, and a config that names its package.
abbrev stale_pair : World writable
stale_pair = record stale_world {
  cluster = record (stale_world.cluster) { config = some deployed };
}

release_reaches_config_example :
    RollsOut writable_cluster updatable writable_configs lists_held leaves_config deployed
      (record { entries = [] })
      (poll writable (idle writable) stale_pair)
unfolding new_row repositories_of new_repository insert lookup contains metadata_of split_name split
    get_packages
release_reaches_config_example =
    release_reaches_config writable_cluster updatable writable_configs lists_held leaves_config
      stale_row stale_pair (metadata "etcd" "0.9.2" ∷ []) deployed (record { entries = [] }) "etcd"
      refl (record { request_uri = refl; url = refl; no_secret = refl }) refl (refl, tt) refl
      (record {
        object = in_phase succeeded none;
        held = refl;
        here = refl;
        live = refl;
        same_uid = refl;
        same_spec = refl;
      })
      refl refl refl refl refl refl
