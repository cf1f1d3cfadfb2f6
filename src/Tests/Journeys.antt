-- ===== src/Tests/Journeys.antt =====
-- A config that reaches Succeeded, and one that does after an operator source has.
use operator_marketplace.Configs.Progress.Notices.{ListsHeld, renewed, notice_redeploys}
use operator_marketplace.Syncers.{receive}
use operator_marketplace.Datastore.Update.{PackageUpdateAggregator}
use operator_marketplace.Common.{true, ◌≡◌, refl, ap, false, none, some, [], ◌∷◌, contains}
use operator_marketplace.Common.Text.{split, join}
use operator_marketplace.Common.Maps.{insert, lookup}
use operator_marketplace.Common.Errors.{Result, ok}
use operator_marketplace.Api.CatalogSourceConfig.{CatalogSourceConfig}
use operator_marketplace.Phase.{initial, succeeded}
use operator_marketplace.Datastore.{write, new_datastore, repositories_of}
use operator_marketplace.Datastore.Metadata.{get_packages}
use operator_marketplace.Datastore.Rows.{get_all_packages}
use operator_marketplace.AppRegistry.{metadata_of, split_name}
use operator_marketplace.Sources.Handler.{returned}
use operator_marketplace.Sources.Progress.Arrival.{four_requests}
use operator_marketplace.Configs.Cache.{get_package_ids, is_entry_stale, get}
use operator_marketplace.Configs.Reconcilers.{ConfigWorld}
use operator_marketplace.Configs.Progress.{IsHealthyCluster}
use operator_marketplace.Configs.Progress.Steps.{IsConfigAt}
use operator_marketplace.Configs.Progress.Arrival.{two_requests, config_reaches_succeeded}
use operator_marketplace.System.Journey.{source_serves_config}
use operator_marketplace.Tests.Samples.{Small, found, in_phase, metadata, stored, world}
use operator_marketplace.Tests.Catalogs.{config}
use operator_marketplace.Tests.Arrivals.{to_list, writable, request, start, writable_cluster}

pub gets_config :
    (s : Small) (c : CatalogSourceConfig)
    → s.config ≡ some c
    → ◌≡◌ {A = Result CatalogSourceConfig × Small} (found s.config, s) (ok c, s)
gets_config s c h = ap (λ x. (found x, s)) h

abbrev pub writable_configs : IsHealthyCluster writable request
writable_configs = record {
  held = λ s. s.config;
  get_held = gets_config;
  update_ok = λ c s. refl;
  update_held = λ c s. refl;
  ready = record {
    accounts = record { create_ok = λ o s. refl; update_ok = λ o s. refl };
    roles = record { create_ok = λ o s. refl; update_ok = λ o s. refl };
    bindings = record { create_ok = λ o s. refl; update_ok = λ o s. refl };
    deployments = record { create_ok = λ o s. refl; update_ok = λ o s. refl };
    service_ok = λ service s. refl;
  };
  catalog = record { create_ok = λ o s. refl; update_ok = λ o s. refl };
}

abbrev mine : CatalogSourceConfig
mine = config initial "gone,etcd" none

abbrev holding_mine : Small
holding_mine = record ((world false).cluster) { config = some mine }

abbrev new_world : ConfigWorld writable
new_world = record { store = stored; cache = record { entries = [] }; cluster = holding_mine }

config_reaches_succeeded_example :
    ((two_requests writable request new_world).0 ≡ returned none ∷ returned none ∷ [])
    × IsConfigAt writable_configs mine succeeded (two_requests writable request new_world).1
    × ((two_requests writable request new_world).1.store ≡ stored)
unfolding is_entry_stale get lookup write new_datastore repositories_of insert get_all_packages
    get_packages get_package_ids split contains
config_reaches_succeeded_example =
    config_reaches_succeeded writable request writable_configs new_world mine refl refl refl refl

abbrev after_source : ConfigWorld writable
after_source = record {
  store = (four_requests writable request start).1.store;
  cache = record { entries = [] };
  cluster = holding_mine;
}

source_serves_config_example :
    ((two_requests writable request after_source).0 ≡ returned none ∷ returned none ∷ [])
    × IsConfigAt writable_configs mine succeeded (two_requests writable request after_source).1
unfolding is_entry_stale get lookup get_package_ids split contains metadata_of split_name
source_serves_config_example =
    source_serves_config writable_cluster (metadata "etcd" "0.9.2" ∷ []) refl writable_configs start
      (in_phase initial none) mine (record { entries = [] }) holding_mine "etcd" refl refl refl
      (record { request_uri = refl; url = refl; no_secret = refl }) refl refl refl refl refl

pub lists_held : ListsHeld writable_configs
lists_held s c h = ap (λ x. (ok (to_list x), s)) h

-- Of the two packages of the config, one is removed and one is updated.
abbrev changed : PackageUpdateAggregator
changed = record { updated = ("etcd", true) ∷ []; removed = ("gone", true) ∷ [] }

abbrev pub deployed : CatalogSourceConfig
deployed = config succeeded "gone,etcd" none

abbrev deployed_world : ConfigWorld writable
deployed_world = record {
  store = stored;
  cache = record { entries = [] };
  cluster = record ((world false).cluster) { config = some deployed };
}

abbrev notified_world : ConfigWorld writable
notified_world = record deployed_world {
  cluster = receive writable (some changed) deployed_world.cluster;
}

notice_redeploys_example :
    ((two_requests writable request notified_world).0 ≡ returned none ∷ returned none ∷ [])
    × IsConfigAt writable_configs
        (renewed changed deployed)
        succeeded
        (two_requests writable request notified_world).1
unfolding lookup write new_datastore repositories_of insert get_all_packages get_packages
    get_package_ids split contains join
notice_redeploys_example =
    notice_redeploys writable_configs lists_held changed deployed_world deployed refl refl refl refl
