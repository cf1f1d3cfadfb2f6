-- ===== src/Tests/Settling.antt =====
-- Two calls of the config handler in a row.
use operator_marketplace.Common.{◌≡◌, refl, none, some, false, []}
use operator_marketplace.Api.CatalogSourceConfig.{empty_config_spec}
use operator_marketplace.Phase.{configuring, succeeded}
use operator_marketplace.Sources.Handler.{returned}
use operator_marketplace.Configs.Cache.{get, is_entry_stale}
use operator_marketplace.Configs.Reconcilers.{ConfigWorld}
use operator_marketplace.Configs.Handler.{handle_config}
use operator_marketplace.Configs.Handler.Settled.{handle_config_settles}
use operator_marketplace.Common.Maps.{lookup}
use operator_marketplace.Tests.Samples.{small, stored}
use operator_marketplace.Tests.Catalogs.{config}

abbrev nothing_cached : ConfigWorld small
nothing_cached = record {
  store = stored;
  cache = record { entries = [] };
  cluster = record { clock = 7; source = none; config = none; read_only = false };
}

handle_config_settles_example :
    let w = (handle_config small (config configuring "etcd" none) nothing_cached).1 in
    (lookup "c1" w.cache.entries
      ≡ some (record empty_config_spec { packages = "etcd"; target_namespace = "apps" }))
    × (handle_config small (config succeeded "etcd" none) w ≡ (returned none, w))
unfolding is_entry_stale get lookup
handle_config_settles_example =
    handle_config_settles small (config configuring "etcd" none) (config succeeded "etcd" none)
      nothing_cached refl refl refl refl refl refl refl
