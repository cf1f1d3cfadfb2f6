-- ===== src/Tests/Catalogs.antt =====
-- The theorems on catalog source configs, the triggerer and the poller, at small worlds.
use operator_marketplace.Common.{
  ◌≡◌, refl, ◌↔◌, String, Option, none, some, true, false, [], ◌∷◌, is_some, ◌==◌, not,
}
use mathlib.Core.List.{Permᴰ}
use operator_marketplace.Common.Text.{split}
use operator_marketplace.Common.Maps.{lookup}
use operator_marketplace.Common.Sorting.{sort, text_leb}
use operator_marketplace.Api.Meta.{Time, empty_object_meta, empty_object_phase}
use operator_marketplace.Api.CatalogSourceConfig.{
  CatalogSourceConfig, empty_config, empty_config_spec, config_finalizer,
}
use operator_marketplace.Phase.{initial, configuring, succeeded}
use operator_marketplace.Datastore.Update.{UpdateResult}
use operator_marketplace.Configs.Cache.{
  same_length, differ, Cache, new_cache, get_package_ids, is_entry_stale, get,
}
use operator_marketplace.Configs.Cache.Stale.{is_entry_stale_iff}
use operator_marketplace.Configs.Reconcilers.{ConfigWorld, check_packages}
use operator_marketplace.Configs.Reconcilers.Packages.{any_offered, check_packages_lem}
use operator_marketplace.Configs.Reconcilers.Diagram.{ConfigMoves}
use operator_marketplace.Configs.Handler.{
  config_initial, get_config_reconciler, run_config_reconciler, handle_config,
}
use operator_marketplace.Configs.Handler.Runs.{run-ConfigMoves}
use operator_marketplace.Configs.Handler.Restarts.{IsRestarted, handle_stale}
use operator_marketplace.Configs.Handler.Deleted.{IsReleased, handle_config_deleted}
use operator_marketplace.Tests.Samples.{small, world, stored}

-- A config of two packages, in a phase.
abbrev pub config : String → String → Option Time → CatalogSourceConfig
config phase packages deleted = record empty_config {
  meta = record empty_object_meta {
    name = "mine";
    namespace = "marketplace";
    uid = "c1";
    deletion_timestamp = deleted;
  };
  spec = record empty_config_spec { packages = packages; target_namespace = "apps" };
  current_phase = record empty_object_phase { phase = record { name = phase; message = "" } };
}

abbrev cached : Cache
cached = record {
  entries =
      ("c1", record empty_config_spec { packages = "etcd,prometheus"; target_namespace = "apps" })
      ∷ [];
}

abbrev config_world : Cache → ConfigWorld small
config_world cache = record { store = stored; cache = cache; cluster = (world false).cluster }

is_entry_stale_iff_example :
    ((is_entry_stale (config succeeded "prometheus,etcd" none) cached).1 ≡ not ("apps" == "apps"))
    × (((is_entry_stale (config succeeded "prometheus,etcd" none) cached).0 ≡ false) ↔ (
        (◌≡◌ {A = String} "apps" "apps")
        × Permᴰ (get_package_ids "etcd,prometheus") (get_package_ids "prometheus,etcd")))
unfolding lookup
is_entry_stale_iff_example =
    is_entry_stale_iff (config succeeded "prometheus,etcd" none) cached
      (record empty_config_spec { packages = "etcd,prometheus"; target_namespace = "apps" }) refl

check_packages_lem_example :
    is_some (check_packages small.show_errors stored (config configuring "gone,etcd" none))
    ≡ not (any_offered stored (get_package_ids "gone,etcd"))
check_packages_lem_example =
    check_packages_lem small.show_errors stored (config configuring "gone,etcd" none)

run-ConfigMoves_example :
    ConfigMoves initial
      (config initial "etcd" none)
      (run_config_reconciler small config_initial
        (config initial "etcd" none)
        (config_world new_cache)).0
unfolding get_config_reconciler is_entry_stale get lookup new_cache
run-ConfigMoves_example =
    run-ConfigMoves small config_initial (config initial "etcd" none) (config_world new_cache) refl
      refl

-- The cache has the packages of an earlier target.
abbrev moved_cache : Cache
moved_cache = record {
  entries =
      ("c1", record empty_config_spec { packages = "etcd"; target_namespace = "before" }) ∷ [];
}

handle_stale_example :
    IsRestarted small
      (config succeeded "etcd" none)
      (config_world moved_cache)
      (handle_config small (config succeeded "etcd" none) (config_world moved_cache))
unfolding is_entry_stale get lookup get_package_ids split same_length
handle_stale_example =
    handle_stale small (config succeeded "etcd" none) (config_world moved_cache) refl

abbrev leaving : CatalogSourceConfig
leaving =
    let c = config succeeded "etcd,prometheus" (some 3) in
    record c { meta = record (c.meta) { finalizers = config_finalizer ∷ [] } }

handle_config_deleted_example :
    IsReleased small leaving
      (config_world cached)
      (handle_config small leaving (config_world cached))
unfolding is_entry_stale get lookup get_package_ids split same_length differ sort text_leb
handle_config_deleted_example = handle_config_deleted small leaving (config_world cached) refl refl

abbrev changes : UpdateResult
changes = record { registry_has_update = true; updated = "etcd" ∷ []; removed = "prometheus" ∷ [] }
