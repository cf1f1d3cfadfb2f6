-- ===== src/Configs/Handler.antt =====
-- factory.go and handler.go of pkg/catalogsourceconfig, and the Reconcile of
-- pkg/controller/catalogsourceconfig/catalogsourceconfig_controller.go.
pub mod Runs
pub mod Restarts
pub mod Deleted
pub mod Settled
pub mod Kept
pub mod Writes
use operator_marketplace.Common.{
  String, ◌<>◌, Bool, true, false, not, ◌||◌, Option, none, some, ◌==◌, if◌then◌else◌,
}
use operator_marketplace.Common.Errors.{Error, Result, ok, err, new_error, is_not_found}
use operator_marketplace.Common.Effects.{◌>>=◌, pure}
use operator_marketplace.Api.Meta.{NamespacedName, ObjectPhase, is_zero}
use operator_marketplace.Api.CatalogSourceConfig.{CatalogSourceConfig, ensure_config_gvk}
use operator_marketplace.Phase.{initial, configuring, succeeded, failed}
use operator_marketplace.Phase.Transitioner.{transition_into}
use operator_marketplace.Cluster.{Environment}
use operator_marketplace.Sources.Handler.{Outcome, returned, panicked, first_error}
use operator_marketplace.Configs.Cache.{Cache, is_entry_stale}
use operator_marketplace.Configs.Reconcilers.{
  ConfigReconciled, ConfigWorld, ConfigAction, on_cluster, config_phase, initial_config_reconcile,
  configuring_config_reconcile, succeeded_config_reconcile, failed_config_reconcile,
  deleted_config_reconcile, update_config_reconcile,
}

-- The reconcilers that the factory builds; that of an update knows whether the target has changed.
pub data ConfigReconciler : Type 0 where
  config_update : Bool → ConfigReconciler
  config_deleted config_initial config_configuring config_succeeded config_failed : ConfigReconciler

abbrev pub config_reconciler_of_phase : String → Result ConfigReconciler
config_reconciler_of_phase name =
    if name == initial
    then ok config_initial
    else if name == configuring
    then ok config_configuring
    else if name == succeeded
    then ok config_succeeded
    else if name == failed
    then ok config_failed
    else err (
        new_error (
          "No phase reconciler returned, invalid phase for CatalogSourceConfig type [phase=" <> name
          <> "]"))

-- A stale cache comes first, then a deletion, then the phase.
abbrev pub choose : Bool × Bool → CatalogSourceConfig → Result ConfigReconciler
choose (pkg_stale, target_stale) c =
    if pkg_stale || target_stale
    then ok (config_update target_stale)
    else if not (is_zero c.meta.deletion_timestamp)
    then ok config_deleted
    else config_reconciler_of_phase (config_phase c)

unfoldable pub get_config_reconciler : Cache → CatalogSourceConfig → Result ConfigReconciler
unfolding is_entry_stale
get_config_reconciler cache c = choose (is_entry_stale c cache) c

module _ (E : Environment) where
  unfoldable pub run_config_reconciler :
      ConfigReconciler → CatalogSourceConfig → ConfigAction E ConfigReconciled
  run_config_reconciler (config_update target_changed) c =
      update_config_reconcile E target_changed c
  run_config_reconciler config_deleted c = deleted_config_reconcile E c
  run_config_reconciler config_initial c = initial_config_reconcile E c
  run_config_reconciler config_configuring c = configuring_config_reconcile E c
  run_config_reconciler config_succeeded c = succeeded_config_reconcile E c
  run_config_reconciler config_failed c = failed_config_reconcile E c

  -- An object whose phase has changed is updated.
  persist_config :
      CatalogSourceConfig → Option ObjectPhase × Bool → Option Error → ConfigAction E Outcome
  persist_config out (phase, false) error = pure (returned error)
  persist_config out (none, true) error = pure (returned error)
  persist_config out (some phase, true) error = do
    updated ← on_cluster E (E.configs.update (record out { current_phase = phase }))
    pure (returned (first_error error updated))

  -- After the reconciler; taking the address of a field of a nil `out` panics.
  unfoldable pub finish_config : ConfigReconciled → ConfigAction E Outcome
  unfolding persist_config
  finish_config r w = elim r.out [
    | none ↦ (panicked, w)
    | some out ↦
        persist_config out (transition_into (E.now w.cluster) (some out.current_phase) r.next_phase)
          r.error w
  ]

  unfoldable pub handle_with :
      Result ConfigReconciler → CatalogSourceConfig → ConfigAction E Outcome
  unfolding run_config_reconciler finish_config
  handle_with (err e) c = pure (returned (some e))
  handle_with (ok reconciler) c = do r ← run_config_reconciler reconciler c; finish_config r

  unfoldable pub handle_config : CatalogSourceConfig → ConfigAction E Outcome
  unfolding get_config_reconciler handle_with
  handle_config c w = handle_with (get_config_reconciler w.cache c) c w

  fetched_config : Result CatalogSourceConfig → ConfigAction E Outcome
  fetched_config (err e) = if is_not_found e then pure (returned none) else pure (returned (some e))
  fetched_config (ok instance_) = handle_config (ensure_config_gvk instance_)

  -- The controller's Reconcile: the object is fetched and handled; one that is gone is no error.
  unfoldable pub reconcile_config_request : NamespacedName → ConfigAction E Outcome
  unfolding fetched_config
  reconcile_config_request request = do
    fetched ← on_cluster E (E.configs.get request)
    fetched_config fetched
