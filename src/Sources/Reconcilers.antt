-- ===== src/Sources/Reconcilers.antt =====
-- The phase reconcilers of pkg/operatorsource: initial.go, validating.go, downloading.go,
-- configuring.go, succeeded.go, failed.go, purging.go, deleted.go and outofsync.go.
pub mod Diagram
pub mod Stored
pub mod Success
use operator_marketplace.Common.{
  ℕ, String, ◌<>◌, Bool, true, false, not, ◌||◌, Option, none, some, List, [], ◌∷◌, ◌==◌,
  if◌then◌else◌,
}
use operator_marketplace.Common.Errors.{
  Error, Result, ok, err, new_error, is_not_found, is_already_exists,
}
use operator_marketplace.Common.Effects.{◌>>=◌, ◌>>◌, pure}
use operator_marketplace.Api.Meta.{Phase}
use operator_marketplace.Api.OperatorSource.{
  OperatorSource, OperatorSourceSpec, current_phase_name, empty_status, is_equal,
  ensure_source_finalizer, remove_source_finalizer,
}
use operator_marketplace.Api.CatalogSourceConfig.{
  CatalogSourceConfig, empty_config, ensure_config_gvk, remove_owner,
}
use operator_marketplace.Phase.{
  initial, configuring, succeeded, failed, validating, downloading, purging, get_next,
  get_next_with_message,
}
use operator_marketplace.Datastore.{
  write, add_operator_source, remove_operator_source, get_operator_source,
  get_package_ids_by_operator_source,
}
use operator_marketplace.Datastore.Metadata.{RegistryMetadata, OperatorSourceKey}
use operator_marketplace.AppRegistry.{new_client, list_packages}
use operator_marketplace.Cluster.{Environment, Options}
use operator_marketplace.Sources.World.{
  Reconciled, World, Action, outside, change_store, from_store, wrong_reconciler,
  setup_app_registry_options,
}
use operator_marketplace.Sources.Builder.{
  with_type_meta, with_namespaced_name, with_labels, with_owner, with_spec,
}

-- `out` goes on to the phase, with no error.
abbrev pub advance : OperatorSource → String → Reconciled
advance out name = record { out = some out; next_phase = some (get_next name); error = none }

-- The phase with the error's message, and the error.
abbrev pub fail_into : OperatorSource → String → Error → Reconciled
fail_into out name e = record {
  out = some out;
  next_phase = some (get_next_with_message name e.message);
  error = some e;
}

abbrev pub unchanged : OperatorSource → Reconciled
unchanged out = record { out = some out; next_phase = none; error = none }

module _ (E : Environment) where
  unfoldable pub initial_reconcile : OperatorSource → Action E Reconciled
  initial_reconcile o = if not (current_phase_name o == initial) then pure wrong_reconciler else do
    change_store E (add_operator_source o)
    pure (advance (ensure_source_finalizer o) validating)

  abbrev validated : OperatorSource → Option Error → Reconciled
  validated o none = advance o downloading
  validated o (some e) = record {
    out = some o;
    next_phase =
        some (get_next_with_message failed ("Invalid operator source endpoint - " <> e.message));
    error = some e;
  }

  unfoldable pub validating_reconcile : OperatorSource → Action E Reconciled
  validating_reconcile o =
      if not (current_phase_name o == validating)
      then pure wrong_reconciler
      else pure (validated o (E.parse_request_uri o.spec.endpoint))

  abbrev pub err_empty_manifests : Error
  err_empty_manifests = new_error "The operator source endpoint returned an empty manifest list"

  finish_download : OperatorSource → Action E Reconciled
  finish_download o = do
    packages ← from_store E (get_package_ids_by_operator_source o.meta.uid)
    pure (advance (record o { status = record (o.status) { packages = packages } }) configuring)

  after_write : OperatorSource → ℕ × Option Error → Action E Reconciled
  unfolding finish_download
  after_write o (count, none) = finish_download o
  after_write o (ℕ.zero, some e) = pure (fail_into o failed e)
  after_write o (ℕ.suc count, some e) = finish_download o

  store_manifests : OperatorSource → Result (List RegistryMetadata) → Action E Reconciled
  unfolding after_write
  store_manifests o (err e) = pure (fail_into o downloading e)
  store_manifests o (ok []) = pure (fail_into o failed err_empty_manifests)
  store_manifests o (ok (m ∷ ms)) = do
    written ← λ w. (
      (write (some o) (some (m ∷ ms)) w.store).0,
      record w { store = (write (some o) (some (m ∷ ms)) w.store).1 },
    )
    after_write o written

  list_with : OperatorSource → Result Options → Action E Reconciled
  unfolding store_manifests
  list_with o (err e) = pure (fail_into o downloading e)
  list_with o (ok registry) = do
    manifests ← outside E (list_packages E registry o.spec.registry_namespace)
    store_manifests o manifests

  connect : OperatorSource → Result Options → Action E Reconciled
  unfolding list_with
  connect o (err e) = pure (fail_into o downloading e)
  connect o (ok options) = list_with o (new_client E options)

  unfoldable pub downloading_reconcile : OperatorSource → Action E Reconciled
  unfolding connect
  downloading_reconcile o =
      if not (current_phase_name o == downloading) then pure wrong_reconciler else do
        options ← outside E (setup_app_registry_options E o.spec o.meta.namespace)
        connect o options

  -- The object that Configuring creates.
  unfoldable pub new_config : OperatorSource → String → CatalogSourceConfig
  unfolding with_type_meta with_namespaced_name with_labels with_spec with_owner
  new_config o manifests = with_owner o (
      with_spec o.meta.namespace manifests o.spec.display_name o.spec.publisher (
        with_labels o.meta.labels
          (with_namespaced_name o.meta.namespace o.meta.name (with_type_meta empty_config))))

  -- The object that Configuring updates, from the one that exists.
  unfoldable pub updated_config :
      OperatorSource → String → CatalogSourceConfig → CatalogSourceConfig
  unfolding with_labels with_spec with_owner ensure_config_gvk remove_owner
  updated_config o manifests existing = with_owner o (
      with_labels o.meta.labels (
        with_spec o.meta.namespace manifests o.spec.display_name o.spec.publisher
          (remove_owner (ensure_config_gvk existing) o.meta.uid)))

  abbrev configured : OperatorSource → Option Error → Reconciled
  configured o none = advance o succeeded
  configured o (some e) = fail_into o configuring e

  update_existing : OperatorSource → String → Result CatalogSourceConfig → Action E Reconciled
  update_existing o manifests (err e) = pure (fail_into o configuring e)
  update_existing o manifests (ok existing) = do
    updated ← outside E (E.configs.update (updated_config o manifests existing))
    pure (configured o updated)

  after_create : OperatorSource → String → Option Error → Action E Reconciled
  unfolding update_existing
  after_create o manifests none = pure (advance o succeeded)
  after_create o manifests (some e) =
      if not (is_already_exists e) then pure (fail_into o configuring e) else do
        existing ←
            outside E (E.configs.get (record { namespace = o.meta.namespace; name = o.meta.name }))
        update_existing o manifests existing

  unfoldable pub configuring_reconcile : OperatorSource → Action E Reconciled
  unfolding after_create
  configuring_reconcile o =
      if not (current_phase_name o == configuring) then pure wrong_reconciler else do
        manifests ← from_store E (get_package_ids_by_operator_source o.meta.uid)
        created ← outside E (E.configs.create (new_config o manifests))
        after_create o manifests created

  unfoldable pub succeeded_reconcile : OperatorSource → Action E Reconciled
  succeeded_reconcile o =
      if not (current_phase_name o == succeeded) then pure wrong_reconciler else pure (unchanged o)

  unfoldable pub failed_reconcile : OperatorSource → Action E Reconciled
  failed_reconcile o =
      if not (current_phase_name o == failed) then pure wrong_reconciler else pure (unchanged o)

  -- Everything in the status but the phase is reset.
  abbrev pub reset_status : OperatorSource → OperatorSource
  reset_status o = record o {
    status = record empty_status { current_phase = o.status.current_phase };
  }

  abbrev pub purged : OperatorSource → Option Error → Reconciled
  purged o none = advance (reset_status o) initial
  purged o (some e) = if not (is_not_found e) then fail_into o purging e else record {
    out = some (reset_status o);
    next_phase = some (get_next initial);
    error = some e;
  }

  unfoldable pub purging_reconcile : OperatorSource → Action E Reconciled
  purging_reconcile o = if not (current_phase_name o == purging) then pure wrong_reconciler else do
    change_store E (remove_operator_source o.meta.uid)
    deleted ← outside E (
        E.configs.delete
          (with_namespaced_name o.meta.namespace o.meta.name (with_type_meta empty_config)))
    pure (purged o deleted)

  abbrev after_deletion : OperatorSource → Option Error → Reconciled
  after_deletion out none = unchanged out
  after_deletion out (some e) = record { out = none; next_phase = none; error = some e }

  -- The update stands here because no phase changes.
  unfoldable pub deleted_reconcile : OperatorSource → Action E Reconciled
  deleted_reconcile o = do
    change_store E (remove_operator_source o.meta.uid)
    updated ← outside E (E.sources.update (remove_source_finalizer o))
    pure (after_deletion (remove_source_finalizer o) updated)

  -- The datastore knows the object, with this spec.
  abbrev pub in_sync : Option OperatorSourceKey → OperatorSourceSpec → Bool
  in_sync none spec = false
  in_sync (some source) spec = is_equal E.fold source.spec (some spec)

  unfoldable pub out_of_sync_reconcile : OperatorSource → Action E Reconciled
  out_of_sync_reconcile o =
      if current_phase_name o == initial || current_phase_name o == purging
      then pure (unchanged o)
      else do
        source ← from_store E (get_operator_source o.meta.uid)
        pure (if in_sync source o.spec then unchanged o else advance o purging)
