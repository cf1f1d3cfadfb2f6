-- ===== src/Configs/Reconcilers.antt =====
-- The phase reconcilers of pkg/catalogsourceconfig: initial.go, configuring.go, succeeded.go,
-- failed.go, deleted.go and update.go.
pub mod Packages
pub mod Diagram
pub mod Served
pub mod Ready
use operator_marketplace.Common.{
  String, ◌<>◌, Bool, true, false, not, ◌&&◌, Option, none, some, List, [], ◌∷◌, ◌++◌, ◌==◌,
  if◌then◌else◌,
}
use operator_marketplace.Common.Text.{to_lower}
use operator_marketplace.Common.Maps.{lookup}
use operator_marketplace.Common.Errors.{
  Error, Result, ok, err, new_error, is_already_exists, new_aggregate,
}
use operator_marketplace.Common.Effects.{Eff, ◌>>=◌, ◌>>◌, pure}
use operator_marketplace.Api.Meta.{Phase, empty_object_phase, empty_object_meta, NamespacedName}
use operator_marketplace.Api.CatalogSourceConfig.{
  CatalogSourceConfig, CatalogSourceConfigSpec, ensure_config_finalizer, remove_config_finalizer,
  ensure_display_name, ensure_publisher,
}
use operator_marketplace.Phase.{
  initial, configuring, succeeded, failed, get_next, get_next_with_message,
}
use operator_marketplace.Datastore.{Datastore, read}
use operator_marketplace.Datastore.Metadata.{OpsrcRef}
use operator_marketplace.Cluster.{Environment}
use operator_marketplace.Cluster.Objects.{CatalogSource}
use operator_marketplace.Sources.Builder.{datastore_label}
use operator_marketplace.Sources.World.{err_wrong_reconciler_invoked}
use operator_marketplace.Configs.Cache.{Cache, get_package_ids, get, evict, set}
use operator_marketplace.Configs.Builders.{build_catalog_source, with_olm_labels}
use operator_marketplace.Configs.Registry.{ensure, tolerated}

-- The (out, nextPhase, err) of `Reconcile`; a nil pointer is `none`.
pub record ConfigReconciled : Type 0 where
  pub out : Option CatalogSourceConfig
  pub next_phase : Option Phase
  pub error : Option Error

abbrev pub wrong_config_reconciler : ConfigReconciled
wrong_config_reconciler = record {
  out = none;
  next_phase = none;
  error = some err_wrong_reconciler_invoked;
}

abbrev pub config_advance : CatalogSourceConfig → String → ConfigReconciled
config_advance out name = record { out = some out; next_phase = some (get_next name); error = none }

abbrev pub config_retry : CatalogSourceConfig → String → Error → ConfigReconciled
config_retry out name e = record {
  out = some out;
  next_phase = some (get_next_with_message name e.message);
  error = some e;
}

abbrev pub config_unchanged : CatalogSourceConfig → ConfigReconciled
config_unchanged out = record { out = some out; next_phase = none; error = none }

abbrev pub config_phase : CatalogSourceConfig → String
config_phase c = c.current_phase.phase.name

-- The loop of checkPackages: the errors, and whether a package was found.
abbrev pub note_package : Result OpsrcRef → List Error × Bool → List Error × Bool
note_package (err e) (errors, found) = (errors ++ (e ∷ []), found)
note_package (ok opsrc) (errors, found) = (errors, true)

unfoldable pub read_packages : Datastore → List String → List Error × Bool → List Error × Bool
read_packages ds [] noted = noted
read_packages ds (package_id ∷ rest) noted =
    read_packages ds rest (note_package (read package_id ds) noted)

abbrev pub verdict : (List Error → String) → List Error × Bool → Option Error
verdict show (errors, found) = if not found then new_aggregate show errors else none

unfoldable pub check_packages :
    (List Error → String) → Datastore → CatalogSourceConfig → Option Error
unfolding read_packages
check_packages show ds c =
    verdict show (read_packages ds (get_package_ids c.spec.packages) ([], false))

module _ (E : Environment) where
  -- What the reconcilers read and change: the datastore, the cache, and what lies outside.
  pub record ConfigWorld : Type 0 where
    pub store : Datastore
    pub cache : Cache
    pub cluster : E.State

  abbrev pub ConfigAction : Type 0 → Type 0
  ConfigAction A = Eff ConfigWorld A

  abbrev pub on_cluster : {A : Type 0} → Eff E.State A → ConfigAction A
  on_cluster m w = let (a, s) = m w.cluster in (a, record w { cluster = s })

  abbrev pub change_cache : (Cache → Cache) → ConfigAction (Unit {0})
  change_cache f w = (tt, record w { cache = f w.cache })

  unfoldable pub initial_config_reconcile : CatalogSourceConfig → ConfigAction ConfigReconciled
  initial_config_reconcile c =
      if not (config_phase c == initial)
      then pure wrong_config_reconciler
      else pure (
          config_advance (ensure_publisher (ensure_display_name (ensure_config_finalizer c)))
            configuring)

  is_datastore : Option String → Bool
  unfolding to_lower
  is_datastore none = false
  is_datastore (some label) = to_lower E.lower label == "true"

  unfoldable pub new_catalog_source : CatalogSourceConfig → String → CatalogSource
  unfolding build_catalog_source with_olm_labels lookup is_datastore
  new_catalog_source c address =
      let source =
        build_catalog_source c.meta.name c.spec.target_namespace c "grpc" address
          c.spec.display_name c.spec.publisher in
      if is_datastore (lookup datastore_label c.meta.labels)
      then with_olm_labels c.meta.labels source
      else source

  -- The existing CatalogSource gets the address; else one is created.
  pub put_catalog_source :
      CatalogSourceConfig → String → Result CatalogSource → Eff E.State (Option Error)
  unfolding new_catalog_source
  put_catalog_source c address (ok existing) =
      E.catalog_sources.update (record existing { address = address })
  put_catalog_source c address (err e) = do
    created ← E.catalog_sources.create (new_catalog_source c address)
    pure (tolerated created)

  with_address : CatalogSourceConfig → Result String → Eff E.State (Option Error)
  unfolding put_catalog_source
  with_address c (err e) = pure (some e)
  with_address c (ok address) = do
    found ←
        E.catalog_sources.get (record { namespace = c.spec.target_namespace; name = c.meta.name })
    put_catalog_source c address found

  after_check : Datastore → CatalogSourceConfig → Option Error → Eff E.State (Option Error)
  unfolding with_address ensure
  after_check ds c (some e) = pure (some e)
  after_check ds c none = do address ← ensure E c ds; with_address c address

  unfoldable pub reconcile_catalog_source :
      Datastore → CatalogSourceConfig → Eff E.State (Option Error)
  unfolding after_check check_packages
  reconcile_catalog_source ds c = after_check ds c (check_packages E.show_errors ds c)

  abbrev pub config_configured : CatalogSourceConfig → Option Error → ConfigReconciled
  config_configured c none = config_advance c succeeded
  config_configured c (some e) = config_retry c configuring e

  unfoldable pub configuring_config_reconcile : CatalogSourceConfig → ConfigAction ConfigReconciled
  unfolding reconcile_catalog_source set
  configuring_config_reconcile c =
      if not (config_phase c == configuring) then pure wrong_config_reconciler else do
        change_cache (set c)
        error ← λ w. on_cluster (reconcile_catalog_source w.store c) w
        pure (config_configured c error)

  unfoldable pub succeeded_config_reconcile : CatalogSourceConfig → ConfigAction ConfigReconciled
  succeeded_config_reconcile c =
      if not (config_phase c == succeeded)
      then pure wrong_config_reconciler
      else pure (config_unchanged c)

  unfoldable pub failed_config_reconcile : CatalogSourceConfig → ConfigAction ConfigReconciled
  failed_config_reconcile c =
      if not (config_phase c == failed)
      then pure wrong_config_reconciler
      else pure (config_unchanged c)

  abbrev pub after_update : CatalogSourceConfig → Option Error → ConfigReconciled
  after_update out none = config_unchanged out
  after_update out (some e) = record { out = none; next_phase = none; error = some e }

  -- The update stands here because no phase changes.
  unfoldable pub deleted_config_reconcile : CatalogSourceConfig → ConfigAction ConfigReconciled
  unfolding evict
  deleted_config_reconcile c = do
    change_cache (evict c)
    updated ← on_cluster (E.configs.update (remove_config_finalizer c))
    pure (after_update (remove_config_finalizer c) updated)

  -- The CatalogSource of the cached target namespace.
  abbrev pub old_source : CatalogSourceConfig → CatalogSourceConfigSpec → CatalogSource
  old_source c spec = record {
    type_meta = record { kind = "CatalogSource"; api_version = "operators.coreos.com/v1alpha1" };
    meta = record empty_object_meta { name = c.meta.name; namespace = spec.target_namespace };
    source_type = "";
    address = "";
    display_name = "";
    publisher = "";
  }

  abbrev pub delete_source :
      CatalogSourceConfig → CatalogSourceConfigSpec × Bool → Eff E.State (Option Error)
  delete_source c (spec, false) = pure (some (new_error "Unexpected cache miss"))
  delete_source c (spec, true) = do
    deleted ← E.catalog_sources.delete (old_source c spec)
    pure none

  -- An error of the deletion is only logged.
  unfoldable pub delete_objects : CatalogSourceConfig → ConfigAction (Option Error)
  unfolding get
  delete_objects c w = on_cluster (delete_source c (get c w.cache)) w

  abbrev pub scheduled : CatalogSourceConfig → Option Error → ConfigAction ConfigReconciled
  scheduled c (some e) = pure (config_retry c (config_phase c) e)
  scheduled c none = do
    change_cache (evict c)
    pure (config_advance (record c { current_phase = empty_object_phase }) configuring)

  unfoldable pub update_config_reconcile :
      Bool → CatalogSourceConfig → ConfigAction ConfigReconciled
  unfolding delete_objects evict
  update_config_reconcile target_changed c = do
    error ← if target_changed then delete_objects c else pure none
    scheduled c error
