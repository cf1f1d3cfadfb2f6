-- ===== src/Sources/Reconcilers/Success.antt =====
-- The runs of the Downloading and Configuring reconcilers (pkg/operatorsource/downloading.go and
-- configuring.go) in which every call succeeds, or the listing fails.
use operator_marketplace.Common.{◌≡◌, refl, ap, true, none, some, List, ◌∷◌, ◌==◌}
use operator_marketplace.Common.Errors.{Error, Result, ok, err}
use operator_marketplace.Api.OperatorSource.{OperatorSource, current_phase_name}
use operator_marketplace.Phase.{downloading, configuring, succeeded}
use operator_marketplace.Datastore.{write, get_package_ids_by_operator_source}
use operator_marketplace.Datastore.Metadata.{RegistryMetadata}
use operator_marketplace.AppRegistry.{new_client, list_packages}
use operator_marketplace.Cluster.{Environment, Options}
use operator_marketplace.Sources.World.{World, setup_app_registry_options}
use operator_marketplace.Sources.Reconcilers.{
  advance, fail_into, downloading_reconcile, configuring_reconcile, new_config, connect, list_with,
  store_manifests, after_write, finish_download, after_create,
}

abbrev pub open_options : OperatorSource → Options
open_options o = record { source = o.spec.endpoint; auth_token = "" }

module _ (E : Environment) (o : OperatorSource) (w : World E) where
  -- The listing of the source's packages.
  abbrev pub listing : Result (List RegistryMetadata) × E.State
  listing = list_packages E (open_options o) o.spec.registry_namespace w.cluster

  abbrev pub written : List RegistryMetadata → World E
  written ms = record { store = (write (some o) (some ms) w.store).1; cluster = listing.1 }

  stored_lem :
      (r : Result (List RegistryMetadata)) (m : RegistryMetadata) (ms : List RegistryMetadata)
      → r ≡ ok (m ∷ ms)
      → store_manifests E o r (record w { cluster = listing.1 }) ≡ (
        advance
            (record o {
              status = record (o.status) {
                packages = get_package_ids_by_operator_source o.meta.uid (written (m ∷ ms)).store;
              };
            })
            configuring,
        written (m ∷ ms),
      )
  unfolding store_manifests after_write finish_download write
  stored_lem r m ms e = rw (e, store_manifests) refl

  pub download_lem :
      (m : RegistryMetadata) (ms : List RegistryMetadata)
      → (current_phase_name o == downloading) ≡ true
      → (o.spec.secret_name == "") ≡ true
      → E.parse_url o.spec.endpoint ≡ none
      → listing.0 ≡ ok (m ∷ ms)
      → downloading_reconcile E o w ≡ (
        advance
            (record o {
              status = record (o.status) {
                packages = get_package_ids_by_operator_source o.meta.uid (written (m ∷ ms)).store;
              };
            })
            configuring,
        written (m ∷ ms),
      )
  unfolding downloading_reconcile setup_app_registry_options connect list_with new_client
  download_lem m ms p secret url listed =
      rw (p, secret, url, connect, list_with) (stored_lem listing.0 m ms listed)

  pub download_unlisted :
      (e : Error)
      → (current_phase_name o == downloading) ≡ true
      → (o.spec.secret_name == "") ≡ true
      → E.parse_url o.spec.endpoint ≡ none
      → listing.0 ≡ err e
      → downloading_reconcile E o w ≡ (fail_into o downloading e, record w { cluster = listing.1 })
  unfolding downloading_reconcile setup_app_registry_options connect list_with new_client
      store_manifests
  download_unlisted e p secret url failed =
      rw (p, secret, url, connect, list_with)
        (ap (λ r. store_manifests E o r (record w { cluster = listing.1 })) failed)

  pub configure_lem :
      (current_phase_name o == configuring) ≡ true
      → let c = new_config E o (get_package_ids_by_operator_source o.meta.uid w.store) in
        (E.configs.create c w.cluster).0 ≡ none
        → configuring_reconcile E o w
          ≡ (advance o succeeded, record w { cluster = (E.configs.create c w.cluster).1 })
  unfolding configuring_reconcile after_create
  configure_lem p created = rw (p, created, after_create) refl
