-- ===== src/Configs/Reconcilers/Served.antt =====
-- The CatalogSource that reconcileCatalogSource (pkg/catalogsourceconfig/configuring.go) leaves.
use mathlib.Core.Path.{subst}
use operator_marketplace.Common.{
  String, ◌≡◌, refl, sym, Option, none, some, Bool-cases, inl, inr, ◌⊎◌,
}
use operator_marketplace.Common.Maps.{lookup}
use operator_marketplace.Common.Errors.{Error, Result, ok, err}
use operator_marketplace.Api.Meta.{NamespacedName}
use operator_marketplace.Api.CatalogSourceConfig.{CatalogSourceConfig}
use operator_marketplace.Datastore.{Datastore}
use operator_marketplace.Cluster.{Environment}
use operator_marketplace.Cluster.Objects.{CatalogSource}
use operator_marketplace.Sources.Builder.{datastore_label}
use operator_marketplace.Configs.Builders.{build_catalog_source, with_olm_labels, owned_meta}
use operator_marketplace.Configs.Registry.{ensure, created_or_updated}
use operator_marketplace.Configs.Registry.Ensured.{IsStore, IsOverlooked, meta_name, ensured}
use operator_marketplace.Configs.Reconcilers.{
  check_packages, new_catalog_source, put_catalog_source, with_address, after_check,
  reconcile_catalog_source, is_datastore,
}

module _ (E : Environment) (c : CatalogSourceConfig) where
  abbrev pub source_key : NamespacedName
  source_key = record { namespace = c.spec.target_namespace; name = c.meta.name }

  new_catalog_source-named :
      (address : String)
      → (meta_name (new_catalog_source E c address).meta ≡ source_key)
        × ((new_catalog_source E c address).address ≡ address)
  unfolding new_catalog_source build_catalog_source with_olm_labels owned_meta
  new_catalog_source-named address =
      elim (Bool-cases (is_datastore E (lookup datastore_label c.meta.labels))) [
        | inl e ↦ rw e (refl, refl)
        | inr e ↦ rw e (refl, refl)
      ]

  pub put_catalog_source-updated :
      (address : String) (r : Result CatalogSource) (s : E.State)
      → put_catalog_source E c address r s
        ≡ created_or_updated E c E.catalog_sources
            (new_catalog_source E c address)
            (λ x. record x { address = address })
            r
            s
  unfolding put_catalog_source
  put_catalog_source-updated address (ok existing) s = refl
  put_catalog_source-updated address (err e) s = refl

  module _ (S : IsStore E.catalog_sources (λ x. meta_name x.meta)) where
    -- The config's CatalogSource is there and points to the address, or Get has failed for one that is
    -- there, which is as before.
    abbrev pub IsServed : String → E.State → E.State → Type 0
    IsServed address before after =
        ((x : CatalogSource) × (S.present source_key after ≡ some x) × (x.address ≡ address))
        ⊎ IsOverlooked S source_key before after

    put-IsServed :
        (address : String) (s : E.State)
        → (with_address E c (ok address) s).0 ≡ none
        → IsServed address s (with_address E c (ok address) s).1
    unfolding with_address
    put-IsServed address s done =
        let (found, s₁) = E.catalog_sources.get source_key s in
        let (named, there) = new_catalog_source-named address in
        subst (λ r. r.0 ≡ none → IsServed address s r.1)
          (sym (put_catalog_source-updated address found s₁))
          (ensured E c S (λ x. x.address ≡ address) source_key (new_catalog_source E c address)
            (λ x. record x { address = address }) s named there (λ x. (refl, refl)))
          done

    with_address-IsServed :
        (r : Result String) (s : E.State)
        → (with_address E c r s).0 ≡ none
        → (address : String) × (r ≡ ok address) × IsServed address s (with_address E c r s).1
    unfolding with_address
    with_address-IsServed (err e) s done = cc
    with_address-IsServed (ok address) s done = (address, refl, put-IsServed address s done)

    after_check-IsServed :
        (ds : Datastore) (r : Option Error) (s : E.State)
        → (after_check E ds c r s).0 ≡ none
        → let (answer, s₁) = ensure E c ds s in
          (r ≡ none)
          × ((address : String) × (answer ≡ ok address)
              × IsServed address s₁ (after_check E ds c r s).1)
    unfolding after_check
    after_check-IsServed ds (some e) s done = cc
    after_check-IsServed ds none s done =
        let (r, s₁) = ensure E c ds s in (refl, with_address-IsServed r s₁ done)

    -- On an API server that holds at most one CatalogSource of each name, whose Get answers what is
    -- there or fails, also for one that is there: if reconcileCatalogSource ends without an error, its check of the packages
    -- has passed and ensure has returned an address; and either the CatalogSource with the config's
    -- name is in the target namespace and points to that address, or Get has failed after ensure
    -- although that CatalogSource is there, and it is as it was before, with whatever address.
    pub reconcile_catalog_source-IsServed :
        (ds : Datastore) (s : E.State)
        → (reconcile_catalog_source E ds c s).0 ≡ none
        → let (answer, s₁) = ensure E c ds s in
          (check_packages E.show_errors ds c ≡ none)
          × ((address : String) × (answer ≡ ok address)
              × IsServed address s₁ (reconcile_catalog_source E ds c s).1)
    unfolding reconcile_catalog_source
    reconcile_catalog_source-IsServed ds s done =
        after_check-IsServed ds (check_packages E.show_errors ds c) s done
