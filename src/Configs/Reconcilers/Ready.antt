-- ===== src/Configs/Reconcilers/Ready.antt =====
-- That reconcileCatalogSource (pkg/catalogsourceconfig/configuring.go) succeeds in a cluster whose
-- creations and updates succeed.
use operator_marketplace.Common.{String, ◌≡◌, ap, ◌∙◌, Option, none, some}
use operator_marketplace.Common.Errors.{Error, Result, ok, err}
use operator_marketplace.Api.CatalogSourceConfig.{CatalogSourceConfig}
use operator_marketplace.Datastore.{Datastore}
use operator_marketplace.Cluster.{Environment}
use operator_marketplace.Configs.Registry.{ensure}
use operator_marketplace.Configs.Registry.Answers.{
  IsWritable, IsReady, created_or_updated-Passes, ensure-Answers,
}
use operator_marketplace.Configs.Reconcilers.{
  check_packages, new_catalog_source, with_address, after_check, reconcile_catalog_source,
}
use operator_marketplace.Configs.Reconcilers.Served.{source_key, put_catalog_source-updated}

module _ (E : Environment) (c : CatalogSourceConfig) (H : IsReady E)
    (W : IsWritable E.catalog_sources) where
  with_address-none :
      (r : Result String) (address : String) (s : E.State)
      → r ≡ ok address
      → (with_address E c r s).0 ≡ none
  unfolding with_address
  with_address-none (err e) address s h = cc
  with_address-none (ok a) address s h =
      let (found, s₁) = E.catalog_sources.get (source_key E c) s in
      ap (λ r. r.0) (put_catalog_source-updated E c a found s₁)
      ∙ created_or_updated-Passes E c E.catalog_sources W (new_catalog_source E c a) _ found s₁

  after_check-none :
      (ds : Datastore) (r : Option Error) (s : E.State)
      → r ≡ none
      → (after_check E ds c r s).0 ≡ none
  unfolding after_check
  after_check-none ds (some e) s h = cc
  after_check-none ds none s h =
      let (address, e) = ensure-Answers E c H ds s in
      with_address-none (ensure E c ds s).0 address (ensure E c ds s).1 e

  pub reconcile_catalog_source-none :
      (ds : Datastore) (s : E.State)
      → check_packages E.show_errors ds c ≡ none
      → (reconcile_catalog_source E ds c s).0 ≡ none
  unfolding reconcile_catalog_source
  reconcile_catalog_source-none ds s h = after_check-none ds (check_packages E.show_errors ds c) s h
