-- ===== src/Configs/Progress/Arrival.antt =====
-- A new CatalogSourceConfig reaches Succeeded.
use operator_marketplace.Common.{
  ◌≡◌, refl, ap, ◌∙◌, true, false, not, Option, none, some, List, [], ◌∷◌, is_some,
}
use operator_marketplace.Common.Errors.{Error}
use operator_marketplace.Api.Meta.{NamespacedName, is_zero}
use operator_marketplace.Api.CatalogSourceConfig.{CatalogSourceConfig, ensure_config_gvk}
use operator_marketplace.Phase.{initial, configuring, succeeded}
use operator_marketplace.Cluster.{Environment}
use operator_marketplace.Sources.Handler.{Outcome, returned}
use operator_marketplace.Configs.Cache.{get_package_ids, set}
use operator_marketplace.Configs.Cache.Stale.{set-not_stale}
use operator_marketplace.Configs.Reconcilers.{
  ConfigWorld, config_phase, config_advance, config_configured, check_packages,
  reconcile_catalog_source, configuring_config_reconcile,
}
use operator_marketplace.Configs.Reconcilers.Packages.{any_offered, check_packages_lem}
use operator_marketplace.Configs.Reconcilers.Ready.{reconcile_catalog_source-none}
use operator_marketplace.Configs.Handler.{
  config_configuring, run_config_reconciler, reconcile_config_request,
}
use operator_marketplace.Configs.Progress.{
  IsHealthyCluster, same_staleness, config_request_advances,
}
use operator_marketplace.Configs.Progress.Steps.{
  IsConfigAt, IsConfigStep, arrive, guard, differs, first_step,
}

none_of : (e : Option Error) → is_some e ≡ false → e ≡ none
none_of none h = refl
none_of (some e) h = cc

module _ {E : Environment} {request : NamespacedName} (H : IsHealthyCluster E request)
    (c : CatalogSourceConfig) where
  -- The check of the packages passes if some row of the datastore offers one of them.
  checked :
      (d : CatalogSourceConfig) (w : ConfigWorld E)
      → d.spec.packages ≡ c.spec.packages
      → any_offered w.store (get_package_ids c.spec.packages) ≡ true
      → check_packages E.show_errors w.store d ≡ none
  checked d w p o = none_of _ (
      check_packages_lem E.show_errors w.store d
      ∙ ap (λ t. not (any_offered w.store (get_package_ids t))) p
      ∙ ap not o)

  configured :
      (d : CatalogSourceConfig) (w : ConfigWorld E)
      → config_phase d ≡ configuring
      → (reconcile_catalog_source E w.store d w.cluster).0 ≡ none
      → configuring_config_reconcile E d w ≡ (
        config_advance d succeeded,
        record w {
          cache = set d w.cache;
          cluster = (reconcile_catalog_source E w.store d w.cluster).1;
        },
      )
  unfolding configuring_config_reconcile
  configured d w e h = rw (guard H c d configuring e) (
      ap
        (λ r. (
          config_configured E d r,
          record w {
            cache = set d w.cache;
            cluster = (reconcile_catalog_source E w.store d w.cluster).1;
          },
        ))
        h)

  pub from_config_configuring :
      (w : ConfigWorld E)
      → IsConfigAt H c configuring w
      → any_offered w.store (get_package_ids c.spec.packages) ≡ true
      → IsConfigStep H c succeeded w (reconcile_config_request E request w)
  unfolding ensure_config_gvk run_config_reconciler
  from_config_configuring w a o =
      let d = ensure_config_gvk a.object in
      let done =
        reconcile_catalog_source-none E d H.ready H.catalog w.store w.cluster
          (checked d w a.same_packages o) in
      arrive H c d succeeded w _
        (config_request_advances H a.object d config_configuring configuring succeeded w _ a.held
          (same_staleness a.object d w.cache refl refl refl ∙ a.fresh) a.live a.here refl
          (configured d w a.here done) (differs H c d configuring succeeded a.here refl))
        a.live a.same_uid a.same_packages a.same_target (set-not_stale d w.cache).0 refl

module _ (E : Environment) (request : NamespacedName) where
  -- Two calls in a row, with their outcomes.
  abbrev pub two_requests : ConfigWorld E → List Outcome × ConfigWorld E
  two_requests w =
      let (a, w₁) = reconcile_config_request E request w in
      let (b, w₂) = reconcile_config_request E request w₁ in (a ∷ b ∷ [], w₂)

  -- In a cluster whose writes succeed, a config that is in Initial, is not being deleted, and names a
  -- package that some row of the datastore offers, is in Succeeded after two calls of the
  -- controller's Reconcile, none of which returns an error, whatever the cache holds for it. Its UID,
  -- packages and target namespace are as before, it is not stale in the cache then, and the
  -- datastore has not changed.
  pub config_reaches_succeeded :
      (H : IsHealthyCluster E request) (w : ConfigWorld E) (c : CatalogSourceConfig)
      → H.held w.cluster ≡ some c
      → config_phase c ≡ initial
      → is_zero c.meta.deletion_timestamp ≡ true
      → any_offered w.store (get_package_ids c.spec.packages) ≡ true
      → ((two_requests w).0 ≡ returned none ∷ returned none ∷ [])
        × IsConfigAt H c succeeded (two_requests w).1
        × ((two_requests w).1.store ≡ w.store)
  config_reaches_succeeded H w c held phase live offered =
      let a = first_step H c w held phase live in
      let b =
        from_config_configuring H c _ a.at
          (ap (λ ds. any_offered ds (get_package_ids c.spec.packages)) a.store ∙ offered) in
      (both_none a.outcome b.outcome, b.at, b.store ∙ a.store)
    where
      both_none :
          {p q : Outcome}
          → p ≡ returned none
          → q ≡ returned none
          → ◌≡◌ {A = List Outcome} (p ∷ q ∷ []) (returned none ∷ returned none ∷ [])
      both_none e f = cc
