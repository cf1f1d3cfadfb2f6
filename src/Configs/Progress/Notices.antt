-- ===== src/Configs/Progress/Notices.antt =====
-- What a notification of the poller leads to: Trigger (pkg/catalogsourceconfig/triggerer.go) sends a
-- config that names a changed package to Initial, and the controller's Reconcile deploys it again.
use operator_marketplace.Common.{◌≡◌, refl, ap, ◌∙◌, true, none, some, [], ◌∷◌}
use operator_marketplace.Common.Text.{join, split}
use operator_marketplace.Common.Errors.{ok}
use operator_marketplace.Api.Meta.{NamespacedName, is_zero}
use operator_marketplace.Api.CatalogSourceConfig.{CatalogSourceConfig}
use operator_marketplace.Phase.{succeeded}
use operator_marketplace.Datastore.Update.{PackageUpdateAggregator}
use operator_marketplace.Cluster.{Environment}
use operator_marketplace.Sources.Handler.{returned}
use operator_marketplace.Syncers.{receive}
use operator_marketplace.Configs.Cache.{get_package_ids}
use operator_marketplace.Configs.Reconcilers.{ConfigWorld}
use operator_marketplace.Configs.Reconcilers.Packages.{any_offered}
use operator_marketplace.Configs.Triggerer.{on_listed, trigger}
use operator_marketplace.Configs.Triggerer.Needed.{
  kept, affected, typed, rescheduled, trigger_each_lem,
}
use operator_marketplace.Configs.Progress.{IsHealthyCluster}
use operator_marketplace.Configs.Progress.Steps.{IsConfigAt}
use operator_marketplace.Configs.Progress.Arrival.{two_requests, config_reaches_succeeded}

-- A listing gives the config that the cluster holds.
abbrev pub ListsHeld :
    {E : Environment} {request : NamespacedName} → IsHealthyCluster E request → Type 0
ListsHeld {E} H =
    (s : E.State) (c : CatalogSourceConfig)
    → H.held s ≡ some c
    → E.list_configs "opsrc-datastore!=true" s ≡ (ok (c ∷ []), s)

-- The config with its packages but the removed ones, in their order.
abbrev pub renewed : PackageUpdateAggregator → CatalogSourceConfig → CatalogSourceConfig
renewed notification c = record c {
  spec = record (c.spec) { packages = join "," (kept notification (split "," c.spec.packages)) };
}

module _ {E : Environment} {request : NamespacedName} (H : IsHealthyCluster E request)
    (lists : ListsHeld H) (notification : PackageUpdateAggregator) where
  received :
      (s : E.State) (c : CatalogSourceConfig)
      → H.held s ≡ some c
      → affected notification (split "," c.spec.packages) ≡ true
      → receive E (some notification) s
        ≡ (E.configs.update (rescheduled notification (E.now s) (typed notification c)) s).1
  unfolding trigger
  received s c held needed =
      ap (λ r. (on_listed E notification r.0 r.1).1) (lists s c held)
      ∙ ap (λ r. r.1) (trigger_each_lem notification E (c ∷ []) [] s)
      ∙ rw needed refl

  -- In a cluster whose writes succeed and whose listing gives the config, a config that is not being
  -- deleted, and names a package that a notification calls removed or updated: once the catalog loop
  -- has received the notification and the controller has been called twice, with no error, the config
  -- is in Succeeded, names the packages that were not removed, in their order, and is not stale in the
  -- cache, if some row of the datastore offers one of them. The phase that the config was in and the
  -- cache do not matter.
  pub notice_redeploys :
      (w : ConfigWorld E) (c : CatalogSourceConfig)
      → H.held w.cluster ≡ some c
      → is_zero c.meta.deletion_timestamp ≡ true
      → affected notification (split "," c.spec.packages) ≡ true
      → any_offered w.store (get_package_ids (renewed notification c).spec.packages) ≡ true
      → let w' : ConfigWorld E = record w { cluster = receive E (some notification) w.cluster } in
        ((two_requests E request w').0 ≡ returned none ∷ returned none ∷ [])
        × IsConfigAt H (renewed notification c) succeeded (two_requests E request w').1
  notice_redeploys w c held live needed offered =
      let c' = rescheduled notification (E.now w.cluster) (typed notification c) in
      let w' : ConfigWorld E = record w { cluster = receive E (some notification) w.cluster } in
      let (outcomes, at, store) =
        config_reaches_succeeded E request H w' c'
          (ap H.held (received w.cluster c held needed) ∙ H.update_held c' w.cluster) refl live
          offered in
      (
        outcomes,
        record {
          object = at.object;
          held = at.held;
          here = at.here;
          live = at.live;
          same_uid = at.same_uid;
          same_packages = at.same_packages;
          same_target = at.same_target;
          fresh = at.fresh;
        },
      )
