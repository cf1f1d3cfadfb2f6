-- ===== src/Sources/Progress/Phases/Creates.antt =====
-- One call of the controller's Reconcile in Configuring moves a healthy operator source on, and
-- creates its config.
use operator_marketplace.Common.{String, ◌≡◌, refl, none}
use operator_marketplace.Api.Meta.{NamespacedName}
use operator_marketplace.Api.OperatorSource.{OperatorSource, OperatorSourceSpec, ensure_source_gvk}
use operator_marketplace.Phase.{configuring, succeeded}
use operator_marketplace.Datastore.{get_package_ids_by_operator_source}
use operator_marketplace.Cluster.{Environment}
use operator_marketplace.Sources.World.{World}
use operator_marketplace.Sources.Reconcilers.{new_config}
use operator_marketplace.Sources.Handler.{for_configuring, returned, reconcile, reconcile_request}
use operator_marketplace.Sources.Reconcilers.Success.{configure_lem}
use operator_marketplace.Sources.Progress.{IsHealthy, advanced, request_advances}
use operator_marketplace.Sources.Progress.Phases.{
  IsPublic, IsAt, IsKnown, IsStep, known_passes, arrive, chosen, guard, differs,
}

module _ {E : Environment} {request : NamespacedName} (H : IsHealthy E request) (uid : String)
    (spec : OperatorSourceSpec) (public : IsPublic E spec) where
  -- The config that the source creates.
  abbrev pub created : OperatorSource → World E → World E
  created o w =
      let c = new_config E o (get_package_ids_by_operator_source o.meta.uid w.store) in
      record w { cluster = (E.configs.create c w.cluster).1 }

  pub configuring_advances :
      (w : World E) (a : IsAt H uid spec configuring w)
      → IsKnown H uid spec w.store
      → let o = ensure_source_gvk a.object in
        reconcile_request E request w ≡ (returned none, advanced H (created o w) o succeeded)
  unfolding ensure_source_gvk reconcile
  configuring_advances w a k =
      let o = ensure_source_gvk a.object in
      request_advances H a.object o for_configuring succeeded w (created o w) a.held
        (known_passes H uid spec o w a.same_uid a.same_spec k)
        (chosen H uid spec o for_configuring configuring a.live a.here refl)
        (configure_lem E o w (guard H uid spec o configuring a.here) (H.create_ok _ w.cluster))
        (differs H uid spec o configuring succeeded a.here refl)

  pub from_configuring :
      (w : World E)
      → IsAt H uid spec configuring w
      → IsKnown H uid spec w.store
      → IsStep H uid spec succeeded w (reconcile_request E request w)
  unfolding ensure_source_gvk
  from_configuring w a k =
      let o = ensure_source_gvk a.object in
      arrive H uid spec o succeeded w (created o w) (configuring_advances w a k) a.live a.same_uid
        a.same_spec k
