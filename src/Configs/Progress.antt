-- ===== src/Configs/Progress.antt =====
-- That a CatalogSourceConfig makes its way from Initial to Succeeded: what is asked of the cluster,
-- and one call of the controller's Reconcile that changes the phase.
pub mod Steps
pub mod Arrival
pub mod Notices
use operator_marketplace.Common.{
  String, ◌≡◌, refl, ap, ◌∙◌, Bool, true, false, Option, none, some, ◌==◌,
}
use operator_marketplace.Common.Errors.{ok}
use operator_marketplace.Api.Meta.{NamespacedName, is_zero}
use operator_marketplace.Api.CatalogSourceConfig.{
  CatalogSourceConfig, CatalogSourceConfigSpec, ensure_config_gvk,
}
use operator_marketplace.Phase.{get_next}
use operator_marketplace.Cluster.{Environment}
use operator_marketplace.Sources.Handler.{returned}
use operator_marketplace.Configs.Cache.{Cache, get, stale_entry, is_entry_stale}
use operator_marketplace.Configs.Registry.Answers.{IsWritable, IsReady}
use operator_marketplace.Configs.Reconcilers.{ConfigWorld, config_phase, config_advance}
use operator_marketplace.Configs.Handler.{
  ConfigReconciler, config_reconciler_of_phase, run_config_reconciler, handle_with, handle_config,
  reconcile_config_request,
}
use operator_marketplace.Configs.Handler.Settled.{chosen_by_phase}
use operator_marketplace.Configs.Handler.Writes.{config_moved, finish_moves, request_handled}

-- A cluster that holds one config: Get gives it and Update replaces it, with no error, and the
-- objects of its registry server and the CatalogSource can be written.
pub record IsHealthyCluster (E : Environment) (request : NamespacedName) : Type 0 where
  pub held : E.State → Option CatalogSourceConfig
  pub get_held :
      (s : E.State) (c : CatalogSourceConfig)
      → held s ≡ some c
      → E.configs.get request s ≡ (ok c, s)
  pub update_ok : (c : CatalogSourceConfig) (s : E.State) → (E.configs.update c s).0 ≡ none
  pub update_held : (c : CatalogSourceConfig) (s : E.State) → held (E.configs.update c s).1 ≡ some c
  pub ready : IsReady E
  pub catalog : IsWritable E.catalog_sources

-- Staleness asks for the UID, the packages and the target namespace only.
pub same_staleness :
    (c d : CatalogSourceConfig) (cache : Cache)
    → d.meta.uid ≡ c.meta.uid
    → d.spec.packages ≡ c.spec.packages
    → d.spec.target_namespace ≡ c.spec.target_namespace
    → is_entry_stale d cache ≡ is_entry_stale c cache
unfolding is_entry_stale get
same_staleness c d cache u p t = ap (λ f. stale_entry f d.spec) (found u) ∙ entry (get c cache)
  where
    found : d.meta.uid ≡ c.meta.uid → get d cache ≡ get c cache
    found e = rw e refl

    entry : (f : CatalogSourceConfigSpec × Bool) → stale_entry f d.spec ≡ stale_entry f c.spec
    entry (spec, false) = refl
    entry (spec, true) = simp (p, t)

module _ {E : Environment} {request : NamespacedName} (H : IsHealthyCluster E request) where
  -- The world after one call that advances.
  abbrev pub config_advanced : ConfigWorld E → CatalogSourceConfig → String → ConfigWorld E
  config_advanced w out name = record w {
    cluster = (E.configs.update (config_moved (E.now w.cluster) out (get_next name)) w.cluster).1;
  }

  -- One call for a config that is neither stale nor being deleted, whose reconciler advances.
  pub config_request_advances :
      (c out : CatalogSourceConfig) (k : ConfigReconciler) (phase name : String)
      (w w' : ConfigWorld E)
      → H.held w.cluster ≡ some c
      → is_entry_stale (ensure_config_gvk c) w.cache ≡ (false, false)
      → is_zero c.meta.deletion_timestamp ≡ true
      → config_phase c ≡ phase
      → config_reconciler_of_phase phase ≡ ok k
      → run_config_reconciler E k (ensure_config_gvk c) w ≡ (config_advance out name, w')
      → (config_phase out == name) ≡ false
      → reconcile_config_request E request w ≡ (returned none, config_advanced w' out name)
  unfolding ensure_config_gvk handle_config handle_with
  config_request_advances c out k phase name w w' held fresh live here chosen done n =
      request_handled E request c w w.cluster (H.get_held w.cluster c held)
      ∙ rw
          (
            chosen_by_phase w.cache (ensure_config_gvk c) phase fresh live here ∙ chosen,
            handle_with,
          )
          (rw done (
            finish_moves E out name w' n
            ∙ ap (λ u. (returned u, config_advanced w' out name)) (H.update_ok _ w'.cluster)))
