-- ===== src/Sources/Progress.antt =====
-- That an operator source makes its way from Initial to Succeeded: what is asked of the cluster and
-- the registry, and one call of the controller's Reconcile that changes the phase.
pub mod Phases
pub mod Arrival
pub mod Purges
pub mod Updates
use operator_marketplace.Common.{
  String, ◌≡◌, ap, ◌∙◌, true, false, Option, none, some, List, [], ◌∷◌, ◌==◌, All,
}
use operator_marketplace.Common.Errors.{ok}
use operator_marketplace.Api.Meta.{NamespacedName, new_phase}
use operator_marketplace.Api.OperatorSource.{OperatorSource, current_phase_name, ensure_source_gvk}
use operator_marketplace.Api.CatalogSourceConfig.{CatalogSourceConfig}
use operator_marketplace.Phase.{get_next}
use operator_marketplace.AppRegistry.Names.{HasFormat}
use operator_marketplace.Cluster.{Environment, Options, Package}
use operator_marketplace.Sources.World.{World}
use operator_marketplace.Sources.Reconcilers.{advance}
use operator_marketplace.Sources.Handler.{
  Reconciler, get_phase_reconciler, returned, reconcile, transition, reconcile_phase,
  reconcile_request,
}
use operator_marketplace.Sources.Handler.Steps.{reconcile_request_found, passes, handle_passed}
use operator_marketplace.Sources.Handler.Writes.{moved, transition_moves}

-- A cluster that holds one operator source: Get gives it and Update replaces it, with no error. A
-- CatalogSourceConfig can be created, and the registry lists some packages, whose names have the
-- form {namespace}/{repository}.
pub record IsHealthy (E : Environment) (request : NamespacedName) : Type 0 where
  pub held : E.State → Option OperatorSource
  pub get_held :
      (s : E.State) (o : OperatorSource) → held s ≡ some o → E.sources.get request s ≡ (ok o, s)
  pub update_ok : (o : OperatorSource) (s : E.State) → (E.sources.update o s).0 ≡ none
  pub update_held : (o : OperatorSource) (s : E.State) → held (E.sources.update o s).1 ≡ some o
  pub create_ok : (c : CatalogSourceConfig) (s : E.State) → (E.configs.create c s).0 ≡ none
  pub first : Package
  pub others : List Package
  pub formatted : All HasFormat (first ∷ others)
  pub list_ok :
      (options : Options) (namespace : Option String) (s : E.State)
      → (E.list_packages options namespace s).0 ≡ ok (first ∷ others)

module _ {E : Environment} {request : NamespacedName} (H : IsHealthy E request) where
  -- The world after one call that advances: the datastore is that of the reconciler, and the
  -- cluster holds the object in its next phase.
  abbrev pub advanced : World E → OperatorSource → String → World E
  advanced w out name = record w {
    cluster = (E.sources.update (moved (E.now w.cluster) out (get_next name)) w.cluster).1;
  }

  transition_ok :
      (out : OperatorSource) (name : String) (w : World E)
      → (current_phase_name out == name) ≡ false
      → transition E (advance out name) w ≡ (returned none, advanced w out name)
  transition_ok out name w n =
      transition_moves E out (get_next name) none w (unfold get_next new_phase in n)
      ∙ ap (λ u. (returned u, advanced w out name))
          (H.update_ok (moved (E.now w.cluster) out (get_next name)) w.cluster)

  -- One call for an object that passes the out-of-sync reconciler and advances.
  pub request_advances :
      (o out : OperatorSource) (k : Reconciler) (name : String) (w w' : World E)
      → H.held w.cluster ≡ some o
      → passes E (ensure_source_gvk o) w ≡ true
      → get_phase_reconciler (ensure_source_gvk o) ≡ ok k
      → reconcile E k (ensure_source_gvk o) w ≡ (advance out name, w')
      → (current_phase_name out == name) ≡ false
      → reconcile_request E request w ≡ (returned none, advanced w' out name)
  unfolding reconcile_phase
  request_advances o out k name w w' held pass chosen done n =
      reconcile_request_found E request o w w.cluster (H.get_held w.cluster o held)
      ∙ handle_passed E (ensure_source_gvk o) w pass
      ∙ rw (chosen, reconcile_phase) (rw done (transition_ok out name w' n))
