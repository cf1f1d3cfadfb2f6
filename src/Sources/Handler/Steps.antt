-- ===== src/Sources/Handler/Steps.antt =====
-- How one call of Handle (pkg/operatorsource/handler.go) proceeds: past the out-of-sync
-- reconciler, through the factory, and when it ends in a panic.
use mathlib.Core.Path.{subst}
use operator_marketplace.Common.{
  sym, String, ◌≡◌, refl, ◌≢◌, ◌↔◌, inl, inr, Bool, true, false, ◌||◌, Option, none, some, arith,
  ◌==◌, eq_iff, if◌then◌else◌, Bool-cases, Option-cases,
}
use operator_marketplace.Common.Errors.{Error, ok}
use operator_marketplace.Api.Meta.{is_zero, ObjectPhase, NamespacedName}
use operator_marketplace.Api.OperatorSource.{OperatorSource, current_phase_name, ensure_source_gvk}
use operator_marketplace.Phase.{
  initial, configuring, succeeded, failed, validating, downloading, purging,
}
use operator_marketplace.Datastore.{get_operator_source}
use operator_marketplace.Cluster.{Environment}
use operator_marketplace.Sources.World.{Reconciled, World}
use operator_marketplace.Sources.Reconcilers.{
  initial_reconcile, validating_reconcile, downloading_reconcile, configuring_reconcile,
  purging_reconcile, succeeded_reconcile, failed_reconcile, advance, unchanged, in_sync,
  out_of_sync_reconcile,
}
use operator_marketplace.Sources.Reconcilers.Diagram.{
  Moves, initial-Moves, validating-Moves, downloading-Moves, configuring-Moves, purging-Moves,
  succeeded-Moves, failed-Moves,
}
use operator_marketplace.Sources.Handler.{
  Reconciler, for_deleted, for_initial, for_validating, for_downloading, for_configuring,
  for_purging, for_succeeded, for_failed, reconciler_of_phase, get_phase_reconciler, panicked,
  reconcile, persist, transition, reconcile_phase, handle, handle_fetched, reconcile_request,
}

-- The phase of the reconciler; a deleted object may have any.
abbrev pub phase_of : Reconciler → String → String
phase_of for_deleted name = name
phase_of for_initial name = initial
phase_of for_validating name = validating
phase_of for_downloading name = downloading
phase_of for_configuring name = configuring
phase_of for_purging name = purging
phase_of for_succeeded name = succeeded
phase_of for_failed name = failed

reconciler_of_phase_sound :
    (name : String) (k : Reconciler) → reconciler_of_phase name ≡ ok k → name ≡ phase_of k name
reconciler_of_phase_sound name k h = ground (
  arith,
  eq_iff name initial,
  eq_iff name validating,
  eq_iff name downloading,
  eq_iff name configuring,
  eq_iff name purging,
  eq_iff name succeeded,
  eq_iff name failed,
)

pub get_phase_reconciler_sound :
    (o : OperatorSource) (k : Reconciler)
    → get_phase_reconciler o ≡ ok k
    → current_phase_name o ≡ phase_of k (current_phase_name o)
unfolding get_phase_reconciler
get_phase_reconciler_sound o k h = elim (Bool-cases (is_zero o.meta.deletion_timestamp)) [
  | inl z ↦ reconciler_of_phase_sound (current_phase_name o) k (rw z at h)
  | inr z ↦ ground arith
]

module _ (E : Environment) where
  -- The out-of-sync reconciler leaves the object to the phase reconcilers.
  abbrev pub passes : OperatorSource → World E → Bool
  passes o w =
      (current_phase_name o == initial || current_phase_name o == purging)
      || in_sync E (get_operator_source o.meta.uid w.store) o.spec

  pub out_of_sync_lem :
      (o : OperatorSource) (w : World E)
      → out_of_sync_reconcile E o w ≡ (if passes o w then unchanged o else advance o purging, w)
  unfolding out_of_sync_reconcile
  out_of_sync_lem o w = ground arith

  pub handle_passed :
      (o : OperatorSource) (w : World E)
      → passes o w ≡ true
      → handle E o w ≡ reconcile_phase E o (get_phase_reconciler o) w
  unfolding handle
  handle_passed o w h = rw (out_of_sync_lem o w, h)

  pub handle_out_of_sync :
      (o : OperatorSource) (w : World E)
      → passes o w ≡ false
      → handle E o w ≡ transition E (advance o purging) w
  unfolding handle
  handle_out_of_sync o w h = rw (out_of_sync_lem o w, h)

  pub reconcile_request_found :
      (request : NamespacedName) (o : OperatorSource) (w : World E) (s : E.State)
      → E.sources.get request w.cluster ≡ (ok o, s)
      → reconcile_request E request w ≡ handle E (ensure_source_gvk o) (record w { cluster = s })
  unfolding reconcile_request handle_fetched
  reconcile_request_found request o w s h = rw (h, handle_fetched) refl

  persist-ne-panicked :
      (out : OperatorSource) (p : Option ObjectPhase × Bool) (e : Option Error) (w : World E)
      → (persist E out p e w).0 ≢ panicked
  unfolding persist
  persist-ne-panicked out (p, false) e w h = cc
  persist-ne-panicked out (none, true) e w h = cc
  persist-ne-panicked out (some p, true) e w h = cc

  pub transition-panicked_iff :
      (r : Reconciled) (w : World E) → ((transition E r w).0 ≡ panicked) ↔ (r.out ≡ none)
  unfolding transition
  transition-panicked_iff r w = elim (Option-cases r.out) [
    | inl e ↦ ((λ _. e), (λ _. rw (e, transition)))
    | inr (o, e) ↦
        ((λ p. absurd (persist-ne-panicked o _ _ w (rw (e, transition) at p))), (λ q. cc))
  ]

  pub Moves-out :
      (from : String) (o : OperatorSource) (r : Reconciled) → Moves from o r → r.out ≢ none
  Moves-out from o r m e = rw e at m

  -- The reconciler that the factory picks for an object that is not being deleted returns an
  -- object with the same name, namespace, UID, spec and phase, and its next phase, if it has one,
  -- follows the diagram: Initial to Validating, Validating to Downloading or Failed, Downloading to
  -- itself, Failed or Configuring, Configuring to itself or Succeeded, Purging to itself or Initial,
  -- and none from Succeeded or Failed.
  pub reconcile-Moves :
      (k : Reconciler) (o : OperatorSource) (w : World E)
      → get_phase_reconciler o ≡ ok k
      → k ≢ for_deleted
      → Moves (current_phase_name o) o (reconcile E k o w).0
  unfolding reconcile
  reconcile-Moves k o w h d = go k (get_phase_reconciler_sound o k h) d
    where
      go :
          (k : Reconciler)
          → current_phase_name o ≡ phase_of k (current_phase_name o)
          → k ≢ for_deleted
          → Moves (current_phase_name o) o (reconcile E k o w).0
      go for_deleted e d = absurd (d refl)
      go for_initial e d =
          subst (λ p. Moves p o (initial_reconcile E o w).0) (sym e) (initial-Moves E o w e)
      go for_validating e d =
          subst (λ p. Moves p o (validating_reconcile E o w).0) (sym e) (validating-Moves E o w e)
      go for_downloading e d =
          subst (λ p. Moves p o (downloading_reconcile E o w).0) (sym e) (downloading-Moves E o w e)
      go for_configuring e d =
          subst (λ p. Moves p o (configuring_reconcile E o w).0) (sym e) (configuring-Moves E o w e)
      go for_purging e d =
          subst (λ p. Moves p o (purging_reconcile E o w).0) (sym e) (purging-Moves E o w e)
      go for_succeeded e d =
          subst (λ p. Moves p o (succeeded_reconcile E o w).0) (sym e) (succeeded-Moves E o w e)
      go for_failed e d =
          subst (λ p. Moves p o (failed_reconcile E o w).0) (sym e) (failed-Moves E o w e)
