-- ===== src/Sources/Handler/Panics.antt =====
-- When one call of Handle (pkg/operatorsource/handler.go) ends in a panic.
use operator_marketplace.Common.{
  ◌≡◌, refl, ◌≢◌, ◌↔◌, inl, inr, true, false, none, arith, Bool-cases, is_some,
}
use operator_marketplace.Common.Errors.{Result, ok, err}
use operator_marketplace.Api.Meta.{is_zero}
use operator_marketplace.Api.OperatorSource.{
  OperatorSource, current_phase_name, remove_source_finalizer,
}
use operator_marketplace.Phase.{purging}
use operator_marketplace.Cluster.{Environment}
use operator_marketplace.Sources.World.{World}
use operator_marketplace.Sources.Reconcilers.{advance, deleted_reconcile}
use operator_marketplace.Sources.Handler.{
  Reconciler, for_deleted, get_phase_reconciler, panicked, reconcile, reconcile_phase, handle,
}
use operator_marketplace.Sources.Handler.Steps.{
  passes, handle_passed, handle_out_of_sync, transition-panicked_iff, Moves-out, reconcile-Moves,
}

module _ (E : Environment) where
  live-ne-deleted :
      (o : OperatorSource) (k : Reconciler)
      → is_zero o.meta.deletion_timestamp ≡ true
      → get_phase_reconciler o ≡ ok k
      → k ≢ for_deleted
  unfolding get_phase_reconciler
  live-ne-deleted o k z h d = ground arith

  live-ne-panicked :
      (o : OperatorSource) (w : World E)
      → is_zero o.meta.deletion_timestamp ≡ true
      → (reconcile_phase E o (get_phase_reconciler o) w).0 ≢ panicked
  unfolding reconcile_phase
  live-ne-panicked o w z = go (get_phase_reconciler o) refl
    where
      go :
          (r : Result Reconciler)
          → get_phase_reconciler o ≡ r
          → (reconcile_phase E o r w).0 ≢ panicked
      go (err e) h = λ p. cc
      go (ok k) h = λ p.
          Moves-out E (current_phase_name o) o (reconcile E k o w).0
            (reconcile-Moves E k o w h (live-ne-deleted o k z h))
            ((transition-panicked_iff E (reconcile E k o w).0 (reconcile E k o w).1).0 p)

  deleted-out :
      (o : OperatorSource) (w : World E)
      → ((deleted_reconcile E o w).0.out ≡ none)
        ↔ (is_some (E.sources.update (remove_source_finalizer o) w.cluster).0 ≡ true)
  unfolding deleted_reconcile
  deleted-out o w = (ground arith, ground arith)

  deleted-panicked_iff :
      (o : OperatorSource) (w : World E)
      → is_zero o.meta.deletion_timestamp ≡ false
      → ((reconcile_phase E o (get_phase_reconciler o) w).0 ≡ panicked)
        ↔ (is_some (E.sources.update (remove_source_finalizer o) w.cluster).0 ≡ true)
  unfolding reconcile_phase get_phase_reconciler
  deleted-panicked_iff o w z = rw z (
      let t = transition-panicked_iff E (deleted_reconcile E o w).0 (deleted_reconcile E o w).1 in
      let d = deleted-out o w in ((λ p. d.0 (t.0 p)), (λ u. t.1 (d.1 u))))

  -- Handle ends in a panic exactly when the object is being deleted, the out-of-sync reconciler
  -- lets it pass, and the update that drops its finalizer fails.
  pub handle-panicked_iff :
      (o : OperatorSource) (w : World E)
      → ((handle E o w).0 ≡ panicked) ↔ (
          (passes E o w ≡ true)
          × (is_zero o.meta.deletion_timestamp ≡ false)
          × (is_some (E.sources.update (remove_source_finalizer o) w.cluster).0 ≡ true))
  handle-panicked_iff o w = elim (Bool-cases (passes E o w)) [
    | inr n ↦
        rw (handle_out_of_sync E o w n)
          ((λ p. cc ((transition-panicked_iff E (advance o purging) w).0 p)), (λ h. cc (n, h.0)))
    | inl y ↦ rw (handle_passed E o w y) (elim (Bool-cases (is_zero o.meta.deletion_timestamp)) [
      | inl z ↦ ((λ p. absurd (live-ne-panicked o w z p)), (λ h. cc (z, h.1)))
      | inr z ↦ (
        (λ p. (y, z, (deleted-panicked_iff o w z).0 p)),
        (λ h. (deleted-panicked_iff o w z).1 h.2),
      )
    ])
  ]
