-- ===== src/Sources/Handler/Kept.antt =====
-- Handle and the controller's Reconcile (pkg/operatorsource/handler.go and its controller) keep the
-- datastore well-formed.
use operator_marketplace.Common.{
  Bool, true, false, Option, none, some, Option-cases, Bool-cases, inl, inr,
}
use operator_marketplace.Common.Errors.{Error, Result, ok, err, is_not_found}
use operator_marketplace.Api.Meta.{NamespacedName, ObjectPhase}
use operator_marketplace.Api.OperatorSource.{OperatorSource, ensure_source_gvk}
use operator_marketplace.Cluster.{Environment}
use operator_marketplace.Sources.World.{Reconciled}
use operator_marketplace.Sources.Reconcilers.Stored.{
  Keeps, initial-Keeps, validating-Keeps, downloading-Keeps, configuring-Keeps, succeeded-Keeps,
  failed-Keeps, purging-Keeps, deleted-Keeps, out_of_sync-Keeps,
}
use operator_marketplace.Sources.Handler.{
  Reconciler, for_deleted, for_initial, for_validating, for_downloading, for_configuring,
  for_purging, for_succeeded, for_failed, get_phase_reconciler, reconcile, persist, transition,
  reconcile_phase, after_sync, handle, handle_fetched, reconcile_request,
}

module _ (E : Environment) where
  reconcile-Keeps : (k : Reconciler) (o : OperatorSource) → Keeps E (reconcile E k o)
  unfolding reconcile
  reconcile-Keeps for_deleted o = deleted-Keeps E o
  reconcile-Keeps for_initial o = initial-Keeps E o
  reconcile-Keeps for_validating o = validating-Keeps E o
  reconcile-Keeps for_downloading o = downloading-Keeps E o
  reconcile-Keeps for_configuring o = configuring-Keeps E o
  reconcile-Keeps for_purging o = purging-Keeps E o
  reconcile-Keeps for_succeeded o = succeeded-Keeps E o
  reconcile-Keeps for_failed o = failed-Keeps E o

  persist-Keeps :
      (o : OperatorSource) (p : Option ObjectPhase × Bool) (e : Option Error)
      → Keeps E (persist E o p e)
  unfolding persist
  persist-Keeps o (p, false) e w v = v
  persist-Keeps o (none, true) e w v = v
  persist-Keeps o (some p, true) e w v = v

  transition-Keeps : (r : Reconciled) → Keeps E (transition E r)
  unfolding transition
  transition-Keeps r w v = elim (Option-cases r.out) [
    | inl e ↦ rw (e, transition) v
    | inr (o, e) ↦ rw (e, transition) (persist-Keeps o _ r.error w v)
  ]

  reconcile_phase-Keeps :
      (o : OperatorSource) (r : Result Reconciler) → Keeps E (reconcile_phase E o r)
  unfolding reconcile_phase
  reconcile_phase-Keeps o (err e) w v = v
  reconcile_phase-Keeps o (ok k) w v = transition-Keeps _ _ (reconcile-Keeps k o w v)

  after_sync-Keeps : (o : OperatorSource) (r : Reconciled) → Keeps E (after_sync E o r)
  unfolding after_sync
  after_sync-Keeps o r w v = elim (Option-cases r.error) [
    | inr (e, q) ↦ rw (q, after_sync) v
    | inl q ↦ elim (Option-cases r.next_phase) [
      | inl p ↦ rw (q, p, after_sync) (reconcile_phase-Keeps o (get_phase_reconciler o) w v)
      | inr (n, p) ↦ rw (q, p, after_sync) (transition-Keeps r w v)
    ]
  ]

  handle-Keeps : (o : OperatorSource) → Keeps E (handle E o)
  unfolding handle
  handle-Keeps o w v = after_sync-Keeps o _ _ (out_of_sync-Keeps E o w v)

  fetched-Keeps : (r : Result OperatorSource) → Keeps E (handle_fetched E r)
  unfolding handle_fetched
  fetched-Keeps (err e) w v = elim (Bool-cases (is_not_found e)) [ inl p ↦ rw p v | inr p ↦ rw p v ]
  fetched-Keeps (ok o) w v = handle-Keeps (ensure_source_gvk o) w v

  pub reconcile_request-Keeps : (request : NamespacedName) → Keeps E (reconcile_request E request)
  unfolding reconcile_request
  reconcile_request-Keeps request w v = fetched-Keeps _ _ v
