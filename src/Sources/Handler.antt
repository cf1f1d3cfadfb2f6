-- ===== src/Sources/Handler.antt =====
-- factory.go and handler.go of pkg/operatorsource, and the Reconcile of
-- pkg/controller/operatorsource/operatorsource_controller.go.
pub mod Steps
pub mod Panics
pub mod Writes
pub mod Purged
pub mod Retried
pub mod Kept
use operator_marketplace.Common.{
  String, ◌<>◌, Bool, true, false, not, Option, none, some, ◌==◌, if◌then◌else◌,
}
use operator_marketplace.Common.Errors.{Error, Result, ok, err, new_error, is_not_found}
use operator_marketplace.Common.Effects.{◌>>=◌, pure}
use operator_marketplace.Api.Meta.{NamespacedName, ObjectPhase, is_zero}
use operator_marketplace.Api.OperatorSource.{OperatorSource, current_phase_name, ensure_source_gvk}
use operator_marketplace.Phase.{
  initial, configuring, succeeded, failed, validating, downloading, purging,
}
use operator_marketplace.Phase.Transitioner.{transition_into}
use operator_marketplace.Cluster.{Environment}
use operator_marketplace.Sources.World.{Reconciled, World, Action, outside}
use operator_marketplace.Sources.Reconcilers.{
  initial_reconcile, validating_reconcile, downloading_reconcile, configuring_reconcile,
  succeeded_reconcile, failed_reconcile, purging_reconcile, deleted_reconcile,
  out_of_sync_reconcile,
}

-- The reconcilers that the factory builds.
pub data Reconciler : Type 0 where
  for_deleted for_initial for_validating for_downloading for_configuring : Reconciler
  for_purging for_succeeded for_failed : Reconciler

-- The `switch` of GetPhaseReconciler.
abbrev pub reconciler_of_phase : String → Result Reconciler
reconciler_of_phase name =
    if name == initial
    then ok for_initial
    else if name == validating
    then ok for_validating
    else if name == downloading
    then ok for_downloading
    else if name == configuring
    then ok for_configuring
    else if name == purging
    then ok for_purging
    else if name == succeeded
    then ok for_succeeded
    else if name == failed
    then ok for_failed
    else err (
        new_error (
          "No phase reconciler returned, invalid phase for OperatorSource type [phase=" <> name
          <> "]"))

unfoldable pub get_phase_reconciler : OperatorSource → Result Reconciler
get_phase_reconciler o =
    if not (is_zero o.meta.deletion_timestamp)
    then ok for_deleted
    else reconciler_of_phase (current_phase_name o)

-- How a call of `Handle` ends: with an error or nil, or by reading a field through a nil pointer.
pub data Outcome : Type 0 where
  returned : Option Error → Outcome
  panicked : Outcome

-- The reconciliation error comes before that of the update.
abbrev pub first_error : Option Error → Option Error → Option Error
first_error (some e) update_error = some e
first_error none update_error = update_error

module _ (E : Environment) where
  unfoldable pub reconcile : Reconciler → OperatorSource → Action E Reconciled
  reconcile for_deleted o = deleted_reconcile E o
  reconcile for_initial o = initial_reconcile E o
  reconcile for_validating o = validating_reconcile E o
  reconcile for_downloading o = downloading_reconcile E o
  reconcile for_configuring o = configuring_reconcile E o
  reconcile for_purging o = purging_reconcile E o
  reconcile for_succeeded o = succeeded_reconcile E o
  reconcile for_failed o = failed_reconcile E o

  -- An object whose phase has changed is updated.
  persist : OperatorSource → Option ObjectPhase × Bool → Option Error → Action E Outcome
  persist out (phase, false) error = pure (returned error)
  persist out (none, true) error = pure (returned error)
  persist out (some phase, true) error = do
    updated ←
        outside E
          (E.sources.update (record out { status = record (out.status) { current_phase = phase } }))
    pure (returned (first_error error updated))

  -- `transition`; taking the address of a field of a nil `opsrc` panics.
  unfoldable pub transition : Reconciled → Action E Outcome
  unfolding persist
  transition r w = elim r.out [
    | none ↦ (panicked, w)
    | some out ↦
        persist out (transition_into (E.now w.cluster) (some out.status.current_phase) r.next_phase)
          r.error w
  ]

  unfoldable pub reconcile_phase : OperatorSource → Result Reconciler → Action E Outcome
  unfolding reconcile transition
  reconcile_phase o (err e) = pure (returned (some e))
  reconcile_phase o (ok reconciler) = do r ← reconcile reconciler o; transition r

  -- After the out-of-sync reconciler: its error, its phase, or the phase reconciler.
  after_sync : OperatorSource → Reconciled → Action E Outcome
  unfolding reconcile_phase
  after_sync o r = elim r.error [
    | some e ↦ pure (returned (some e))
    | none ↦ elim r.next_phase [
      | some phase ↦ transition r
      | none ↦ reconcile_phase o (get_phase_reconciler o)
    ]
  ]

  unfoldable pub handle : OperatorSource → Action E Outcome
  unfolding after_sync
  handle o = do r ← out_of_sync_reconcile E o; after_sync o r

  handle_fetched : Result OperatorSource → Action E Outcome
  handle_fetched (err e) = if is_not_found e then pure (returned none) else pure (returned (some e))
  handle_fetched (ok instance_) = handle (ensure_source_gvk instance_)

  -- The controller's Reconcile: the object is fetched and handled; one that is gone is no error.
  unfoldable pub reconcile_request : NamespacedName → Action E Outcome
  unfolding handle_fetched
  reconcile_request request = do fetched ← outside E (E.sources.get request); handle_fetched fetched
