-- ===== src/Sources/Handler/Writes.antt =====
-- What one call of Handle writes: the update of the object with its new phase, and the datastore.
use operator_marketplace.Common.{
  ◌≡◌, ◌∙◌, true, false, Option, none, String, List, some, arith, ◌==◌, if◌then◌else◌, is_some,
}
use operator_marketplace.Common.Errors.{Error}
use operator_marketplace.Common.Maps.{IsWithout, lookup-delete}
use operator_marketplace.Api.Meta.{
  Time, Phase, new_phase, is_zero, AreWithout, remove_finalizer, contains-remove_finalizer,
}
use operator_marketplace.Datastore.Rows.{remove_row}
use operator_marketplace.Api.OperatorSource.{
  OperatorSource, current_phase_name, remove_source_finalizer, operator_source_finalizer,
}
use operator_marketplace.Phase.{purging, get_next}
use operator_marketplace.Phase.Transitioner.{transition_into, transition_into_lem}
use operator_marketplace.Datastore.{Datastore, remove_operator_source}
use operator_marketplace.Cluster.{Environment}
use operator_marketplace.Sources.World.{World}
use operator_marketplace.Sources.Reconcilers.{deleted_reconcile}
use operator_marketplace.Sources.Handler.{
  Outcome, get_phase_reconciler, returned, panicked, first_error, reconcile, transition,
  reconcile_phase, handle,
}
use operator_marketplace.Sources.Handler.Steps.{passes, handle_passed, handle_out_of_sync}

-- The object in its next phase, since `now`.
abbrev pub moved : Time → OperatorSource → Phase → OperatorSource
moved now out next = record out {
  status = record (out.status) {
    current_phase = record { phase = next; last_transition_time = now; last_update_time = now };
  };
}

module _ (E : Environment) where
  -- A change of the phase's name is written with one update.
  pub transition_moves :
      (out : OperatorSource) (next : Phase) (e : Option Error) (w : World E)
      → (current_phase_name out == next.name) ≡ false
      → let (u, cluster) = E.sources.update (moved (E.now w.cluster) out next) w.cluster in
        transition E (record { out = some out; next_phase = some next; error = e }) w
        ≡ (returned (first_error e u), record w { cluster = cluster })
  unfolding transition
  transition_moves out next e w n =
      rw (transition_into_lem (E.now w.cluster) out.status.current_phase next, n)

  not_purging :
      (o : OperatorSource) (w : World E)
      → passes E o w ≡ false
      → (current_phase_name o == purging) ≡ false
  not_purging o w n = ground arith

  -- An object that the out-of-sync reconciler does not let pass is updated once, in phase Purging
  -- with the time of the transition; the datastore stays as it is, and the call returns the error
  -- of the update.
  pub handle_purges :
      (o : OperatorSource) (w : World E)
      → passes E o w ≡ false
      → let (error, cluster) =
          E.sources.update (moved (E.now w.cluster) o (get_next purging)) w.cluster in
        handle E o w ≡ (returned error, record w { cluster = cluster })
  handle_purges o w n =
      handle_out_of_sync E o w n
      ∙ transition_moves o (get_next purging) none w
          (unfold get_next new_phase in not_purging o w n)

  deleted_phase :
      (o : OperatorSource) (w : World E)
      → is_zero o.meta.deletion_timestamp ≡ false
      → let (error, cluster) = E.sources.update (remove_source_finalizer o) w.cluster in
        let w' : World E = record {
          store = remove_operator_source o.meta.uid w.store;
          cluster = cluster;
        } in
        reconcile_phase E o (get_phase_reconciler o) w
        ≡ (if is_some error then panicked else returned none, w')
  unfolding reconcile_phase get_phase_reconciler reconcile transition transition_into
      deleted_reconcile
  deleted_phase o w z = rw z (ground arith)

  deletion_handled :
      (o : OperatorSource) (w : World E)
      → passes E o w ≡ true
      → is_zero o.meta.deletion_timestamp ≡ false
      → let (error, cluster) = E.sources.update (remove_source_finalizer o) w.cluster in
        let w' : World E = record {
          store = remove_operator_source o.meta.uid w.store;
          cluster = cluster;
        } in
        handle E o w ≡ (if is_some error then panicked else returned none, w')
  deletion_handled o w y z = handle_passed E o w y ∙ deleted_phase o w z

  -- The row of the object's UID is gone, and the object is written without its finalizer.
  pub record IsForgotten (o : OperatorSource) (w : World E) (r : Outcome × World E) : Type 0 where
    pub store : Datastore
    pub forgotten : IsWithout o.meta.uid w.store.rows store.rows
    pub finalizers : List String
    pub released :
        AreWithout "finalizer.operatorsources.marketplace.redhat.com" o.meta.finalizers finalizers
    pub handled :
        let out : OperatorSource = record o {
          meta = record (o.meta) { finalizers = finalizers };
        } in
        let (error, cluster) = E.sources.update out w.cluster in
        r ≡ (
          if is_some error then panicked else returned none,
          record { store = store; cluster = cluster },
        )

  -- The deletion of an object that passes the out-of-sync reconciler: the datastore loses the row of
  -- the object's UID and keeps every other row; and the object is updated once, which takes its
  -- finalizer away and leaves its other finalizers and fields. The call ends with no error if that
  -- succeeds, and in a panic if it fails.
  pub handle_deleted :
      (o : OperatorSource) (w : World E)
      → passes E o w ≡ true
      → is_zero o.meta.deletion_timestamp ≡ false
      → IsForgotten o w (handle E o w)
  unfolding remove_operator_source remove_row remove_source_finalizer remove_finalizer
  handle_deleted o w y z = record {
    store = remove_operator_source o.meta.uid w.store;
    forgotten = λ uid. lookup-delete o.meta.uid uid w.store.rows;
    finalizers = (remove_source_finalizer o).meta.finalizers;
    released = contains-remove_finalizer o.meta operator_source_finalizer;
    handled = deletion_handled o w y z;
  }
