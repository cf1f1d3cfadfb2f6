-- ===== src/Sources/Handler/Purged.antt =====
-- What one call of Handle does for an operator source in Purging.
use operator_marketplace.Common.{◌≡◌, refl, ◌∙◌, Bool, true, false, not, Option, none, some, ◌==◌}
use operator_marketplace.Common.Errors.{Error, is_not_found}
use operator_marketplace.Api.Meta.{is_zero, new_phase, empty_object_meta}
use operator_marketplace.Api.OperatorSource.{OperatorSource, current_phase_name}
use operator_marketplace.Api.CatalogSourceConfig.{CatalogSourceConfig, empty_config}
use operator_marketplace.Phase.{initial, purging, get_next, get_message}
use operator_marketplace.Common.Maps.{IsWithout, lookup-delete}
use operator_marketplace.Datastore.Rows.{remove_row}
use operator_marketplace.Datastore.{Datastore, remove_operator_source}
use operator_marketplace.Cluster.{Environment}
use operator_marketplace.Sources.Builder.{with_namespaced_name, with_type_meta}
use operator_marketplace.Sources.World.{World}
use operator_marketplace.Sources.Reconcilers.{purging_reconcile, purged, reset_status}
use operator_marketplace.Sources.Handler.{
  Outcome, get_phase_reconciler, reconcile, transition, reconcile_phase, returned, first_error,
  handle,
}
use operator_marketplace.Sources.Handler.Steps.{passes, handle_passed}
use operator_marketplace.Sources.Handler.Writes.{moved, transition_moves}

-- Whether the deletion has failed for another reason than that there is nothing to delete.
abbrev pub has_failed : Option Error → Bool
has_failed none = false
has_failed (some e) = not (is_not_found e)

module _ (E : Environment) where
  -- The config that the source has created.
  abbrev pub own_config : OperatorSource → CatalogSourceConfig
  own_config o = record empty_config {
    type_meta = record {
      kind = "CatalogSourceConfig";
      api_version = "marketplace.redhat.com/v1alpha1";
    };
    meta = record empty_object_meta { name = o.meta.name; namespace = o.meta.namespace };
  }

  after_purge :
      (o : OperatorSource) (d : Option Error) (w : World E)
      → has_failed d ≡ false
      → (current_phase_name o == initial) ≡ false
      → let (u, cluster) =
          E.sources.update
            (moved (E.now w.cluster) (reset_status E o) (get_next initial))
            w.cluster in
        transition E (purged E o d) w ≡ (returned (first_error d u), record w { cluster = cluster })
  after_purge o none w f n =
      transition_moves E (reset_status E o) (get_next initial) none w
        (unfold get_next new_phase in n)
  after_purge o (some e) w f n = rw f (
      transition_moves E (reset_status E o) (get_next initial) (some e) w
        (unfold get_next new_phase in n))

  run_purging :
      (o : OperatorSource) (w : World E)
      → is_zero o.meta.deletion_timestamp ≡ true
      → current_phase_name o ≡ purging
      → let (d, deleted) = E.configs.delete (own_config o) w.cluster in
        reconcile_phase E o (get_phase_reconciler o) w
        ≡ transition E
            (purged E o d)
            (record { store = remove_operator_source o.meta.uid w.store; cluster = deleted })
  unfolding reconcile_phase get_phase_reconciler reconcile purging_reconcile with_namespaced_name
      with_type_meta
  run_purging o w z e = rw (z, e) refl

  pub purge_handled :
      (o : OperatorSource) (w : World E)
      → passes E o w ≡ true
      → is_zero o.meta.deletion_timestamp ≡ true
      → current_phase_name o ≡ purging
      → has_failed (E.configs.delete (own_config o) w.cluster).0 ≡ false
      → let (d, deleted) = E.configs.delete (own_config o) w.cluster in
        let (u, cluster) =
          E.sources.update (moved (E.now deleted) (reset_status E o) (get_next initial)) deleted in
        handle E o w ≡ (
          returned (first_error d u),
          record { store = remove_operator_source o.meta.uid w.store; cluster = cluster },
        )
  purge_handled o w y z e f =
      handle_passed E o w y ∙ run_purging o w z e ∙ after_purge o _ _ f (rw e refl)

  -- The row of the object's UID is gone, its config is deleted, and it starts anew.
  pub record IsPurged (o : OperatorSource) (w : World E) (r : Outcome × World E) : Type 0 where
    pub store : Datastore
    pub forgotten : IsWithout o.meta.uid w.store.rows store.rows
    pub handled :
        let (d, deleted) = E.configs.delete (own_config o) w.cluster in
        let out : OperatorSource = record o {
          status = record {
            current_phase = record {
              phase = record {
                name = initial;
                message = "Out of sync, scheduled for phased reconciliation";
              };
              last_transition_time = E.now deleted;
              last_update_time = E.now deleted;
            };
            packages = "";
          };
        } in
        let (u, cluster) = E.sources.update out deleted in
        r ≡ (returned (first_error d u), record { store = store; cluster = cluster })

  -- An object in Purging that passes the out-of-sync reconciler and is not being deleted, and whose
  -- CatalogSourceConfig, the one of its name and namespace, can be deleted or is not there: the
  -- datastore loses the row of the object's UID and keeps every other row; and after the deletion of
  -- the config, the object is updated once, with a status of no packages and the phase Initial since
  -- the time of that update, and its other fields as they were. The call returns the error of the
  -- deletion, also that there was none to delete, or else that of the update.
  pub handle-purging :
      (o : OperatorSource) (w : World E)
      → passes E o w ≡ true
      → is_zero o.meta.deletion_timestamp ≡ true
      → current_phase_name o ≡ purging
      → has_failed (E.configs.delete (own_config o) w.cluster).0 ≡ false
      → IsPurged o w (handle E o w)
  unfolding remove_operator_source remove_row get_next new_phase get_message
  handle-purging o w y z e f = record {
    store = remove_operator_source o.meta.uid w.store;
    forgotten = λ uid. lookup-delete o.meta.uid uid w.store.rows;
    handled = purge_handled o w y z e f;
  }
