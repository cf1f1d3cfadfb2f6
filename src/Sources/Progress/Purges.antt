-- ===== src/Sources/Progress/Purges.antt =====
-- An operator source goes to Purging when its registry has changed (TriggerPurge of
-- pkg/operatorsource/pollhelper.go), and on to Initial with one call of the controller's Reconcile.
use mathlib.Core.Path.{subst}
use operator_marketplace.Common.{String, ◌≡◌, refl, sym, ap, ◌∙◌, true, false, Option, none, ◌==◌}
use operator_marketplace.Api.Meta.{NamespacedName, new_phase, is_zero}
use operator_marketplace.Api.OperatorSource.{
  OperatorSource, OperatorSourceSpec, current_phase_name, ensure_source_gvk,
}
use operator_marketplace.Api.CatalogSourceConfig.{CatalogSourceConfig}
use operator_marketplace.Phase.{initial, purging, get_next}
use operator_marketplace.Datastore.{remove_operator_source}
use operator_marketplace.Datastore.Metadata.{OperatorSourceKey}
use operator_marketplace.Cluster.{Environment, Options}
use operator_marketplace.Sources.World.{World}
use operator_marketplace.Sources.Reconcilers.{reset_status}
use operator_marketplace.Sources.Handler.{returned, reconcile_request, handle}
use operator_marketplace.Sources.Handler.Steps.{reconcile_request_found}
use operator_marketplace.Sources.Handler.Writes.{moved}
use operator_marketplace.Sources.Handler.Purged.{has_failed, own_config, purge_handled}
use operator_marketplace.Sources.Poller.{trigger_purge}
use operator_marketplace.Sources.Poller.Purges.{trigger_purge_lem}
use operator_marketplace.Sources.Progress.{IsHealthy}
use operator_marketplace.Sources.Progress.Phases.{IsAt}

-- Configs can be deleted, and a listing does not change the object.
pub record IsUpdatable {E : Environment} {request : NamespacedName} (H : IsHealthy E request)
    : Type 0 where
  pub delete_ok : (c : CatalogSourceConfig) (s : E.State) → (E.configs.delete c s).0 ≡ none
  pub list_held :
      (options : Options) (namespace : Option String) (s : E.State)
      → H.held (E.list_packages options namespace s).1 ≡ H.held s

module _ {E : Environment} {request : NamespacedName} (H : IsHealthy E request) (K : IsUpdatable H)
    (uid : String) (spec : OperatorSourceSpec) where
  purging_handled :
      (o : OperatorSource) (w : World E)
      → is_zero o.meta.deletion_timestamp ≡ true
      → current_phase_name o ≡ purging
      → let deleted = (E.configs.delete (own_config E o) w.cluster).1 in
        let out = moved (E.now deleted) (reset_status E o) (get_next initial) in
        handle E o w ≡ (
          returned none,
          record {
            store = remove_operator_source o.meta.uid w.store;
            cluster = (E.sources.update out deleted).1;
          },
        )
  purging_handled o w live here =
      let deleted = (E.configs.delete (own_config E o) w.cluster).1 in
      let out = moved (E.now deleted) (reset_status E o) (get_next initial) in
      purge_handled E o w (rw here refl) live here
        (ap has_failed (K.delete_ok (own_config E o) w.cluster))
      ∙ rw (K.delete_ok (own_config E o) w.cluster, H.update_ok out deleted) refl

  -- One call in Purging moves the source on to Initial.
  pub from_purging :
      (w : World E)
      → IsAt H uid spec purging w
      → ((reconcile_request E request w).0 ≡ returned none)
        × IsAt H uid spec initial (reconcile_request E request w).1
  unfolding ensure_source_gvk get_next new_phase
  from_purging w a =
      let o = ensure_source_gvk a.object in
      let deleted = (E.configs.delete (own_config E o) w.cluster).1 in
      let out = moved (E.now deleted) (reset_status E o) (get_next initial) in
      subst (λ r. (r.0 ≡ returned none) × IsAt H uid spec initial r.1)
        (sym (
          reconcile_request_found E request a.object w w.cluster
            (H.get_held w.cluster a.object a.held)
          ∙ purging_handled o w a.live a.here))
        (
          refl,
          record {
            object = out;
            held = H.update_held out deleted;
            here = refl;
            live = a.live;
            same_uid = a.same_uid;
            same_spec = a.same_spec;
          },
        )

  -- TriggerPurge writes a source that is in another phase once, in Purging.
  pub trigger_purge-update :
      (phase : String) (w : World E) (key : OperatorSourceKey)
      → (phase == purging) ≡ false
      → key.name ≡ request
      → IsAt H uid spec phase w
      → (changed : OperatorSource) × (trigger_purge E key w.cluster ≡ (
        (false, (E.sources.update changed w.cluster).0),
        (E.sources.update changed w.cluster).1,
      ))
        × IsAt H uid spec purging (record w { cluster = (E.sources.update changed w.cluster).1 })
  unfolding ensure_source_gvk
  trigger_purge-update phase w key n named a =
      let o = ensure_source_gvk a.object in
      let current = o.status.current_phase in
      let changed : OperatorSource = record o {
        status = record (o.status) {
          current_phase = record {
            phase = record { name = purging; message = "Remote registry has been updated" };
            last_transition_time = E.now w.cluster;
            last_update_time = E.now w.cluster;
          };
        };
      } in
      let other : (current.phase.name == purging) ≡ false = rw a.here n in
      (
        changed,
        trigger_purge_lem E key a.object w.cluster w.cluster
              (rw named (H.get_held w.cluster a.object a.held))
            ∙ rw other refl,
        record {
          object = changed;
          held = H.update_held changed w.cluster;
          here = refl;
          live = a.live;
          same_uid = a.same_uid;
          same_spec = a.same_spec;
        },
      )
