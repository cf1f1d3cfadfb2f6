-- ===== src/Sources/Poller/Purges.antt =====
-- What TriggerPurge (pkg/operatorsource/pollhelper.go) writes.
use operator_marketplace.Common.{◌≡◌, refl, Bool, true, false, not, none, some, ◌==◌, if◌then◌else◌}
use operator_marketplace.Common.Errors.{ok}
use operator_marketplace.Api.Meta.{Time, Phase, ObjectPhase}
use operator_marketplace.Api.OperatorSource.{OperatorSource, ensure_source_gvk}
use operator_marketplace.Phase.{purging}
use operator_marketplace.Phase.Transitioner.{transition_into_lem, same_phase}
use operator_marketplace.Datastore.Metadata.{OperatorSourceKey}
use operator_marketplace.Cluster.{Environment}
use operator_marketplace.Sources.Poller.{trigger_purge, purge_fetched, purge_instance}

module _ (E : Environment) where
  -- The update is left out if nothing has changed.
  purge_when :
      (o : OperatorSource) (s : E.State) (before : Time) (phase : Time → ObjectPhase) (same : Bool)
      → let changed : OperatorSource = record o {
        status = record (o.status) { current_phase = phase (E.now s) };
      } in
        purge_instance E o (some (phase (if same then before else E.now s)), not same) s ≡ (
          if same
          then ((false, none), s)
          else ((false, (E.sources.update changed s).0), (E.sources.update changed s).1))
  unfolding purge_instance
  purge_when o s before phase true = refl
  purge_when o s before phase false = refl

  -- TriggerPurge updates a source that it can fetch once, with its phase set to Purging since the time of the transition
  -- (or, if it was in Purging, with the new message), unless both phase and message are there
  -- already: then it is not updated.
  pub trigger_purge_lem :
      (source : OperatorSourceKey) (o : OperatorSource) (s s' : E.State)
      → E.sources.get source.name s ≡ (ok o, s')
      → let fetched = ensure_source_gvk o in
        let current = fetched.status.current_phase in
        let next : Phase = record {
          name = purging;
          message = "Remote registry has been updated";
        } in
        let changed : OperatorSource = record fetched {
          status = record (fetched.status) {
            current_phase = record {
              phase = next;
              last_transition_time =
                  if current.phase.name == purging then current.last_transition_time else E.now s';
              last_update_time = E.now s';
            };
          };
        } in
        trigger_purge E source s ≡ (
          if same_phase current.phase next
          then ((false, none), s')
          else ((false, (E.sources.update changed s').0), (E.sources.update changed s').1))
  unfolding trigger_purge purge_fetched purge_instance
  trigger_purge_lem source o s s' h =
      let fetched = ensure_source_gvk o in
      let next : Phase = record { name = purging; message = "Remote registry has been updated" } in
      rw (h, purge_fetched, transition_into_lem (E.now s') fetched.status.current_phase next)
        (purge_when fetched s' fetched.status.current_phase.last_update_time
          (λ updated. record {
            phase = next;
            last_transition_time =
                if fetched.status.current_phase.phase.name == purging
                then fetched.status.current_phase.last_transition_time
                else E.now s';
            last_update_time = updated;
          })
          (same_phase fetched.status.current_phase.phase next))
