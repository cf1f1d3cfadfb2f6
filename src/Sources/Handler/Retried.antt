-- ===== src/Sources/Handler/Retried.antt =====
-- What one call of Handle (pkg/operatorsource/handler.go) does for an operator source in Downloading
-- whose registry cannot be listed: it stays in the phase, to be tried again.
use operator_marketplace.Common.{
  ◌≡◌, refl, ap, ◌∙◌, Bool, true, false, not, none, some, ◌==◌, if◌then◌else◌,
}
use operator_marketplace.Common.Errors.{Error, err}
use operator_marketplace.Api.Meta.{Time, Phase, is_zero, new_phase}
use operator_marketplace.Api.OperatorSource.{OperatorSource, current_phase_name}
use operator_marketplace.Phase.{downloading, get_next_with_message}
use operator_marketplace.Phase.Transitioner.{transition_into_lem}
use operator_marketplace.Cluster.{Environment}
use operator_marketplace.Sources.World.{World}
use operator_marketplace.Sources.Reconcilers.{fail_into, downloading_reconcile}
use operator_marketplace.Sources.Reconcilers.Success.{listing, download_unlisted}
use operator_marketplace.Sources.Handler.{
  Outcome, get_phase_reconciler, reconcile_phase, reconcile, returned, persist, transition, handle,
}
use operator_marketplace.Sources.Handler.Steps.{passes, handle_passed}

-- The object with a message for the phase that it stays in.
abbrev pub noted : Time → OperatorSource → Phase → OperatorSource
noted now o phase = record o {
  status = record (o.status) {
    current_phase = record {
      phase = phase;
      last_transition_time = o.status.current_phase.last_transition_time;
      last_update_time = now;
    };
  };
}

abbrev pub downloading_with : Error → Phase
downloading_with e = record { name = downloading; message = e.message }

module _ (E : Environment) (o : OperatorSource) (e : Error) where
  -- The object is updated, unless the message is there already.
  persist-noted :
      (w : World E) (before : Time) (same : Bool)
      → persist E o
          (
            some (record {
              phase = downloading_with e;
              last_transition_time = o.status.current_phase.last_transition_time;
              last_update_time = if same then before else E.now w.cluster;
            }),
            not same,
          )
          (some e)
          w
        ≡ (
          returned (some e),
          if same then w else record w {
            cluster =
                (E.sources.update (noted (E.now w.cluster) o (downloading_with e)) w.cluster).1;
          },
        )
  unfolding persist
  persist-noted w before true = refl
  persist-noted w before false = refl

  transition_stays :
      (w : World E)
      → (current_phase_name o == downloading) ≡ true
      → transition E (fail_into o downloading e) w ≡ (
        returned (some e),
        if o.status.current_phase.phase.message == e.message then w else record w {
          cluster = (E.sources.update (noted (E.now w.cluster) o (downloading_with e)) w.cluster).1;
        },
      )
  unfolding transition get_next_with_message new_phase
  transition_stays w p =
      rw (transition_into_lem (E.now w.cluster) o.status.current_phase (downloading_with e), p)
        (persist-noted w o.status.current_phase.last_update_time
          (o.status.current_phase.phase.message == e.message))

  run_downloading :
      (w : World E)
      → is_zero o.meta.deletion_timestamp ≡ true
      → current_phase_name o ≡ downloading
      → reconcile_phase E o (get_phase_reconciler o) w
        ≡ (let (r, w') = downloading_reconcile E o w in transition E r w')
  unfolding reconcile_phase get_phase_reconciler reconcile
  run_downloading w z p = rw (z, p) refl

  -- An object in Downloading that passes, is not being deleted, names no secret and has a URL as
  -- endpoint, and whose registry cannot be listed: the call returns the error of the listing, the
  -- datastore is as before, and the object is still in Downloading, with the message of the error
  -- and the time of its transition as before; it is updated once, and not at all if the message is
  -- there already. An error of the update is lost.
  pub handle_unlisted :
      (w : World E)
      → passes E o w ≡ true
      → is_zero o.meta.deletion_timestamp ≡ true
      → current_phase_name o ≡ downloading
      → (o.spec.secret_name == "") ≡ true
      → E.parse_url o.spec.endpoint ≡ none
      → (listing E o w).0 ≡ err e
      → let s = (listing E o w).1 in
        handle E o w ≡ (
          returned (some e),
          record w {
            cluster =
                if o.status.current_phase.phase.message == e.message
                then s
                else (E.sources.update (noted (E.now s) o (downloading_with e)) s).1;
          },
        )
  handle_unlisted w y z p secret url failed =
      handle_passed E o w y
      ∙ run_downloading w z p
      ∙ ap (λ r. transition E r.0 r.1) (download_unlisted E o w e (rw p refl) secret url failed)
      ∙ transition_stays (record w { cluster = (listing E o w).1 }) (rw p refl)
      ∙ inside (o.status.current_phase.phase.message == e.message)
    where
      s : E.State
      s = (listing E o w).1

      inside :
          (same : Bool)
          → ◌≡◌ {A = Outcome × World E}
              (
                returned (some e),
                if same then record w { cluster = s } else record w {
                  cluster = (E.sources.update (noted (E.now s) o (downloading_with e)) s).1;
                },
              )
              (
                returned (some e),
                record w {
                  cluster =
                      if same
                      then s
                      else (E.sources.update (noted (E.now s) o (downloading_with e)) s).1;
                },
              )
      inside true = refl
      inside false = refl
