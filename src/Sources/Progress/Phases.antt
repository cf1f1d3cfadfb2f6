-- ===== src/Sources/Progress/Phases.antt =====
-- One call of the controller's Reconcile in each of Initial and Validating moves a healthy operator
-- source on to the next phase.
pub mod Downloads
pub mod Creates
use mathlib.Core.Path.{subst}
use operator_marketplace.Common.{
  String, ◌≡◌, refl, sym, ap, ◌∙◌, Bool, true, false, ◌||◌, none, some, [], arith, ◌==◌, eq_iff,
}
use operator_marketplace.Common.Errors.{ok}
use operator_marketplace.Common.Maps.{insert, lookup-insert_self}
use operator_marketplace.Api.Meta.{NamespacedName, new_phase, is_zero, ensure_finalizer}
use operator_marketplace.Api.OperatorSource.{
  OperatorSource, OperatorSourceSpec, current_phase_name, ensure_source_gvk,
  ensure_source_finalizer, is_equal, is_equal_refl,
}
use operator_marketplace.Phase.{initial, validating, downloading, purging, get_next}
use operator_marketplace.Datastore.{Datastore, get_operator_source, add_operator_source}
use operator_marketplace.Common.Maps.{Map}
use operator_marketplace.Datastore.Metadata.{Repository, OperatorSourceKey}
use operator_marketplace.Datastore.Rows.{get_row, new_row, add_row, add_empty_row}
use operator_marketplace.Cluster.{Environment}
use operator_marketplace.Sources.World.{World}
use operator_marketplace.Sources.Reconcilers.{in_sync, initial_reconcile, validating_reconcile}
use operator_marketplace.Sources.Handler.{
  Reconciler, for_initial, for_validating, get_phase_reconciler, Outcome, returned, reconcile,
  reconcile_request, reconciler_of_phase,
}
use operator_marketplace.Sources.Handler.Steps.{passes}
use operator_marketplace.Sources.Handler.Writes.{moved}
use operator_marketplace.Sources.Progress.{IsHealthy, advanced, request_advances}

-- A source whose endpoint is a URL, with no secret.
pub record IsPublic (E : Environment) (spec : OperatorSourceSpec) : Type 0 where
  pub request_uri : E.parse_request_uri spec.endpoint ≡ none
  pub url : E.parse_url spec.endpoint ≡ none
  pub no_secret : (spec.secret_name == "") ≡ true

module _ {E : Environment} {request : NamespacedName} (H : IsHealthy E request) (uid : String)
    (spec : OperatorSourceSpec) where
  -- The cluster holds the object in this phase, not being deleted.
  pub record IsAt (phase : String) (w : World E) : Type 0 where
    pub object : OperatorSource
    pub held : H.held w.cluster ≡ some object
    pub here : current_phase_name object ≡ phase
    pub live : is_zero object.meta.deletion_timestamp ≡ true
    pub same_uid : object.meta.uid ≡ uid
    pub same_spec : object.spec ≡ spec

  -- The datastore has a row for the UID, with the spec.
  pub record IsKnown (ds : Datastore) : Type 0 where
    pub key : OperatorSourceKey
    pub stored : get_operator_source uid ds ≡ some key
    pub same_spec : key.spec ≡ spec

  -- A call ends without an error, in the phase.
  pub record IsStep (phase : String) (w : World E) (r : Outcome × World E) : Type 0 where
    pub outcome : r.0 ≡ returned none
    pub at : IsAt phase r.1
    pub known : IsKnown r.1.store

  known_passes :
      (o : OperatorSource) (w : World E)
      → o.meta.uid ≡ uid
      → o.spec ≡ spec
      → IsKnown w.store
      → passes E o w ≡ true
  known_passes o w u s k =
      or_true (current_phase_name o == initial || current_phase_name o == purging)
    where
      synced : in_sync E (get_operator_source o.meta.uid w.store) o.spec ≡ true
      synced =
          ap (λ x. in_sync E (get_operator_source x w.store) o.spec) u
          ∙ ap (λ x. in_sync E x o.spec) k.stored
          ∙ ap (λ x. is_equal E.fold k.key.spec (some x)) (s ∙ sym k.same_spec)
          ∙ is_equal_refl E.fold k.key.spec

      or_true : (b : Bool) → (b || in_sync E (get_operator_source o.meta.uid w.store) o.spec) ≡ true
      or_true true = refl
      or_true false = synced

  arrive :
      (out : OperatorSource) (name : String) (w w' : World E)
      → reconcile_request E request w ≡ (returned none, advanced H w' out name)
      → is_zero out.meta.deletion_timestamp ≡ true
      → out.meta.uid ≡ uid
      → out.spec ≡ spec
      → IsKnown w'.store
      → IsStep name w (reconcile_request E request w)
  arrive out name w w' e live u s k =
      subst (λ r. IsStep name w r) (sym e)
        (record {
          outcome = refl;
          at = record {
            object = moved (E.now w'.cluster) out (get_next name);
            held = H.update_held (moved (E.now w'.cluster) out (get_next name)) w'.cluster;
            here = unfold get_next new_phase in refl;
            live = live;
            same_uid = u;
            same_spec = s;
          };
          known = record { key = k.key; stored = k.stored; same_spec = k.same_spec };
        })

  chosen :
      (o : OperatorSource) (k : Reconciler) (phase : String)
      → is_zero o.meta.deletion_timestamp ≡ true
      → current_phase_name o ≡ phase
      → reconciler_of_phase phase ≡ ok k
      → get_phase_reconciler o ≡ ok k
  unfolding get_phase_reconciler
  chosen o k phase live here r = rw (live, here) r

  guard :
      (o : OperatorSource) (p : String)
      → current_phase_name o ≡ p
      → (current_phase_name o == p) ≡ true
  guard o p e = (eq_iff (current_phase_name o) p).1 e

  row-IsKnown :
      (o : OperatorSource) (reps : Map Repository) (ds : Datastore)
      → o.meta.uid ≡ uid
      → o.spec ≡ spec
      → IsKnown (record { rows = insert o.meta.uid (new_row o reps) ds.rows })
  unfolding get_operator_source get_row new_row
  row-IsKnown o reps ds u s = record {
    key = (new_row o reps).key;
    stored =
        rw (sym u, get_operator_source)
          (rw (lookup-insert_self o.meta.uid (new_row o reps) ds.rows) refl);
    same_spec = s;
  }

  added-IsKnown :
      (o : OperatorSource) (ds : Datastore)
      → o.meta.uid ≡ uid
      → o.spec ≡ spec
      → IsKnown (add_operator_source o ds)
  unfolding add_operator_source add_empty_row add_row get_operator_source get_row new_row
  added-IsKnown o ds u s = row-IsKnown o [] ds u s

  finalized :
      (o : OperatorSource)
      → ((ensure_source_finalizer o).meta.uid ≡ o.meta.uid)
        × (is_zero (ensure_source_finalizer o).meta.deletion_timestamp
            ≡ is_zero o.meta.deletion_timestamp)
  unfolding ensure_source_finalizer ensure_finalizer
  finalized o = (ground arith, ground arith)

  differs :
      (o : OperatorSource) (p q : String)
      → current_phase_name o ≡ p
      → (p == q) ≡ false
      → (current_phase_name o == q) ≡ false
  differs o p q e n = rw e n

  pub from_initial :
      (w : World E) → IsAt initial w → IsStep validating w (reconcile_request E request w)
  unfolding ensure_source_gvk reconcile initial_reconcile ensure_source_finalizer
  from_initial w a =
      let o = ensure_source_gvk a.object in
      let out = ensure_source_finalizer o in
      let (same, live) = finalized o in
      arrive out validating w (record w { store = add_operator_source o w.store })
        (request_advances H a.object out for_initial validating w _ a.held
          (rw (guard o initial a.here) refl) (chosen o for_initial initial a.live a.here refl)
          (rw (guard o initial a.here) refl) (differs o initial validating a.here refl))
        (live ∙ a.live) (same ∙ a.same_uid) a.same_spec
        (added-IsKnown o w.store a.same_uid a.same_spec)

  module _ (public : IsPublic E spec) where
    pub from_validating :
        (w : World E)
        → IsAt validating w
        → IsKnown w.store
        → IsStep downloading w (reconcile_request E request w)
    unfolding ensure_source_gvk reconcile validating_reconcile
    from_validating w a k =
        let o = ensure_source_gvk a.object in
        arrive o downloading w w
          (request_advances H a.object o for_validating downloading w _ a.held
            (known_passes o w a.same_uid a.same_spec k)
            (chosen o for_validating validating a.live a.here refl)
            (rw (guard o validating a.here, a.same_spec, public.request_uri) refl)
            (differs o validating downloading a.here refl))
          a.live a.same_uid a.same_spec k
