-- ===== src/Sources/Progress/Arrival.antt =====
-- A new operator source reaches Succeeded.
use operator_marketplace.Common.{String, ◌≡◌, refl, sym, ap, ◌∙◌, true, none, some, List, [], ◌∷◌}
use operator_marketplace.Common.Errors.{Result, ok}
use operator_marketplace.Datastore.{Datastore, write}
use operator_marketplace.Datastore.Metadata.{RegistryMetadata}
use operator_marketplace.AppRegistry.{metadata_of}
use operator_marketplace.Api.Meta.{NamespacedName, is_zero}
use operator_marketplace.Api.OperatorSource.{
  OperatorSource, OperatorSourceSpec, current_phase_name, ensure_source_gvk,
}
use operator_marketplace.Phase.{initial, downloading, configuring, succeeded}
use operator_marketplace.Cluster.{Environment}
use operator_marketplace.Sources.World.{World}
use operator_marketplace.Sources.Handler.{Outcome, returned, reconcile_request}
use operator_marketplace.Sources.Progress.{IsHealthy}
use operator_marketplace.Sources.Progress.Phases.{
  IsPublic, IsAt, IsKnown, from_initial, from_validating,
}
use operator_marketplace.Sources.Progress.Phases.Downloads.{
  listed, downloading_advances, from_downloading,
}
use operator_marketplace.Sources.Progress.Phases.Creates.{configuring_advances, from_configuring}

module _ (E : Environment) (request : NamespacedName) where
  -- Four calls in a row, with their outcomes.
  abbrev pub four_requests : World E → List Outcome × World E
  four_requests w =
      let (a, w₁) = reconcile_request E request w in
      let (b, w₂) = reconcile_request E request w₁ in
      let (c, w₃) = reconcile_request E request w₂ in
      let (d, w₄) = reconcile_request E request w₃ in (a ∷ b ∷ c ∷ d ∷ [], w₄)

  -- In a healthy cluster, a source that is in Initial, is not being deleted, has a URL as endpoint
  -- and names no secret is in Succeeded after four calls of the controller's Reconcile, none of
  -- which returns an error; its UID and spec are as before, and the datastore has its row.
  pub reaches_succeeded :
      (H : IsHealthy E request) (w : World E) (o : OperatorSource)
      → H.held w.cluster ≡ some o
      → current_phase_name o ≡ initial
      → is_zero o.meta.deletion_timestamp ≡ true
      → IsPublic E o.spec
      → ((four_requests w).0 ≡ returned none ∷ returned none ∷ returned none ∷ returned none ∷ [])
        × IsAt H o.meta.uid o.spec succeeded (four_requests w).1
        × IsKnown H o.meta.uid o.spec (four_requests w).1.store
  reaches_succeeded H w o held phase live public =
      let a = from_initial H o.meta.uid o.spec w (record {
        object = o;
        held = held;
        here = phase;
        live = live;
        same_uid = refl;
        same_spec = refl;
      }) in
      let b = from_validating H o.meta.uid o.spec public _ a.at a.known in
      let c = from_downloading H o.meta.uid o.spec public _ b.at b.known in
      let d = from_configuring H o.meta.uid o.spec public _ c.at c.known in
      (all_none a.outcome b.outcome c.outcome d.outcome, d.at, d.known)
    where
      all_none :
          {p q r s : Outcome}
          → p ≡ returned none
          → q ≡ returned none
          → r ≡ returned none
          → s ≡ returned none
          → ◌≡◌ {A = List Outcome}
              (p ∷ q ∷ r ∷ s ∷ [])
              (returned none ∷ returned none ∷ returned none ∷ returned none ∷ [])
      all_none e f g h = cc

module _ {E : Environment} {request : NamespacedName} (H : IsHealthy E request)
    (ms : List RegistryMetadata) (listing : metadata_of (H.first ∷ H.others) ≡ ok ms) where
  -- The store is one that Write has just filled with the listing, for an object of the UID.
  abbrev pub IsWritten : String → Datastore → Type 0
  IsWritten uid ds =
      (writer : OperatorSource) × (before : Datastore) × (writer.meta.uid ≡ uid)
      × (ds ≡ (write (some writer) (some ms) before).1)

  module _ (uid : String) (spec : OperatorSourceSpec) (public : IsPublic E spec) where
    downloads-IsWritten :
        (w : World E)
        → IsAt H uid spec downloading w
        → IsKnown H uid spec w.store
        → IsWritten uid (reconcile_request E request w).1.store
    unfolding ensure_source_gvk
    downloads-IsWritten w a k =
        let o = ensure_source_gvk a.object in
        let (m, rest, e, same) = listed H uid spec public o w in
        (
          o,
          w.store,
          a.same_uid,
          ap (λ r. r.1.store) (downloading_advances H uid spec public w a m rest k e)
              ∙ ap (λ l. (write (some o) (some l) w.store).1) (one m rest (sym same ∙ listing)),
        )
      where
        one :
            (m : RegistryMetadata) (rest : List RegistryMetadata)
            → ◌≡◌ {A = Result (List RegistryMetadata)} (ok (m ∷ rest)) (ok ms)
            → m ∷ rest ≡ ms
        one m rest e = cc

    creates-store :
        (w : World E)
        → IsAt H uid spec configuring w
        → IsKnown H uid spec w.store
        → (reconcile_request E request w).1.store ≡ w.store
    creates-store w a k = ap (λ r. r.1.store) (configuring_advances H uid spec public w a k)

  pub four_requests-IsWritten :
      (w : World E) (o : OperatorSource)
      → H.held w.cluster ≡ some o
      → current_phase_name o ≡ initial
      → is_zero o.meta.deletion_timestamp ≡ true
      → IsPublic E o.spec
      → IsWritten o.meta.uid (four_requests E request w).1.store
  four_requests-IsWritten w o held phase live public =
      let a = from_initial H o.meta.uid o.spec w (record {
        object = o;
        held = held;
        here = phase;
        live = live;
        same_uid = refl;
        same_spec = refl;
      }) in
      let b = from_validating H o.meta.uid o.spec public _ a.at a.known in
      let c = from_downloading H o.meta.uid o.spec public _ b.at b.known in
      let (writer, ds, same, e) = downloads-IsWritten o.meta.uid o.spec public _ b.at b.known in
      (writer, ds, same, creates-store o.meta.uid o.spec public _ c.at c.known ∙ e)
