-- ===== src/Sources/Progress/Phases/Downloads.antt =====
-- One call of the controller's Reconcile in Downloading moves a healthy operator source on, and fills
-- its row of the datastore.
use operator_marketplace.Common.{String, ◌≡◌, refl, ap, ◌∙◌, none, List, [], ◌∷◌, ◌==◌}
use operator_marketplace.Common.Errors.{ok}
use operator_marketplace.Api.Meta.{NamespacedName}
use operator_marketplace.Api.OperatorSource.{OperatorSource, OperatorSourceSpec, ensure_source_gvk}
use operator_marketplace.Phase.{downloading, configuring}
use operator_marketplace.Datastore.{
  Datastore, write, get_package_ids_by_operator_source, repositories_of,
}
use operator_marketplace.Datastore.Metadata.{RegistryMetadata}
use operator_marketplace.Datastore.Rows.{add_row}
use operator_marketplace.AppRegistry.{metadata_of}
use operator_marketplace.AppRegistry.Names.{metadata_of_total, Describes, list_packages_lem}
use operator_marketplace.Cluster.{Environment}
use operator_marketplace.Sources.World.{World}
use operator_marketplace.Sources.Handler.{for_downloading, returned, reconcile, reconcile_request}
use operator_marketplace.Sources.Reconcilers.Success.{open_options, listing, written, download_lem}
use operator_marketplace.Sources.Progress.{IsHealthy, advanced, request_advances}
use operator_marketplace.Sources.Progress.Phases.{
  IsPublic, IsAt, IsKnown, IsStep, known_passes, arrive, chosen, guard, row-IsKnown, differs,
}

module _ {E : Environment} {request : NamespacedName} (H : IsHealthy E request) (uid : String)
    (spec : OperatorSourceSpec) (public : IsPublic E spec) where
  -- The listing of a healthy registry has a first entry.
  pub listed :
      (o : OperatorSource) (w : World E)
      → (m : RegistryMetadata) × (ms : List RegistryMetadata) × ((listing E o w).0 ≡ ok (m ∷ ms))
        × (metadata_of (H.first ∷ H.others) ≡ ok (m ∷ ms))
  listed o w = let (ms, e, d) = metadata_of_total (H.first ∷ H.others) H.formatted in go ms e d
    where
      go :
          (ms : List RegistryMetadata)
          → metadata_of (H.first ∷ H.others) ≡ ok ms
          → Describes ms (H.first ∷ H.others)
          → (m : RegistryMetadata) × (rest : List RegistryMetadata) × ((listing E o w).0
              ≡ ok (m ∷ rest))
            × (metadata_of (H.first ∷ H.others) ≡ ok (m ∷ rest))
      go [] e d = absurd d
      go (m ∷ rest) e d = (
        m,
        rest,
        list_packages_lem E (open_options o) o.spec.registry_namespace w.cluster
            (H.first ∷ H.others) (m ∷ rest) (λ p. H.list_ok (open_options o) p w.cluster) e,
        e,
      )

  -- The object after its download, in its old phase.
  abbrev pub downloaded : OperatorSource → Datastore → OperatorSource
  downloaded o ds = record o {
    status = record (o.status) { packages = get_package_ids_by_operator_source o.meta.uid ds };
  }

  pub downloading_advances :
      (w : World E) (a : IsAt H uid spec downloading w) (m : RegistryMetadata)
      (ms : List RegistryMetadata)
      → IsKnown H uid spec w.store
      → let o = ensure_source_gvk a.object in
        (listing E o w).0 ≡ ok (m ∷ ms)
        → reconcile_request E request w ≡ (
          returned none,
          advanced H
              (written E o w (m ∷ ms))
              (downloaded o (written E o w (m ∷ ms)).store)
              configuring,
        )
  unfolding ensure_source_gvk reconcile
  downloading_advances w a m ms k e =
      let o = ensure_source_gvk a.object in
      let w' = written E o w (m ∷ ms) in
      request_advances H a.object (downloaded o w'.store) for_downloading configuring w w' a.held
        (known_passes H uid spec o w a.same_uid a.same_spec k)
        (chosen H uid spec o for_downloading downloading a.live a.here refl)
        (download_lem E o w m ms (guard H uid spec o downloading a.here)
          (ap (λ s. s.secret_name == "") a.same_spec ∙ public.no_secret)
          (ap (λ s. E.parse_url s.endpoint) a.same_spec ∙ public.url) e)
        (differs H uid spec o downloading configuring a.here refl)

  pub from_downloading :
      (w : World E)
      → IsAt H uid spec downloading w
      → IsKnown H uid spec w.store
      → IsStep H uid spec configuring w (reconcile_request E request w)
  unfolding ensure_source_gvk write add_row
  from_downloading w a k =
      let o = ensure_source_gvk a.object in
      let (m, ms, e, d) = listed o w in
      let w' = written E o w (m ∷ ms) in
      arrive H uid spec (downloaded o w'.store) configuring w w' (downloading_advances w a m ms k e)
        a.live a.same_uid a.same_spec
        (row-IsKnown H uid spec o (repositories_of o (m ∷ ms) []) w.store a.same_uid a.same_spec)
