-- ===== src/AppRegistry/Retrieval/Lists.antt =====
-- What RetrieveAll of pkg/appregistry/client.go returns: the manifests that the registry serves.
use mathlib.Core.Path.{subst}
use operator_marketplace.Common.{String, ◌≡◌, refl, ap, ◌∙◌, List, [], ◌∷◌, ◌↔◌}
use operator_marketplace.Common.Errors.{Result, ok, err}
use operator_marketplace.Common.Effects.{◌>>=◌, pure}
use operator_marketplace.Cluster.{Environment, Options, Package}
use operator_marketplace.Datastore.Metadata.{OperatorMetadata}
use operator_marketplace.AppRegistry.{
  namespace_param, retrieve_one, prepend, retrieve_each, retrieved, retrieve_all,
}
use operator_marketplace.AppRegistry.Retrieval.{IsManifest, retrieve_one_iff}

module _ (E : Environment) (client : Options) where
  -- One after the other, the calls fetch the manifests of the packages, in their order.
  abbrev pub AreManifests : List Package → E.State → List OperatorMetadata → E.State → Type 0
  AreManifests [] before [] after = before ≡ after
  AreManifests (p ∷ ps) before (m ∷ ms) after =
      (between : E.State) × IsManifest E client p before m between
      × AreManifests ps between ms after
  AreManifests _ before _ after = ⊥

  prepended :
      (p : Package) (ps : List Package) (before between s after : E.State) (m : OperatorMetadata)
      (ms : List OperatorMetadata) (following : Result (List OperatorMetadata))
      → IsManifest E client p before m between
      → ((rest : List OperatorMetadata)
          → ◌≡◌ {A = Result (List OperatorMetadata) × E.State} (following, s) (ok rest, after)
          → AreManifests ps between rest after)
      → prepend E m following ≡ ok ms
      → s ≡ after
      → AreManifests (p ∷ ps) before ms after
  prepended p ps before between s after m ms (err e) one rest h same = cc
  prepended p ps before between s after m [] (ok list) one rest h same = cc
  prepended p ps before between s after m (m' ∷ ms) (ok list) one rest h same = (
    between,
    subst (λ x. IsManifest E client p before x between) (cc) one,
    subst (λ l. AreManifests ps between l after) (cc) (rest list (ap (λ x. (ok list, x)) same)),
  )

  -- The loop after one package.
  abbrev continue_with :
      List Package → Result OperatorMetadata → E.State → Result (List OperatorMetadata) × E.State
  continue_with ps first s =
      ◌>>=◌ (pure first)
        (λ m. elim m [
          | err e ↦ pure (err e)
          | ok found ↦ do list ← retrieve_each E client ps; pure (prepend E found list)
        ])
        s

  continued :
      (p : Package) (ps : List Package) (before between after : E.State)
      (ms : List OperatorMetadata) (first : Result OperatorMetadata)
      → retrieve_one E client p.name p.default before ≡ (first, between)
      → ((rest : List OperatorMetadata)
          → retrieve_each E client ps between ≡ (ok rest, after)
          → AreManifests ps between rest after)
      → continue_with ps first between ≡ (ok ms, after)
      → AreManifests (p ∷ ps) before ms after
  continued p ps before between after ms (err e) one rest h = cc
  continued p ps before between after ms (ok m) one rest h =
      let (following, s) = retrieve_each E client ps between in
      prepended p ps before between s after m ms following
        ((retrieve_one_iff E client p before m between).0 one) rest (ap (λ x. x.0) h)
        (ap (λ x. x.1) h)

  manifests_of :
      (ps : List Package) (before : E.State) (ms : List OperatorMetadata) (after : E.State)
      → retrieve_each E client ps before ≡ (ok ms, after)
      → AreManifests ps before ms after
  unfolding retrieve_each
  manifests_of [] before [] after h = ap (λ x. x.1) h
  manifests_of [] before (m ∷ ms) after h = cc
  manifests_of (p ∷ ps) before ms after h =
      let (first, between) = retrieve_one E client p.name p.default before in
      continued p ps before between after ms first refl (λ rest. manifests_of ps between rest after)
        h

  retrieved_of :
      (ps : List Package) (before : E.State) (ms : List OperatorMetadata) (after : E.State)
      → AreManifests ps before ms after
      → retrieve_each E client ps before ≡ (ok ms, after)
  unfolding retrieve_each
  retrieved_of [] before [] after h = ap (λ s. (ok [], s)) h
  retrieved_of [] before (m ∷ ms) after h = absurd h
  retrieved_of (p ∷ ps) before [] after h = absurd h
  retrieved_of (p ∷ ps) before (m ∷ ms) after (between, one, rest) =
      ap (λ r. continue_with ps r.0 r.1) ((retrieve_one_iff E client p before m between).1 one)
      ∙ ap (λ r. (prepend E m r.0, r.1)) (retrieved_of ps between ms after rest)

  -- RetrieveAll succeeds with a list exactly when the registry lists packages, and the calls that
  -- follow, one after the other, fetch the list: for each package in order, its name has two parts,
  -- the registry shows a digest for the default release, and sends a blob for the digest, which
  -- decodes. The entry has the parts, the release, the digest and the decoded text.
  pub retrieve_all_iff :
      (namespace : String) (s : E.State) (ms : List OperatorMetadata) (after : E.State)
      → (retrieve_all E client namespace s ≡ (ok ms, after)) ↔ (
          (ps : List Package) × (between : E.State) × (E.list_packages client
              (namespace_param namespace)
              s
            ≡ (ok ps, between))
          × AreManifests ps between ms after)
  unfolding retrieve_all
  retrieve_all_iff namespace s ms after = (
    λ h.
        let (packages, between) = E.list_packages client (namespace_param namespace) s in
        listed packages between refl h,
    λ (ps, between, listing, fetched). rw listing (retrieved_of ps between ms after fetched),
  )
    where
      listed :
          (packages : Result (List Package)) (between : E.State)
          → E.list_packages client (namespace_param namespace) s ≡ (packages, between)
          → retrieved E client packages between ≡ (ok ms, after)
          → (ps : List Package) × (b : E.State) × (E.list_packages client
                (namespace_param namespace)
                s
              ≡ (ok ps, b))
            × AreManifests ps b ms after
      listed (err e) between e' h = cc
      listed (ok ps) between e' h = (ps, between, e', manifests_of ps between ms after h)
