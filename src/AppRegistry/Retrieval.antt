-- ===== src/AppRegistry/Retrieval.antt =====
-- What RetrieveOne of pkg/appregistry/client.go returns: the manifest that the registry serves.
pub mod Lists
use mathlib.Core.Path.{subst}
use operator_marketplace.Common.{String, ◌≡◌, refl, ap, ◌∙◌, sym, [], ◌↔◌}
use operator_marketplace.Common.Errors.{Result, ok, err}
use operator_marketplace.Cluster.{Environment, Options, Package}
use operator_marketplace.Datastore.Metadata.{OperatorMetadata}
use operator_marketplace.AppRegistry.{
  split_name, get_package_metadata, download_operator_manifest, decoded, pulled, shown,
  retrieve_one,
}
use operator_marketplace.AppRegistry.Decoder.{decode}

module _ (E : Environment) (client : Options) where
  -- With these calls the manifest is fetched: the registry shows the digest of the package's default
  -- release, and sends a blob for it, which decodes to the text.
  pub record IsManifest (p : Package) (before : E.State) (m : OperatorMetadata) (after : E.State)
      : Type 0 where
    pub named :
        split_name p.name ≡ ok (m.registry_metadata.namespace, m.registry_metadata.repository)
    pub release : m.registry_metadata.release ≡ p.default
    pub between : E.State
    pub blob : String
    pub shows :
        E.show_package client m.registry_metadata.namespace m.registry_metadata.repository p.default
          "helm" before
        ≡ (ok m.registry_metadata.digest, between)
    pub pulls :
        E.pull_blob client m.registry_metadata.namespace m.registry_metadata.repository
          m.registry_metadata.digest between
        ≡ (ok blob, after)
    pub decodes : decode E.open_blob blob ≡ ok m.raw_yaml

  abbrev metadata_with : String → String → String → String → String → OperatorMetadata
  metadata_with n r release digest text = record {
    registry_metadata = record {
      namespace = n;
      repository = r;
      release = release;
      digest = digest;
    };
    raw_yaml = text;
  }

  decoded_ok :
      (n r release digest blob : String) (m : OperatorMetadata) (raw : Result String)
      → decode E.open_blob blob ≡ raw
      → decoded E n r release digest (ok blob) ≡ ok m
      → (text : String) × (decode E.open_blob blob ≡ ok text)
        × (metadata_with n r release digest text ≡ m)
  decoded_ok n r release digest blob m (err e) d h = cc (rw (d, decoded) at h)
  decoded_ok n r release digest blob m (ok text) d h = (text, d, cc (rw (d, decoded) at h))

  pulled_ok :
      (p : Package) (n r digest : String) (before between s after : E.State) (m : OperatorMetadata)
      (blob : Result String)
      → split_name p.name ≡ ok (n, r)
      → E.show_package client n r p.default "helm" before ≡ (ok digest, between)
      → E.pull_blob client n r digest between ≡ (blob, s)
      → decoded E n r p.default digest blob ≡ ok m
      → s ≡ after
      → IsManifest p before m after
  pulled_ok p n r digest before between s after m (err e) name shows pulls h same = cc
  pulled_ok p n r digest before between s after m (ok blob) name shows pulls h same =
      let (text, decodes, built) =
        decoded_ok n r p.default digest blob m (decode E.open_blob blob) refl h in
      subst (λ x. IsManifest p before x after) built
        (record {
          named = name;
          release = refl;
          between = between;
          blob = blob;
          shows = shows;
          pulls = pulls ∙ ap (λ x. (ok blob, x)) same;
          decodes = decodes;
        })

  shown_ok :
      (p : Package) (n r : String) (before between after : E.State) (m : OperatorMetadata)
      (digest : Result String)
      → split_name p.name ≡ ok (n, r)
      → E.show_package client n r p.default "helm" before ≡ (digest, between)
      → pulled E client n r p.default digest between ≡ (ok m, after)
      → IsManifest p before m after
  unfolding download_operator_manifest
  shown_ok p n r before between after m (err e) name shows h = cc
  shown_ok p n r before between after m (ok digest) name shows h =
      let (blob, s) = E.pull_blob client n r digest between in
      pulled_ok p n r digest before between s after m blob name shows refl (ap (λ x. x.0) h)
        (ap (λ x. x.1) h)

  named_ok :
      (p : Package) (before : E.State) (m : OperatorMetadata) (after : E.State)
      (name : Result (String × String))
      → split_name p.name ≡ name
      → shown E client p.default name before ≡ (ok m, after)
      → IsManifest p before m after
  unfolding get_package_metadata
  named_ok p before m after (err e) name h = cc
  named_ok p before m after (ok (n, r)) name h =
      let (digest, between) = E.show_package client n r p.default "helm" before in
      shown_ok p n r before between after m digest name refl h

  pub retrieve_one_iff :
      (p : Package) (before : E.State) (m : OperatorMetadata) (after : E.State)
      → (retrieve_one E client p.name p.default before ≡ (ok m, after))
        ↔ IsManifest p before m after
  unfolding retrieve_one get_package_metadata download_operator_manifest
  retrieve_one_iff p before m after = (
    named_ok p before m after (split_name p.name) refl,
    λ f.
        rw (f.named, f.shows, f.pulls)
          (rw (f.decodes, decoded)
            (ap
              (λ r. (
                ok (
                    metadata_with m.registry_metadata.namespace m.registry_metadata.repository r
                      m.registry_metadata.digest m.raw_yaml),
                after,
              ))
              (sym f.release))),
  )
