-- ===== src/AppRegistry.antt =====
-- pkg/appregistry: the client of an app registry server. `New` of appregistry.go fails only if
-- the source is no URL; the transport and the go-appr client behind it are the environment's.
pub mod Decoder
pub mod Names
pub mod Retrieval
use operator_marketplace.Common.{String, Option, none, some, List, [], ◌∷◌, ◌==◌, if◌then◌else◌}
use operator_marketplace.Common.Text.{split}
use operator_marketplace.Common.Errors.{Result, ok, err, new_error}
use operator_marketplace.Common.Effects.{Eff, ◌>>=◌, pure}
use operator_marketplace.Cluster.{Environment, Options, Package}
use operator_marketplace.Datastore.Metadata.{RegistryMetadata, OperatorMetadata}
use operator_marketplace.AppRegistry.Decoder.{decode}

abbrev pub two_parts : List String → Result (String × String)
two_parts (namespace ∷ repository ∷ []) = ok (namespace, repository)
two_parts _ =
    err (new_error "package name should be specified in this format {namespace}/{repository}")

-- `split` of client.go: a package name is {namespace}/{repository}.
unfoldable pub split_name : String → Result (String × String)
unfolding split
split_name name = two_parts (split "/" name)

abbrev media_type : String
media_type = "helm"

-- The namespace parameter is set only if it is not empty.
abbrev pub namespace_param : String → Option String
namespace_param namespace = if namespace == "" then none else some namespace

abbrev pub of_package : Package → String × String → RegistryMetadata
of_package pkg (namespace, repository) = record {
  namespace = namespace;
  repository = repository;
  release = pkg.default;
  digest = "";
}

-- A package of a good name stands before those that follow.
abbrev pub with_following :
    Package
    → Result (String × String)
    → Result (List RegistryMetadata)
    → Result (List RegistryMetadata)
with_following pkg (err e) following = err e
with_following pkg (ok parts) (err e) = err e
with_following pkg (ok parts) (ok list) = ok (of_package pkg parts ∷ list)

-- The loop of `ListPackages`: the first package with a bad name ends it.
unfoldable pub metadata_of : List Package → Result (List RegistryMetadata)
metadata_of [] = ok []
metadata_of (pkg ∷ rest) = with_following pkg (split_name pkg.name) (metadata_of rest)

module _ (E : Environment) where
  -- factory.New
  unfoldable pub new_client : Options → Result Options
  new_client options = elim (E.parse_url options.source) [ none ↦ ok options | some e ↦ err e ]

  abbrev listed : Result (List Package) → Result (List RegistryMetadata)
  listed (err e) = err e
  listed (ok packages) = metadata_of packages

  unfoldable pub list_packages : Options → String → Eff E.State (Result (List RegistryMetadata))
  unfolding metadata_of
  list_packages client namespace = do
    packages ← E.list_packages client (namespace_param namespace)
    pure (listed packages)

  -- GetPackageMetadata and DownloadOperatorManifest of adapter.go; of a package's metadata, only the
  -- digest of its content is read.
  unfoldable pub get_package_metadata :
      Options → String → String → String → Eff E.State (Result String)
  get_package_metadata client namespace repository release =
      E.show_package client namespace repository release media_type

  unfoldable pub download_operator_manifest :
      Options → String → String → String → Eff E.State (Result String)
  download_operator_manifest client namespace repository digest =
      E.pull_blob client namespace repository digest

  abbrev decoded : String → String → String → String → Result String → Result OperatorMetadata
  decoded namespace repository release digest (err e) = err e
  decoded namespace repository release digest (ok blob) = elim (decode E.open_blob blob) [
    | err e ↦ err e
    | ok raw ↦ ok (record {
      registry_metadata = record {
        namespace = namespace;
        repository = repository;
        release = release;
        digest = digest;
      };
      raw_yaml = raw;
    })
  ]

  abbrev pulled :
      Options → String → String → String → Result String → Eff E.State (Result OperatorMetadata)
  pulled client namespace repository release (err e) = pure (err e)
  pulled client namespace repository release (ok digest) = do
    blob ← download_operator_manifest client namespace repository digest
    pure (decoded namespace repository release digest blob)

  abbrev shown : Options → String → Result (String × String) → Eff E.State (Result OperatorMetadata)
  shown client release (err e) = pure (err e)
  shown client release (ok (namespace, repository)) = do
    digest ← get_package_metadata client namespace repository release
    pulled client namespace repository release digest

  unfoldable pub retrieve_one : Options → String → String → Eff E.State (Result OperatorMetadata)
  retrieve_one client name release = shown client release (split_name name)

  abbrev prepend :
      OperatorMetadata → Result (List OperatorMetadata) → Result (List OperatorMetadata)
  prepend m (err e) = err e
  prepend m (ok ms) = ok (m ∷ ms)

  -- The loop of `RetrieveAll`: the first error ends it.
  unfoldable pub retrieve_each :
      Options → List Package → Eff E.State (Result (List OperatorMetadata))
  retrieve_each client [] = pure (ok [])
  retrieve_each client (pkg ∷ rest) =
      let following = retrieve_each client rest in
      do
        m ← retrieve_one client pkg.name pkg.default
        elim m [
          | err e ↦ pure (err e)
          | ok manifest ↦ do list ← following; pure (prepend manifest list)
        ]

  abbrev retrieved : Options → Result (List Package) → Eff E.State (Result (List OperatorMetadata))
  retrieved client (err e) = pure (err e)
  retrieved client (ok packages) = retrieve_each client packages

  unfoldable pub retrieve_all : Options → String → Eff E.State (Result (List OperatorMetadata))
  unfolding retrieve_each retrieve_one
  retrieve_all client namespace = do
    packages ← E.list_packages client (namespace_param namespace)
    retrieved client packages
