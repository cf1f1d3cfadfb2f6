-- ===== src/Datastore.antt =====
-- pkg/datastore/datastore.go: memoryDatastore, the in-memory store of the packages of all
-- operator sources. Its methods over the row map of Datastore/Rows.antt.
pub mod Metadata
pub mod Rows
pub mod Update
pub mod HasUpdate
pub mod Invariant
pub mod Reading
pub mod Written
pub mod Verdict
pub mod Synced
pub mod Aggregate
pub mod Unordered
pub mod Differences
pub mod Counted
pub mod Serving
use operator_marketplace.Common.{
  ℕ, String, ◌<>◌, Bool, true, false, Option, none, some, List, [], ◌∷◌, ◌==◌, if◌then◌else◌,
  length,
}
use operator_marketplace.Common.Text.{join}
use operator_marketplace.Common.Maps.{Map, insert}
use operator_marketplace.Common.Errors.{Error, Result, ok, err, new_error}
use operator_marketplace.Api.OperatorSource.{OperatorSource}
use Metadata.{
  RegistryMetadata, OpsrcRef, Repository, OperatorSourceKey, OperatorSourceRow, get_packages,
}
use Rows.{
  RowMap, add_row, add_empty_row, remove_row, get_row, get_all_rows, get_all_repositories,
  get_all_packages,
}

pub record Datastore : Type 0 where
  pub rows : RowMap

unfoldable pub new_datastore : Datastore
new_datastore = record { rows = [] }

unfoldable pub new_repository : OperatorSource → RegistryMetadata → Repository
new_repository opsrc metadata = record {
  metadata = metadata;
  package_name = metadata.repository;
  opsrc = record { name = opsrc.meta.name; namespace = opsrc.meta.namespace };
}

-- The loop of `Write` over registryMetas; a later one replaces an earlier of the same repository.
unfoldable pub repositories_of :
    OperatorSource → List RegistryMetadata → Map Repository → Map Repository
unfolding new_repository
repositories_of opsrc [] repositories = repositories
repositories_of opsrc (metadata ∷ rest) repositories =
    repositories_of opsrc rest
      (insert metadata.repository (new_repository opsrc metadata) repositories)

-- Write: the count, the error, and the store. Either argument may be nil.
unfoldable pub write :
    Option OperatorSource
    → Option (List RegistryMetadata)
    → Datastore
    → (ℕ × Option Error) × Datastore
unfolding add_row
write none metas ds = ((0, some (new_error "invalid argument")), ds)
write (some opsrc) none ds = ((0, some (new_error "invalid argument")), ds)
write (some opsrc) (some metas) ds =
    ((length metas, none), record { rows = add_row opsrc (repositories_of opsrc metas []) ds.rows })

-- The loop of GetRepositoryByPackageName: a later match replaces an earlier one.
unfoldable pub last_with_package : String → List Repository → Option Repository → Option Repository
last_with_package pkg [] repository = repository
last_with_package pkg (repo ∷ rest) repository =
    last_with_package pkg rest (if repo.package_name == pkg then some repo else repository)

abbrev found_or : Option Repository → Error → Result Repository
found_or none e = err e
found_or (some repo) e = ok repo

abbrev search_package : String → List Repository → Result Repository
search_package pkg [] = err (new_error "Datastore is empty. No package metadata to return.")
search_package pkg (repo ∷ rest) =
    found_or (last_with_package pkg (repo ∷ rest) none)
      (new_error ("datastore has no record of the specified package [" <> pkg <> "]"))

unfoldable pub get_repository_by_package_name : String → Datastore → Result Repository
unfolding last_with_package new_error
get_repository_by_package_name pkg ds = search_package pkg (get_all_repositories ds.rows)

abbrev opsrc_result : Result Repository → Result OpsrcRef
opsrc_result (ok repository) = ok repository.opsrc
opsrc_result (err e) = err e

unfoldable pub read : String → Datastore → Result OpsrcRef
unfolding get_repository_by_package_name
read package_id ds = opsrc_result (get_repository_by_package_name package_id ds)

unfoldable pub get_package_ids : Datastore → String
get_package_ids ds = join "," (get_all_packages ds.rows)

unfoldable pub get_package_ids_by_operator_source : String → Datastore → String
get_package_ids_by_operator_source uid ds = elim (get_row uid ds.rows) [
  | none ↦ ""
  | some row ↦ join "," (get_packages row)
]

unfoldable pub add_operator_source : OperatorSource → Datastore → Datastore
unfolding add_empty_row
add_operator_source opsrc ds = record { rows = add_empty_row opsrc ds.rows }

unfoldable pub remove_operator_source : String → Datastore → Datastore
unfolding remove_row
remove_operator_source uid ds = record { rows = remove_row uid ds.rows }

unfoldable pub get_operator_source : String → Datastore → Option OperatorSourceKey
unfolding get_row
get_operator_source uid ds = elim (get_row uid ds.rows) [ none ↦ none | some row ↦ some row.key ]

unfoldable pub get_all_operator_sources : Datastore → List OperatorSourceKey
unfolding get_all_rows
get_all_operator_sources ds = get_all_rows ds.rows
