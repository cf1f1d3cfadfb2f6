-- ===== src/Datastore/HasUpdate.antt =====
-- OperatorSourceHasUpdate of pkg/datastore/datastore.go: the comparison of the stored
-- repositories of an operator source with what its remote registry lists.
use operator_marketplace.Common.{
  String, ◌<>◌, true, Option, none, some, List, [], ◌∷◌, ◌++◌, ◌==◌, ◌||◌, not, if◌then◌else◌,
  is_some, is_empty,
}
use operator_marketplace.Common.Maps.{Map, insert, lookup}
use operator_marketplace.Common.Errors.{Error, new_error}
use operator_marketplace.Datastore.{Datastore}
use operator_marketplace.Datastore.Metadata.{
  RegistryMetadata, Repository, OperatorSourceRow, metadata_id, get_packages,
}
use operator_marketplace.Datastore.Rows.{get_row}
use operator_marketplace.Datastore.Update.{UpdateResult, new_update_result}

-- The body of the first loop after the release test: a repository that is new, or known.
unfoldable pub note_remote :
    OperatorSourceRow → RegistryMetadata → Option Repository → UpdateResult → UpdateResult
note_remote row remote none result = record result { registry_has_update = true }
note_remote row remote (some local) result =
    if local.metadata.release == remote.release
    then result
    else record result { updated = result.updated ++ get_packages row }

-- The first loop; it returns at a remote with no release, with the result so far.
unfoldable pub scan_remotes :
    OperatorSourceRow → List RegistryMetadata → UpdateResult → UpdateResult × Option Error
unfolding note_remote
scan_remotes row [] result = (result, none)
scan_remotes row (remote ∷ rest) result =
    let next =
      scan_remotes row rest
        (note_remote row remote (lookup remote.repository row.repositories) result) in
    if remote.release == ""
    then (
      result,
      some (new_error ("Release not specified for repository [" <> metadata_id remote <> "]")),
    )
    else next

unfoldable pub remote_map : List RegistryMetadata → Map RegistryMetadata → Map RegistryMetadata
remote_map [] m = m
remote_map (remote ∷ rest) m = remote_map rest (insert remote.repository remote m)

-- The loop over the local repositories.
unfoldable pub scan_locals : Map RegistryMetadata → Map Repository → UpdateResult → UpdateResult
scan_locals remotes [] result = result
scan_locals remotes ((name, local) ∷ rest) result = scan_locals remotes rest (
    if is_some (lookup name remotes)
    then result
    else record result { removed = result.removed ++ (local.package_name ∷ []) })

unfoldable pub conclude : UpdateResult → UpdateResult
conclude result =
    if not (is_empty result.removed) || not (is_empty result.updated)
    then record result { registry_has_update = true }
    else result

-- After the first loop: its error ends the function, with the result so far.
unfoldable pub finish_update :
    OperatorSourceRow
    → List RegistryMetadata
    → UpdateResult × Option Error
    → Option UpdateResult × Option Error
unfolding remote_map scan_locals conclude
finish_update row metadata (result, some e) = (some result, some e)
finish_update row metadata (result, none) =
    (some (conclude (scan_locals (remote_map metadata []) row.repositories result)), none)

-- Both the result (nil at first) and the error come back.
unfoldable pub operator_source_has_update :
    String → List RegistryMetadata → Datastore → Option UpdateResult × Option Error
unfolding scan_remotes finish_update new_update_result
operator_source_has_update uid metadata ds = elim (get_row uid ds.rows) [
  | none ↦ (
    none,
    some (new_error ("datastore has no record of the specified OperatorSource [" <> uid <> "]")),
  )
  | some row ↦ finish_update row metadata (scan_remotes row metadata new_update_result)
]
