-- ===== src/Tests/Stores.antt =====
-- The theorems on the API types, the registry's names, the phases and the datastore, on samples.
use operator_marketplace.Datastore.Differences.{has_new_release, gone, has_update_lists}
use operator_marketplace.Datastore.Counted.{write_count}
use operator_marketplace.Common.{
  ◌≤◌, length, ◌⊎◌, String, inr, ◌↔◌, ◌<>◌, ◌≡◌, refl, not, false, List, none, some, [], ◌∷◌, ◌&&◌,
  contains, is_empty,
}
use operator_marketplace.Common.Errors.{ok}
use operator_marketplace.Common.Maps.{lookup, insert}
use operator_marketplace.AppRegistry.{split_name, metadata_of}
use operator_marketplace.AppRegistry.Names.{Describes, split_name_iff, metadata_of_iff}
use operator_marketplace.Common.Text.{IsFree}
use operator_marketplace.Cluster.{Package}
use operator_marketplace.Datastore.{
  Datastore, write, read, get_operator_source, new_datastore, repositories_of, new_repository,
}
use operator_marketplace.Datastore.Rows.{get_row, new_row, add_row}
use operator_marketplace.Datastore.Metadata.{
  RegistryMetadata, OpsrcRef, OperatorSourceRow, get_packages,
}
use operator_marketplace.Api.OperatorSource.{OperatorSource}
use operator_marketplace.Datastore.Update.{UpdateResult}
use operator_marketplace.Datastore.HasUpdate.{operator_source_has_update}
use operator_marketplace.Datastore.Invariant.{
  IsValid, Call, call, calls, calls-IsValid, writes, removes, adds, source_ref,
}
use operator_marketplace.Datastore.Reading.{is_ok}
use operator_marketplace.Datastore.Serving.{Serves, NoneServes, read-Serves}
use operator_marketplace.Datastore.Written.{read-write}
use operator_marketplace.Datastore.Unordered.{after, contents, calls_apart}
use operator_marketplace.Datastore.Verdict.{all_current, all_listed, has_update_verdict}
use operator_marketplace.Datastore.Synced.{UniqueNames, write-no_update}
use operator_marketplace.Tests.Samples.{in_phase, metadata, manifests, stored}

calls-IsValid_example : IsValid (
    calls
      (adds (in_phase "" none)
        ∷ writes (some (in_phase "" none)) (some manifests)
        ∷ removes "u2"
        ∷ [])
      new_datastore)
calls-IsValid_example = calls-IsValid (
    adds (in_phase "" none) ∷ writes (some (in_phase "" none)) (some manifests) ∷ removes "u2" ∷ [])

read-Serves_example :
    ((ref : OpsrcRef) × (read "etcd" stored ≡ ok ref) × Serves "etcd" ref stored.rows)
    ⊎ ((is_ok (read "etcd" stored) ≡ false) × NoneServes "etcd" stored.rows)
read-Serves_example =
    read-Serves "etcd" stored
      (calls-IsValid (writes (some (in_phase "" none)) (some manifests) ∷ []))

-- A second source, with another package.
abbrev other_source : OperatorSource
other_source = record (in_phase "" none) {
  meta = record ((in_phase "" none).meta) { name = "certified"; uid = "u2" };
}

abbrev other_stored : Datastore
other_stored = (write (some other_source) (some (metadata "mongodb" "2.0.0" ∷ [])) new_datastore).1

read-write_example :
    read "etcd" (write (some (in_phase "" none)) (some manifests) other_stored).1
    ≡ ok (source_ref (in_phase "" none))
unfolding new_datastore write contains get_packages new_row repositories_of new_repository insert
    add_row
read-write_example =
    read-write "etcd" (in_phase "" none) manifests other_stored (tt, tt) (inr refl, tt) refl

-- The packages of two operator sources, which are written in either order.
abbrev etcd_call : Call
etcd_call = writes (some (in_phase "" none)) (some manifests)

abbrev mongodb_call : Call
mongodb_call = writes (some other_source) (some (metadata "mongodb" "2.0.0" ∷ []))

new_datastore-IsValid : IsValid new_datastore
unfolding new_datastore
new_datastore-IsValid = calls-IsValid []

calls_apart_example :
    (after etcd_call (after mongodb_call (contents new_datastore new_datastore-IsValid))
      ≡ after mongodb_call (after etcd_call (contents new_datastore new_datastore-IsValid)))
    × ((uid : String)
        → get_operator_source uid (call etcd_call (call mongodb_call new_datastore))
          ≡ get_operator_source uid (call mongodb_call (call etcd_call new_datastore)))
    × ((pkg : String)
        → is_ok (read pkg (call etcd_call (call mongodb_call new_datastore)))
          ≡ is_ok (read pkg (call mongodb_call (call etcd_call new_datastore))))
calls_apart_example = calls_apart etcd_call mongodb_call new_datastore new_datastore-IsValid refl

-- etcd has a new release and prometheus is gone: there is an update, and a package is removed.
has_update_verdict_example :
    (r : UpdateResult) × (operator_source_has_update "u1" (metadata "etcd" "0.9.4" ∷ []) stored
      ≡ (some r, none))
    × (r.registry_has_update
        ≡ not (
            all_current
              (new_row (in_phase "" none) (repositories_of (in_phase "" none) manifests []))
              (metadata "etcd" "0.9.4" ∷ [])
            && all_listed
                (metadata "etcd" "0.9.4" ∷ [])
                (repositories_of (in_phase "" none) manifests [])))
    × (is_empty r.removed
        ≡ all_listed
            (metadata "etcd" "0.9.4" ∷ [])
            (repositories_of (in_phase "" none) manifests []))
unfolding new_datastore write get_row lookup new_row insert add_row
has_update_verdict_example =
    has_update_verdict (metadata "etcd" "0.9.4" ∷ []) "u1" stored
      (new_row (in_phase "" none) (repositories_of (in_phase "" none) manifests [])) refl (refl, tt)

-- Only etcd has a new release, and prometheus is listed as updated.
abbrev new_etcd : List RegistryMetadata
new_etcd = metadata "etcd" "0.9.4" ∷ metadata "prometheus" "1.0.0" ∷ []

abbrev stored_row : OperatorSourceRow
stored_row = new_row (in_phase "" none) (repositories_of (in_phase "" none) manifests [])

has_update_lists_example :
    (r : UpdateResult) × (operator_source_has_update "u1" new_etcd stored ≡ (some r, none))
    × (contains "prometheus" r.updated
        ≡ (has_new_release stored_row new_etcd && contains "prometheus" (get_packages stored_row)))
    × (contains "prometheus" r.removed
        ≡ contains "prometheus" (gone new_etcd (repositories_of (in_phase "" none) manifests [])))
unfolding new_datastore write get_row lookup new_row insert add_row
has_update_lists_example =
    has_update_lists new_etcd "u1" stored stored_row "prometheus" refl (refl, (refl, tt))

write-no_update_example :
    (r : UpdateResult) × (operator_source_has_update "u1" manifests stored ≡ (some r, none))
    × (r.registry_has_update ≡ false)
unfolding contains
write-no_update_example =
    write-no_update (in_phase "" none) manifests new_datastore (refl, (refl, tt)) (refl, (refl, tt))

split_name_iff_example : (split_name "community/etcd" ≡ ok ("community", "etcd")) ↔ (
    ("community/etcd" ≡ "community" <> "/" <> "etcd") × IsFree "/" "community" × IsFree "/" "etcd")
split_name_iff_example = split_name_iff "community/etcd" "community" "etcd"

abbrev packages : List Package
packages =
    record { name = "community/etcd"; default = "0.9.2" }
    ∷ record { name = "community/prometheus"; default = "1.0.0" }
    ∷ []

metadata_of_iff_example : (metadata_of packages ≡ ok manifests) ↔ Describes manifests packages
metadata_of_iff_example = metadata_of_iff packages manifests

write_count_example :
    let ((count, error), ds') = write (some (in_phase "" none)) (some manifests) new_datastore in
    (row : OperatorSourceRow) × (get_row "u1" ds'.rows ≡ some row)
    × (length (get_packages row) ≤ count)
    × ((length (get_packages row) ≡ count) ↔ UniqueNames manifests)
write_count_example = write_count (in_phase "" none) manifests new_datastore
