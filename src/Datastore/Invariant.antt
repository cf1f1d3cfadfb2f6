-- ===== src/Datastore/Invariant.antt =====
-- What holds of the store between two calls: each row stands under its UID once, and each
-- repository under its name once, with the name as its package and its row's source as reference.
use operator_marketplace.Common.{String, ◌≡◌, refl, Option, none, some, List, [], ◌∷◌, All}
use operator_marketplace.Common.Maps.{
  Map, UniqueKeys, insert-UniqueKeys, delete-UniqueKeys, All-insert, All-delete,
}
use operator_marketplace.Api.OperatorSource.{OperatorSource}
use operator_marketplace.Datastore.{
  Datastore, new_datastore, new_repository, repositories_of, write, add_operator_source,
  remove_operator_source,
}
use operator_marketplace.Datastore.Metadata.{
  RegistryMetadata, OpsrcRef, Repository, OperatorSourceKey, OperatorSourceRow,
}
use operator_marketplace.Datastore.Rows.{new_row, add_row}

abbrev pub ref_of : OperatorSourceKey → OpsrcRef
ref_of key = record { name = key.name.name; namespace = key.name.namespace }

pub record IsValidRepository (ref : OpsrcRef) (entry : String × Repository) : Type 0 where
  pub named : entry.1.package_name ≡ entry.0
  pub described : entry.1.metadata.repository ≡ entry.0
  pub owned : entry.1.opsrc ≡ ref

pub record IsValidRow (entry : String × OperatorSourceRow) : Type 0 where
  pub keyed : entry.1.key.uid ≡ entry.0
  pub unique : UniqueKeys entry.1.repositories
  pub valid : All (IsValidRepository (ref_of entry.1.key)) entry.1.repositories

pub record IsValid (ds : Datastore) : Type 0 where
  pub unique : UniqueKeys ds.rows
  pub valid : All IsValidRow ds.rows

abbrev pub source_ref : OperatorSource → OpsrcRef
source_ref o = record { name = o.meta.name; namespace = o.meta.namespace }

module _ (o : OperatorSource) where
  repositories_of-UniqueKeys :
      (ms : List RegistryMetadata) (acc : Map Repository)
      → UniqueKeys acc
      → UniqueKeys (repositories_of o ms acc)
  unfolding repositories_of
  repositories_of-UniqueKeys [] acc u = u
  repositories_of-UniqueKeys (m ∷ ms) acc u =
      repositories_of-UniqueKeys ms _ (insert-UniqueKeys m.repository (new_repository o m) acc u)

  pub repositories_of-valid :
      (ms : List RegistryMetadata) (acc : Map Repository)
      → All (IsValidRepository (source_ref o)) acc
      → All (IsValidRepository (source_ref o)) (repositories_of o ms acc)
  unfolding repositories_of
  repositories_of-valid [] acc h = h
  repositories_of-valid (m ∷ ms) acc h = repositories_of-valid ms _ (
      All-insert (IsValidRepository (source_ref o)) m.repository (new_repository o m) acc
        (record { named = refl; described = refl; owned = refl }) h)

  add_row-IsValid :
      (ds : Datastore) (reps : Map Repository)
      → UniqueKeys reps
      → All (IsValidRepository (source_ref o)) reps
      → IsValid ds
      → IsValid (record { rows = add_row o reps ds.rows })
  unfolding add_row
  add_row-IsValid ds reps u h v = record {
    unique = insert-UniqueKeys o.meta.uid (new_row o reps) ds.rows v.unique;
    valid =
        All-insert IsValidRow o.meta.uid (new_row o reps) ds.rows
          (record { keyed = refl; unique = u; valid = h }) v.valid;
  }

pub write-IsValid :
    (o : Option OperatorSource) (ms : Option (List RegistryMetadata)) (ds : Datastore)
    → IsValid ds
    → IsValid (write o ms ds).1
unfolding write
write-IsValid none ms ds v = v
write-IsValid (some o) none ds v = v
write-IsValid (some o) (some ms) ds v =
    add_row-IsValid o ds (repositories_of o ms []) (repositories_of-UniqueKeys o ms [] tt)
      (repositories_of-valid o ms [] tt) v

pub add_operator_source-IsValid :
    (o : OperatorSource) (ds : Datastore) → IsValid ds → IsValid (add_operator_source o ds)
unfolding add_operator_source
add_operator_source-IsValid o ds v = add_row-IsValid o ds [] tt tt v

pub remove_operator_source-IsValid :
    (uid : String) (ds : Datastore) → IsValid ds → IsValid (remove_operator_source uid ds)
unfolding remove_operator_source
remove_operator_source-IsValid uid ds v = record {
  unique = delete-UniqueKeys uid ds.rows v.unique;
  valid = All-delete IsValidRow uid ds.rows v.valid;
}

-- The calls that change the store.
pub data Call : Type 0 where
  writes : Option OperatorSource → Option (List RegistryMetadata) → Call
  adds : OperatorSource → Call
  removes : String → Call

abbrev pub call : Call → Datastore → Datastore
call (writes o ms) ds = (write o ms ds).1
call (adds o) ds = add_operator_source o ds
call (removes uid) ds = remove_operator_source uid ds

abbrev pub calls : List Call → Datastore → Datastore
calls [] ds = ds
calls (c ∷ cs) ds = calls cs (call c ds)

pub call-IsValid : (c : Call) (ds : Datastore) → IsValid ds → IsValid (call c ds)
call-IsValid (writes o ms) ds v = write-IsValid o ms ds v
call-IsValid (adds o) ds v = add_operator_source-IsValid o ds v
call-IsValid (removes uid) ds v = remove_operator_source-IsValid uid ds v

calls-IsValid_from : (cs : List Call) (ds : Datastore) → IsValid ds → IsValid (calls cs ds)
calls-IsValid_from [] ds v = v
calls-IsValid_from (c ∷ cs) ds v = calls-IsValid_from cs (call c ds) (call-IsValid c ds v)

-- After any calls of Write, AddOperatorSource and RemoveOperatorSource on a new store, each row
-- stands once under its own UID, and each repository once under its own name, which is its package
-- and its metadata's repository, with a reference to the row's operator source.
pub calls-IsValid : (cs : List Call) → IsValid (calls cs new_datastore)
unfolding new_datastore
calls-IsValid cs = calls-IsValid_from cs new_datastore (record { unique = tt; valid = tt })
