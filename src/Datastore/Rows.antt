-- ===== src/Datastore/Rows.antt =====
-- operatorSourceRowMap of pkg/datastore/row.go. The lock makes each method atomic, so a method is
-- one function from the map to the map.
use operator_marketplace.Common.{String, Option, List, [], ◌∷◌, ◌++◌, map}
use operator_marketplace.Common.Maps.{Map, lookup, insert, delete, values}
use operator_marketplace.Api.OperatorSource.{OperatorSource}
use operator_marketplace.Datastore.Metadata.{
  Repository, OperatorSourceKey, OperatorSourceRow, get_packages,
}

abbrev pub RowMap : Type 0
RowMap = Map OperatorSourceRow

unfoldable pub new_row : OperatorSource → Map Repository → OperatorSourceRow
new_row opsrc repositories = record {
  key = record {
    uid = opsrc.meta.uid;
    name = record { namespace = opsrc.meta.namespace; name = opsrc.meta.name };
    spec = opsrc.spec;
  };
  repositories = repositories;
}

unfoldable pub add_row : OperatorSource → Map Repository → RowMap → RowMap
unfolding new_row
add_row opsrc repositories m = insert opsrc.meta.uid (new_row opsrc repositories) m

unfoldable pub add_empty_row : OperatorSource → RowMap → RowMap
unfolding add_row
add_empty_row opsrc m = add_row opsrc [] m

unfoldable pub remove_row : String → RowMap → RowMap
remove_row uid m = delete uid m

unfoldable pub get_row : String → RowMap → Option OperatorSourceRow
get_row uid m = lookup uid m

abbrev key_of : OperatorSourceRow → OperatorSourceKey
key_of row = row.key

unfoldable pub get_all_rows : RowMap → List OperatorSourceKey
get_all_rows m = map key_of (values m)

unfoldable pub get_all_repositories : RowMap → List Repository
get_all_repositories [] = []
get_all_repositories ((uid, row) ∷ m) = values row.repositories ++ get_all_repositories m

unfoldable pub get_all_packages : RowMap → List String
get_all_packages [] = []
get_all_packages ((uid, row) ∷ m) = get_packages row ++ get_all_packages m
