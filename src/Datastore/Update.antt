-- ===== src/Datastore/Update.antt =====
-- pkg/datastore/update_result.go: what has changed in a remote registry, and the aggregator of
-- such results, whose two sets are maps to `true`.
use operator_marketplace.Common.{
  String, Bool, true, false, List, [], ◌∷◌, ◌||◌, not, is_some, is_empty,
}
use operator_marketplace.Common.Maps.{Map, insert, lookup}

pub record UpdateResult : Type 0 where
  pub registry_has_update : Bool
  pub updated : List String
  pub removed : List String

unfoldable pub new_update_result : UpdateResult
new_update_result = record { registry_has_update = false; updated = []; removed = [] }

pub record PackageUpdateAggregator : Type 0 where
  pub updated : Map Bool
  pub removed : Map Bool

unfoldable pub new_package_update_aggregator : PackageUpdateAggregator
new_package_update_aggregator = record { updated = []; removed = [] }

-- The loop `for _, pkg := range pkgs { set[pkg] = true }`.
unfoldable pub mark_all : List String → Map Bool → Map Bool
mark_all [] marked = marked
mark_all (pkg ∷ pkgs) marked = mark_all pkgs (insert pkg true marked)

unfoldable pub add_result : UpdateResult → PackageUpdateAggregator → PackageUpdateAggregator
unfolding mark_all
add_result result a = record {
  updated = mark_all result.updated a.updated;
  removed = mark_all result.removed a.removed;
}

unfoldable pub is_updated_or_removed : PackageUpdateAggregator → Bool
is_updated_or_removed a = not (is_empty a.removed) || not (is_empty a.updated)

unfoldable pub is_removed : String → PackageUpdateAggregator → Bool
is_removed pkg a = is_some (lookup pkg a.removed)

unfoldable pub is_updated : String → PackageUpdateAggregator → Bool
is_updated pkg a = is_some (lookup pkg a.updated)
