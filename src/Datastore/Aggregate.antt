-- ===== src/Datastore/Aggregate.antt =====
-- Which packages an aggregator of update results knows, as removed or as updated.
use operator_marketplace.Common.{
  String, ◌≡◌, refl, Bool, true, false, ◌||◌, List, [], ◌∷◌, arith, contains, is_some,
}
use operator_marketplace.Common.Maps.{Map, insert, lookup, lookup-insert}
use operator_marketplace.Datastore.Update.{
  UpdateResult, PackageUpdateAggregator, new_package_update_aggregator, mark_all, add_result,
  is_removed, is_updated,
}

mark_all_lem :
    (pkg : String) (pkgs : List String) (marked : Map Bool)
    → is_some (lookup pkg (mark_all pkgs marked))
      ≡ (contains pkg pkgs || is_some (lookup pkg marked))
unfolding mark_all contains
mark_all_lem pkg [] marked = refl
mark_all_lem pkg (p ∷ ps) marked =
    ground (arith, mark_all_lem pkg ps (insert p true marked), lookup-insert p pkg true marked)

-- All results that have been added.
abbrev pub add_all : List UpdateResult → PackageUpdateAggregator → PackageUpdateAggregator
add_all [] a = a
add_all (r ∷ rs) a = add_all rs (add_result r a)

abbrev pub any_removed : String → List UpdateResult → Bool
any_removed pkg [] = false
any_removed pkg (r ∷ rs) = contains pkg r.removed || any_removed pkg rs

abbrev pub any_updated : String → List UpdateResult → Bool
any_updated pkg [] = false
any_updated pkg (r ∷ rs) = contains pkg r.updated || any_updated pkg rs

add_all_lem :
    (pkg : String) (rs : List UpdateResult) (a : PackageUpdateAggregator)
    → (is_removed pkg (add_all rs a) ≡ (any_removed pkg rs || is_removed pkg a))
      × (is_updated pkg (add_all rs a) ≡ (any_updated pkg rs || is_updated pkg a))
unfolding add_result is_removed is_updated
add_all_lem pkg [] a = (refl, refl)
add_all_lem pkg (r ∷ rs) a =
    let (removed, updated) = add_all_lem pkg rs (add_result r a) in
    (
      ground (arith, removed, mark_all_lem pkg r.removed a.removed),
      ground (arith, updated, mark_all_lem pkg r.updated a.updated),
    )

-- After any results are added to a new aggregator, it calls a package removed exactly when one of
-- them lists it as removed, and updated exactly when one of them lists it as updated.
pub aggregate_lem :
    (pkg : String) (rs : List UpdateResult)
    → (is_removed pkg (add_all rs new_package_update_aggregator) ≡ any_removed pkg rs)
      × (is_updated pkg (add_all rs new_package_update_aggregator) ≡ any_updated pkg rs)
unfolding new_package_update_aggregator is_removed is_updated lookup
aggregate_lem pkg rs =
    let (removed, updated) = add_all_lem pkg rs new_package_update_aggregator in
    (ground (arith, removed), ground (arith, updated))
