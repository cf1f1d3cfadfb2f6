-- ===== src/Configs/Cache.antt =====
-- cache.go of pkg/catalogsourceconfig, and GetPackageIDs of configuring.go. The cache holds the
-- packages and the target namespace of each config, by UID.
pub mod Stale
use operator_marketplace.Common.{
  ◌≤◌, String, Bool, true, false, Option, none, some, List, [], ◌∷◌, ◌==◌, not, if◌then◌else◌,
  length,
}
use operator_marketplace.Common.Text.{split}
use operator_marketplace.Common.Maps.{Map, lookup, insert, delete}
use operator_marketplace.Common.Sorting.{sort}
use operator_marketplace.Api.CatalogSourceConfig.{
  CatalogSourceConfig, CatalogSourceConfigSpec, empty_config_spec,
}

pub record Cache : Type 0 where
  pub entries : Map CatalogSourceConfigSpec

unfoldable pub new_cache : Cache
new_cache = record { entries = [] }

unfoldable pub get_package_ids : String → List String
unfolding split
get_package_ids cs_ids = split "," cs_ids

-- Get: the zero spec and false where the UID is unknown.
unfoldable pub get : CatalogSourceConfig → Cache → CatalogSourceConfigSpec × Bool
get c cache = elim (lookup c.meta.uid cache.entries) [
  | none ↦ (empty_config_spec, false)
  | some entry ↦ (entry, true)
]

-- The loop of IsEntryStale over two sorted lists of the same length: whether a package differs.
unfoldable pub differ : List String → List String → Bool
differ [] ys = false
differ (x ∷ xs) [] = false
differ (x ∷ xs) (y ∷ ys) = let rest = differ xs ys in if not (x == y) then true else rest

unfoldable pub same_length : List String → List String → Bool
same_length [] [] = true
same_length [] (y ∷ ys) = false
same_length (x ∷ xs) [] = false
same_length (x ∷ xs) (y ∷ ys) = same_length xs ys

-- The comparison of a cached spec with that of the object: pkgStale and targetStale.
abbrev pub compare_specs : CatalogSourceConfigSpec → CatalogSourceConfigSpec → Bool × Bool
compare_specs spec current =
    let cached_packages = get_package_ids spec.packages in
    let in_package_ids = get_package_ids current.packages in
    if not (spec.target_namespace == current.target_namespace)
    then (true, true)
    else if not (same_length cached_packages in_package_ids)
    then (true, false)
    else if differ (sort cached_packages) (sort in_package_ids)
    then (true, false)
    else (false, false)

abbrev pub stale_entry : CatalogSourceConfigSpec × Bool → CatalogSourceConfigSpec → Bool × Bool
stale_entry (spec, false) current = (false, false)
stale_entry (spec, true) current = compare_specs spec current

unfoldable pub is_entry_stale : CatalogSourceConfig → Cache → Bool × Bool
unfolding get differ same_length
is_entry_stale c cache = stale_entry (get c cache) c.spec

unfoldable pub evict : CatalogSourceConfig → Cache → Cache
unfolding delete lookup
evict c cache = elim (lookup c.meta.uid cache.entries) [
  | none ↦ cache
  | some entry ↦ record { entries = delete c.meta.uid cache.entries }
]

-- Only the packages and the target namespace are kept.
unfoldable pub set : CatalogSourceConfig → Cache → Cache
unfolding insert
set c cache = record {
  entries =
      insert c.meta.uid
        (record empty_config_spec {
          packages = c.spec.packages;
          target_namespace = c.spec.target_namespace;
        })
        cache.entries;
}
