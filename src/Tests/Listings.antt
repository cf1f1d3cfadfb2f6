-- ===== src/Tests/Listings.antt =====
-- The sources that the registry is started with, at a datastore with two sources.
use operator_marketplace.Common.{contains, ◌≡◌, refl, none, some, [], ◌∷◌}
use operator_marketplace.Common.Text.{split, contains_text}
use operator_marketplace.Common.Maps.{insert}
use operator_marketplace.Api.OperatorSource.{OperatorSource}
use operator_marketplace.Datastore.Rows.{get_all_repositories}
use operator_marketplace.Datastore.{Datastore, read, write, new_datastore, repositories_of}
use operator_marketplace.Datastore.Metadata.{OpsrcRef}
use operator_marketplace.Configs.Registry.{get_operator_sources, collect_sources, note_source}
use operator_marketplace.Phase.{succeeded}
use operator_marketplace.Configs.Cache.{get_package_ids}
use operator_marketplace.Configs.Registry.Listing.{IsRead, get_operator_sources-IsRead}
use operator_marketplace.Configs.Registry.Hidden.{hidden_source}
use operator_marketplace.Tests.Catalogs.{config}
use operator_marketplace.Tests.Samples.{in_phase, metadata, stored}

abbrev beta : OperatorSource
beta = record (in_phase "" none) {
  meta = record ((in_phase "" none).meta) { name = "community-beta"; uid = "u2" };
}

-- "community" offers etcd and prometheus, and "community-beta" offers vault.
abbrev two_sources : Datastore
two_sources = (write (some beta) (some (metadata "vault" "1.0.0" ∷ [])) stored).1

abbrev beta_ref : OpsrcRef
beta_ref = record { name = "community-beta"; namespace = "marketplace" }

abbrev community_ref : OpsrcRef
community_ref = record { name = "community"; namespace = "marketplace" }

both_listed :
    collect_sources two_sources ("etcd" ∷ "vault" ∷ []) ("", [])
    ≡ ("marketplace/community,marketplace/community-beta,", "community" ∷ "community-beta" ∷ [])
unfolding collect_sources note_source contains_text read write new_datastore get_all_repositories
    insert repositories_of
both_listed = refl

hidden_source_example :
    collect_sources two_sources ("vault" ∷ "etcd" ∷ []) ("", [])
    ≡ collect_sources two_sources ("vault" ∷ []) ("", [])
unfolding collect_sources note_source contains_text read write new_datastore get_all_repositories
    insert repositories_of
hidden_source_example =
    hidden_source two_sources "etcd" community_ref "vault" beta_ref [] [] ("", []) refl refl refl

get_operator_sources-IsRead_example : IsRead stored (get_package_ids "etcd,prometheus") "community"
unfolding contains get_operator_sources collect_sources get_package_ids split read write
    new_datastore get_all_repositories insert repositories_of
get_operator_sources-IsRead_example =
    get_operator_sources-IsRead stored (config succeeded "etcd,prometheus" none) "community" refl
