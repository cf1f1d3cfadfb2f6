-- ===== src/Api/CatalogSourceConfig.antt =====
-- catalogsourceconfig_types.go of pkg/apis/marketplace/v1alpha1.
use operator_marketplace.Common.{String, ◌≡◌, List, [], ◌∷◌, arith, ◌==◌, eq_iff, if◌then◌else◌}
use operator_marketplace.Common.Text.{split}
use operator_marketplace.Api.Meta.{
  TypeMeta, OwnerReference, ObjectMeta, ObjectPhase, empty_type_meta, empty_object_meta,
  empty_object_phase, ensure_finalizer, remove_finalizer,
}
use operator_marketplace.Api.OperatorSource.{group_version}

pub record CatalogSourceConfigSpec : Type 0 where
  pub target_namespace : String
  pub packages : String
  pub display_name : String
  pub publisher : String

pub record CatalogSourceConfig : Type 0 where
  pub type_meta : TypeMeta
  pub meta : ObjectMeta
  pub spec : CatalogSourceConfigSpec
  -- Status.CurrentPhase, the only field of the status
  pub current_phase : ObjectPhase

abbrev pub config_finalizer : String
config_finalizer = "finalizer.catalogsourceconfigs.marketplace.redhat.com"

abbrev pub catalog_source_config_kind : String
catalog_source_config_kind = "CatalogSourceConfig"

abbrev pub empty_config_spec : CatalogSourceConfigSpec
empty_config_spec = record {
  target_namespace = "";
  packages = "";
  display_name = "";
  publisher = "";
}

-- The zero value of the struct.
abbrev pub empty_config : CatalogSourceConfig
empty_config = record {
  type_meta = empty_type_meta;
  meta = empty_object_meta;
  spec = empty_config_spec;
  current_phase = empty_object_phase;
}

unfoldable pub ensure_config_gvk : CatalogSourceConfig → CatalogSourceConfig
ensure_config_gvk c = record c {
  type_meta = record { kind = catalog_source_config_kind; api_version = group_version };
}

unfoldable pub remove_config_finalizer : CatalogSourceConfig → CatalogSourceConfig
remove_config_finalizer c = record c { meta = remove_finalizer c.meta config_finalizer }

unfoldable pub ensure_config_finalizer : CatalogSourceConfig → CatalogSourceConfig
ensure_config_finalizer c = record c { meta = ensure_finalizer c.meta config_finalizer }

unfoldable pub ensure_display_name : CatalogSourceConfig → CatalogSourceConfig
ensure_display_name c =
    if c.spec.display_name == ""
    then record c { spec = record (c.spec) { display_name = "Custom" } }
    else c

unfoldable pub ensure_publisher : CatalogSourceConfig → CatalogSourceConfig
ensure_publisher c =
    if c.spec.publisher == ""
    then record c { spec = record (c.spec) { publisher = "Custom" } }
    else c

unfoldable pub config_package_ids : CatalogSourceConfig → List String
config_package_ids c = split "," c.spec.packages

-- The loop of `RemoveOwner`.
unfoldable pub without_owner : String → List OwnerReference → List OwnerReference
without_owner owner_uid [] = []
without_owner owner_uid (owner ∷ rest) =
    let owners = without_owner owner_uid rest in
    if owner.uid == owner_uid then owners else owner ∷ owners

unfoldable pub remove_owner : CatalogSourceConfig → String → CatalogSourceConfig
unfolding without_owner
remove_owner c owner_uid = record c {
  meta = record (c.meta) { owner_references = without_owner owner_uid c.meta.owner_references };
}

-- How many owner references have the UID.
abbrev pub owned_by : String → List OwnerReference → List OwnerReference
owned_by u [] = []
owned_by u (o ∷ os) = let rest = owned_by u os in if o.uid == u then o ∷ rest else rest

pub owned_by-without_owner :
    (u v : String) (os : List OwnerReference)
    → owned_by v (without_owner u os) ≡ (if u == v then [] else owned_by v os)
unfolding without_owner
owned_by-without_owner u v [] = ground arith
owned_by-without_owner u v (o ∷ os) =
    ground (arith, owned_by-without_owner u v os, eq_iff o.uid u, eq_iff o.uid v, eq_iff u v)
