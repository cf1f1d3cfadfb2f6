-- ===== src/Sources/Builder.antt =====
-- pkg/operatorsource/catalogsourceconfigbuilder.go. A builder is the object that it holds.
use operator_marketplace.Common.{String, true, [], ◌∷◌, ◌++◌}
use operator_marketplace.Common.Maps.{Map, insert}
use operator_marketplace.Api.OperatorSource.{OperatorSource, group_version}
use operator_marketplace.Api.CatalogSourceConfig.{CatalogSourceConfig, catalog_source_config_kind}

abbrev pub datastore_label : String
datastore_label = "opsrc-datastore"

unfoldable pub with_type_meta : CatalogSourceConfig → CatalogSourceConfig
with_type_meta c = record c {
  type_meta = record { kind = catalog_source_config_kind; api_version = group_version };
}

unfoldable pub with_namespaced_name : String → String → CatalogSourceConfig → CatalogSourceConfig
with_namespaced_name namespace name c = record c {
  meta = record (c.meta) { name = name; namespace = namespace };
}

-- The loop of `WithLabels`.
unfoldable pub add_labels : Map String → Map String → Map String
add_labels [] labels = labels
add_labels ((key, value) ∷ rest) labels = add_labels rest (insert key value labels)

unfoldable pub with_labels : Map String → CatalogSourceConfig → CatalogSourceConfig
unfolding add_labels
with_labels opsrc_labels c = record c {
  meta = record (c.meta) { labels = add_labels opsrc_labels ((datastore_label, "true") ∷ []) };
}

unfoldable pub with_owner : OperatorSource → CatalogSourceConfig → CatalogSourceConfig
with_owner owner c = record c {
  meta = record (c.meta) {
    owner_references =
        c.meta.owner_references
        ++ (record {
          api_version = owner.type_meta.api_version;
          kind = owner.type_meta.kind;
          name = owner.meta.name;
          uid = owner.meta.uid;
          controller = true;
        }
            ∷ []);
  };
}

unfoldable pub with_spec :
    String → String → String → String → CatalogSourceConfig → CatalogSourceConfig
with_spec target_namespace packages display_name publisher c = record c {
  spec = record {
    target_namespace = target_namespace;
    packages = packages;
    display_name = display_name;
    publisher = publisher;
  };
}
