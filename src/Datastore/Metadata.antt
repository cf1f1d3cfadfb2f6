-- ===== src/Datastore/Metadata.antt =====
-- pkg/datastore/metadata.go and the row types of row.go.
use operator_marketplace.Common.{String, ◌<>◌, List, map}
use operator_marketplace.Common.Maps.{Map, values}
use operator_marketplace.Api.Meta.{NamespacedName}
use operator_marketplace.Api.OperatorSource.{OperatorSourceSpec}

pub record RegistryMetadata : Type 0 where
  pub namespace : String
  pub repository : String
  pub release : String
  pub digest : String

pub record OperatorMetadata : Type 0 where
  pub registry_metadata : RegistryMetadata
  pub raw_yaml : String

pub record OpsrcRef : Type 0 where
  pub name : String
  pub namespace : String

pub record Repository : Type 0 where
  pub metadata : RegistryMetadata
  pub package_name : String
  pub opsrc : OpsrcRef

unfoldable pub metadata_id : RegistryMetadata → String
metadata_id rm = rm.namespace <> "/" <> rm.repository

pub record OperatorSourceKey : Type 0 where
  pub uid : String
  pub name : NamespacedName
  pub spec : OperatorSourceSpec

pub record OperatorSourceRow : Type 0 where
  pub key : OperatorSourceKey
  pub repositories : Map Repository

abbrev pub package_of : Repository → String
package_of r = r.package_name

unfoldable pub get_packages : OperatorSourceRow → List String
get_packages row = map package_of (values row.repositories)
