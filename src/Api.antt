-- ===== src/Api.antt =====
-- The API types of pkg/apis/marketplace/v1alpha1 and their methods.
pub mod Meta
pub mod OperatorSource
pub mod CatalogSourceConfig
