-- ===== src/Configs.antt =====
-- pkg/catalogsourceconfig and pkg/controller/catalogsourceconfig: the deployment of a catalog of
-- chosen packages for each CatalogSourceConfig object, and the reaction to updates of packages.
pub mod Cache
pub mod Builders
pub mod Registry
pub mod Reconcilers
pub mod Handler
pub mod Triggerer
pub mod Progress
