-- ===== src/Tests.antt =====
-- Runs of the definitions on small inputs, and the theorems applied to them.
mod Samples
mod Stores
mod Handling
mod Catalogs
mod Polling
mod Arrivals
mod Listings
mod Releases
mod Reports
mod Settling
mod Shelves
mod Processes
mod Journeys
