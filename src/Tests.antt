-- ===== src/Tests.antt =====
-- Runs of the models on concrete values, and the theorems at concrete values.
pub mod KeyValues
pub mod Messages
pub mod Modules
pub mod Packages
pub mod Farming
pub mod Boards
pub mod Connections
pub mod Helpers
