-- ===== src/Transfers.antt =====
-- The transfer driver of src/client/transfers.hpp: uploads of evaluation builds, installs of games,
-- and the pass over their jobs.
pub mod Job
pub mod Site
pub mod Outcome
pub mod Calls
pub mod Upload
pub mod Install
pub mod Control
pub mod Removal
pub mod Pass
pub mod Incidents
pub mod Installed
