-- ===== src/Transfers/Upload.antt =====
-- The upload of an evaluation build, src/client/transfers.hpp.
pub mod Session
pub mod Parts
pub mod Record
pub mod Examine
pub mod Verify
pub mod Run
