-- ===== src/Transfers/Install.antt =====
-- The install and the update of a game, src/client/transfers.hpp.
pub mod Chain
pub mod Place
pub mod Refusal
pub mod Download
pub mod Build
pub mod Run
pub mod Entry
