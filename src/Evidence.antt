-- ===== src/Evidence.antt =====
-- Evaluation evidence delivery, src/shared/evidence_queue.hpp and src/client/evidence_owner.hpp.
pub mod Ladder
pub mod Json
pub mod Core
pub mod Answer
pub mod Outbox
pub mod Document
pub mod World
pub mod Attempt
pub mod Pass
pub mod Requests
pub mod Drain
pub mod Driver
pub mod Resolver
