-- ===== src/Tests.antt =====
-- The theorems at concrete inputs.
mod Sample
mod Passes
mod Documents
mod Requests
mod Drain
mod Resolver
mod Updates
mod Uploads
mod Installs
