-- ===== src/Tests.antt =====
-- The theorems at concrete inputs.
mod Registry
mod Requests
mod Caches
mod Limits
mod Imports
mod Graph
mod Pruner
mod Sessions
mod Feed
mod Workers
