-- ===== src/Trackers.antt =====
-- src/trackers
pub mod Tags
pub mod Validation
pub mod Api
pub mod Actions
pub mod Parsers
pub mod Fetch
pub mod Revise
pub mod Diff
pub mod History
