-- ===== src/Examples.antt =====
-- Concrete inputs, tests of the definitions on them, and the theorems at them.
mod Data
mod Scheduling
mod Tracking
mod Storing
mod Running
mod Starting
mod Fetching
mod Serving
mod Scripts
mod Composing
