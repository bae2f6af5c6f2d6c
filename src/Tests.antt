-- ===== src/Tests.antt =====
-- The theorems at concrete inputs, and runs of the code that can be followed in the source.
mod Races
mod Schedule
mod Ranges
mod Tasks
mod Merging
mod Channels
mod Output
