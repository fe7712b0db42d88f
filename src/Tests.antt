-- ===== src/Tests.antt =====
-- The theorems at work on a network of four nodes, and runs of the definitions.
mod Data
mod Library
mod Runs
mod Votes
mod Messages
mod Blocks
mod Growth
mod Progress
mod Agreement
mod Startup
mod Sessions
mod Packets
mod Mined
