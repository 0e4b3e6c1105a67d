-- ===== src/Tests.antt =====
-- The theorems of the development at concrete inputs.
mod Indexes
mod Registry
mod Voting
mod Consensus
mod Fuel
mod Restart
mod Node
mod Wire
mod Steps
mod Disk
mod Transport
mod Frames
