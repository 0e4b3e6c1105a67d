-- ===== src/Poset.antt =====
-- Package src/poset: the graph of events and the consensus on their order.
pub mod RoundInfo
pub mod Event
pub mod Block
pub mod Lru
pub mod Store
pub mod EventsCache
pub mod Inmem
pub mod Database
pub mod Badger
pub mod State
pub mod FlagTable
pub mod Wire
pub mod Graph
pub mod Ancestry
pub mod Rounds
pub mod Insert
pub mod Fame
pub mod Signatures
pub mod Divide
pub mod Received
pub mod Frames
pub mod Process
pub mod Reset
pub mod Bootstrap
pub mod Advance
pub mod Queries
