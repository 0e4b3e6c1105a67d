-- ===== src/Poset/Queries.antt =====
-- The questions of src/poset/poset.go on the graph of events: what they leave alone.
pub mod Caches
pub mod Graph
pub mod Sight
pub mod Rounds
pub mod Frames
pub mod Fuel
