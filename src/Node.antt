-- ===== src/Node.antt =====
-- Package src/node: a node, which gossips events with its peers and runs the consensus on them.
pub mod Signer
pub mod Core
pub mod Selector
pub mod Timer
pub mod Messages
pub mod Machine
