-- ===== src/Peers.antt =====
-- Package src/peers: the participants of the network.
pub mod Peer
pub mod Registry
