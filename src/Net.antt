-- ===== src/Net.antt =====
-- Package src/net: the transport of requests between nodes.
pub mod Transport
