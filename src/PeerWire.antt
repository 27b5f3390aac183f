-- ===== src/PeerWire.antt =====
-- dht_scraper/peer_wire_messages.py: the peer wire protocol's messages.
pub mod Messages
pub mod Handshake
pub mod Extended
pub mod Pieces
mod Tests
