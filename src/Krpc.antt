-- ===== src/Krpc.antt =====
-- dht_scraper/krpc_messages.py and dht_scraper/node_identity.py: compact addresses and node ids.
pub mod Addresses
pub mod Messages
pub mod Slices
pub mod Nodes
pub mod Ids
pub mod Wire
pub mod Special
pub mod Peers
pub mod Plain
mod Tests
