-- ===== src/Utp.antt =====
-- dht_scraper/utp_transport.py: the uTP packets and one outgoing connection.
pub mod Packets
pub mod Connection
pub mod InOrder
pub mod Codec
pub mod Lifecycle
mod Tests
