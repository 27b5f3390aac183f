-- ===== src/Fetcher.antt =====
-- dht_scraper/metadata_fetcher.py: the session that fetches the metadata of a torrent from one peer.
pub mod Stream
pub mod Session
pub mod Outcome
pub mod Refused
pub mod Reads
pub mod Pieces
pub mod Sound
mod Tests
