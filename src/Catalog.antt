-- ===== src/Catalog.antt =====
-- dht_scraper/torrent_catalog.py: the catalog of the torrents seen, with the state of their fetches and lookups.
pub mod Entries
pub mod Store
pub mod State
pub mod Eviction
pub mod Operations
pub mod Indexing
pub mod Tally
pub mod Counts
pub mod Keeps
pub mod Steps
pub mod Victims
pub mod Evicting
pub mod Invariant
pub mod Indexed
pub mod Reachable
pub mod Reports
mod Tests
