-- ===== src/Lookup.antt =====
-- dht_scraper/dht_lookup.py: the get_peers lookups that the crawler runs side by side.
pub mod Closest
pub mod State
pub mod Operations
pub mod Handlers
pub mod Maps
pub mod Bounds
pub mod Rounds
pub mod Limits
pub mod Shortlist
pub mod Answers
pub mod Handled
pub mod Reachable
pub mod Owned
pub mod Owners
pub mod Owning
mod Tests
