-- ===== src/Bencode.antt =====
-- dht_scraper/bencode_codec.py: the bencode encoder and decoder.
pub mod Values
pub mod Encode
pub mod Decode
pub mod Wire
pub mod Scalars
mod Dicts
pub mod RoundTrip
pub mod Safety
mod Tests
