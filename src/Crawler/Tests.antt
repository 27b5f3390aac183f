-- ===== src/Crawler/Tests.antt =====
-- The answer to an announcement with the right token.
use lif.Common.{arith, [], ◌∷◌, true, none, Bytes, ascii, replicate, take, refl}
use lif.Bencode.Values.{Entries, no_entries, entry, bytes_key, bytes, int}
use lif.Common.{pos}
use lif.Catalog.Entries.{Peer}
use lif.Catalog.State.{Settings, new_catalog}
use lif.Crawler.{Crawler, handle_announce_peer_query}
use lif.Crawler.Announced.{Announcement, handle_announce_peer_query-Announcement}

abbrev settings : Settings
settings = record {
  max_entries = 2;
  max_peers_per_hash = 2;
  max_fetch_attempts = 1;
  max_lookups = 1;
  lookup_retry = 30;
}

abbrev sender : Peer
sender = (ascii "8.8.8.8", 6881)

abbrev crawler : Crawler
crawler = record {
  catalog = new_catalog settings;
  recent_hashes = [];
  token_secret = ascii "secret";
  announced_peers = 0;
  packets_sent = 0;
  packets_throttled = 0;
  send_windows = [];
}

abbrev hash : Bytes → Bytes → Bytes
hash secret ip = replicate 20 7

abbrev announcement : Entries
announcement = entry (bytes_key (ascii "info_hash")) (bytes (replicate 20 1)) (
    entry (bytes_key (ascii "port")) (int (pos 80))
      (entry (bytes_key (ascii "token")) (bytes (replicate 8 7)) no_entries))

handle_announce_peer_query-Announcement_example :
    Announcement
      (λ payload address. true)
      hash
      (λ ip. none)
      (take 8 (hash (ascii "secret") (ascii "8.8.8.8")))
      announcement
      sender
      5
      crawler
      (handle_announce_peer_query
        (λ payload address. true)
        hash
        (λ ip. none)
        (1 ∷ [])
        (replicate 20 1)
        announcement
        sender
        5
        5
        crawler)
handle_announce_peer_query-Announcement_example =
    handle_announce_peer_query-Announcement (λ payload address. true) hash (λ ip. none) (1 ∷ [])
      (replicate 20 1) announcement sender 5 5 crawler (omega arith) refl refl
