-- ===== src/Crawler.antt =====
-- dht_scraper/dht_crawler.py: the packets that go out, and the announcements that come in.
-- hmac, IPv6 parsing and the socket are parameters; `now` and `moment` are what the clocks return, in
-- thousandths of a second.
pub mod Announced
mod Tests
use lif.Common.{
  ℕ, suc, ◌+◌, ◌-◌, List, [], ◌∷◌, ◌++◌, Bool, true, false, not, ◌&&◌, Option, none, some, Bytes,
  bytes_eq, ascii, ltb, leb, ◌==◌, length, drop, Result, ok, err, guard, ◌>>◌, ◌>>=◌, if◌then◌else◌,
  byte_string_eq,
}
use lif.RecentMap.{find, remember}
use lif.Catalog.Entries.{Peer, Source, from_announce_peer}
use lif.Catalog.State.{Catalog}
use lif.Catalog.Operations as Operations
use lif.Bencode.Values.{recursion_limit, Error, Value, bytes, Entries, get, assertion_error}
use lif.Bencode.Encode.{encode_bencode}
use lif.PeerWire.Messages.{node_id_length}
use lif.Lookup.State.{assign}
use lif.Krpc.Messages.{
  Ipv6, build_error_response, build_ping_response, make_token, read_announced_port,
  is_routable_address,
}

abbrev pub recent_hashes_size : ℕ
recent_hashes_size = 64

abbrev pub per_address_window : ℕ
per_address_window = 10_000

abbrev pub per_address_max_packets : ℕ
per_address_max_packets = 40

abbrev pub send_window_entries : ℕ
send_window_entries = 65536

-- The fields of DhtCrawler that these methods touch. A window is its first moment and a count.
pub record Crawler : Type 0 where
  pub catalog : Catalog
  pub recent_hashes : List Bytes
  pub token_secret : Bytes
  pub announced_peers : ℕ
  pub packets_sent : ℕ
  pub packets_throttled : ℕ
  pub send_windows : List (Bytes × (ℕ × ℕ))

unfoldable pub open_window : Bytes → ℕ → Crawler → Crawler
open_window ip now c = record c {
  send_windows = (remember c.send_windows ip (now, 1) send_window_entries).0;
}

unfoldable pub count_packet : Bytes → ℕ → ℕ → Crawler → Crawler
count_packet ip start count c = record c {
  send_windows = assign ip (start, suc count) c.send_windows;
}

abbrev pub allow_in : Option (ℕ × ℕ) → Bytes → ℕ → Crawler → Crawler × Bool
allow_in none ip now c = (open_window ip now c, true)
allow_in (some (start, count)) ip now c =
    if leb per_address_window (now - start)
    then (open_window ip now c, true)
    else if leb per_address_max_packets count
    then (c, false)
    else (count_packet ip start count c, true)

unfoldable pub allow_send : Bytes → ℕ → Crawler → Crawler × Bool
allow_send ip now c = allow_in (find ip c.send_windows) ip now c

-- The hash is recorded, and is the last of the recent ones, of which 64 are kept.
unfoldable pub record_hash : Bytes → Source → Option Peer → ℕ → Crawler → Crawler
record_hash info_hash source peer moment c =
    let recent = c.recent_hashes ++ info_hash ∷ [] in
    record c {
      catalog = (Operations.record_hash info_hash source peer moment c.catalog).0;
      recent_hashes = drop (length recent - recent_hashes_size) recent;
    }

unfoldable pub count_announced : Option Peer → Crawler → Crawler
count_announced none c = c
count_announced (some peer) c = record c { announced_peers = suc c.announced_peers }

abbrev pub token_matches : Option Value → Bytes → Bool
token_matches (some (bytes given)) token = bytes_eq given token
token_matches _ token = false

-- is_valid_node_id(value), with the bytes
abbrev pub valid_id : Option Value → Option Bytes
valid_id (some (bytes b)) = if length b == node_id_length then some b else none
valid_id _ = none

-- sendto(payload, address) does not raise an OSError.
module _ (delivers : Bytes → Peer → Bool) where
  unfoldable pub count_sent : Bool → Crawler → Crawler
  count_sent false c = c
  count_sent true c = record c { packets_sent = suc c.packets_sent }

  unfoldable pub send_allowed : Value → Peer → Crawler × Bool → Result Error Crawler
  send_allowed message address (c, false) =
      ok (record c { packets_throttled = suc c.packets_throttled })
  send_allowed message address (c, true) = do
    payload ← encode_bencode recursion_limit message
    ok (count_sent (delivers payload address) c)

  unfoldable pub send_message : Value → Peer → ℕ → Crawler → Result Error Crawler
  send_message message address now c = send_allowed message address (allow_send address.0 now c)

  module _ (hmac_sha1 : Bytes → Bytes → Bytes) (ipv6_address : Bytes → Option Ipv6) where
    -- The peer that an announcement is recorded with.
    unfoldable pub routable_peer : Bytes → Option ℕ → Option Peer
    routable_peer ip none = none
    routable_peer ip (some port) =
        if is_routable_address ipv6_address ip port then some (ip, port) else none

    unfoldable pub announced_peer : Bool → Entries → Peer → Option Peer
    announced_peer token_valid args address =
        routable_peer address.0 (if token_valid then read_announced_port args address.1 else none)

    unfoldable pub reply_to_announcement :
        Bool → Bytes → Bytes → Peer → ℕ → Crawler → Result Error Crawler
    reply_to_announcement token_valid transaction_id reply_id address now c = do
      message ←
          if token_valid
          then build_ping_response transaction_id reply_id
          else build_error_response transaction_id 203 (ascii "bad token")
      send_message message address now c

    unfoldable pub announce :
        Bool → Bytes → Bytes → Entries → Bytes → Peer → ℕ → ℕ → Crawler → Result Error Crawler
    announce token_valid transaction_id reply_id args info_hash address moment now c =
        let peer = announced_peer token_valid args address in
        reply_to_announcement token_valid transaction_id reply_id address now
          (record_hash info_hash from_announce_peer peer moment (count_announced peer c))

    unfoldable pub handle_announced_hash :
        Option Bytes → Bytes → Bytes → Entries → Peer → ℕ → ℕ → Crawler → Result Error Crawler
    handle_announced_hash none transaction_id reply_id args address moment now c = do
      message ← build_error_response transaction_id 203 (ascii "invalid info_hash")
      send_message message address now c
    handle_announced_hash (some info_hash) transaction_id reply_id args address moment now c = do
      token ← make_token hmac_sha1 c.token_secret address.0
      announce (token_matches (get (ascii "token") args) token) transaction_id reply_id args
          info_hash address moment now c

    unfoldable pub handle_announce_peer_query :
        Bytes → Bytes → Entries → Peer → ℕ → ℕ → Crawler → Result Error Crawler
    handle_announce_peer_query transaction_id reply_id args address moment now c = do
      guard (length reply_id == node_id_length) assertion_error
      handle_announced_hash (valid_id (get (ascii "info_hash") args)) transaction_id reply_id args
          address moment now c
