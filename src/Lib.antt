-- ===== src/Lib.antt =====
-- A model of the DHT scraper: a crawler of the BitTorrent DHT that collects the hashes of torrents,
-- looks up their peers, fetches their metadata from the peers, and keeps a catalog of them.
--
-- The parts of the program and how they meet: the crawler (dht_scraper/dht_crawler.py) reads and
-- writes KRPC messages, which are bencoded dicts; it records hashes in the catalog and starts lookups
-- for those without peers. The fetch engine claims the catalog's candidates, opens a stream to a peer,
-- over TCP or uTP, exchanges peer wire messages on it, and stores the metadata or a failure in the
-- catalog. The search indexer moves what the catalog learned to the database.
--
-- What is modelled, by file:
--   Bencode: dht_scraper/bencode_codec.py. Values.antt has the Python values that the codec is given,
--     Encode.antt `encode_bencode` and its helpers, Decode.antt `decode_bencode` and its helpers. They take
--     the number of frames that are left of the interpreter's stack, and raise RecursionError where it ends;
--     PeerWire's messages take it too. The session and the crawler call them with the default limit of 1000
--     frames: how many their callers have taken is not modelled.
--   RecentMap: dht_scraper/bounded_recent_map.py, `remember`, on an ordered dict as a list of pairs with
--     the oldest key first.
--   PeerWire: dht_scraper/peer_wire_messages.py, in Messages.antt: handshakes, frames, the extended
--     handshake, metadata requests and pieces.
--   Utp: dht_scraper/utp_transport.py. Packets.antt has the packets, Connection.antt one outgoing
--     `UtpConnection` as a record, its methods as functions on it, with the clock as an argument.
--   Catalog: dht_scraper/torrent_catalog.py. Entries.antt has `TorrentEntry`, Store.antt the entries as
--     objects on a heap, because queues and snapshots share them with the dict of entries; State.antt
--     the fields of `TorrentCatalog` and its `_locked` helpers, Eviction.antt `_evict_locked`,
--     Operations.antt, Indexing.antt and Reports.antt the public methods.
--   Krpc: dht_scraper/krpc_messages.py. Addresses.antt has the compact addresses, nodes and samples, and
--     the ids of dht_scraper/node_identity.py that need no random bytes; Messages.antt the builders, as dicts
--     of the bencode model, the readers, tokens, compact peers and `is_routable_address`. The library's
--     texts of addresses (socket.inet_ntop and so on) are the record `Inet`, with its laws; hmac and
--     ipaddress.IPv6Address are functions that the definitions take.
--   Lookup: dht_scraper/dht_lookup.py. State.antt has the fields of `LookupManager` and `PeerLookup`,
--     Operations.antt the rounds of a lookup up to `tick` and `abort_all`, Handlers.antt `start_lookup`,
--     `handle_response` and `handle_error`; Closest.antt has `select_closest_nodes`. The callbacks are a
--     list of events. A method works on a lookup and its manager side by side, and writes the lookup
--     back where `active` refers to it. Rounds.antt and Answers.antt carry a predicate through all
--     methods, from the steps that keep it.
--   Fetcher: dht_scraper/metadata_fetcher.py. Stream.antt has a connection to a peer, whose bytes to come
--     bear the time of their arrival, and the effects of a session: it reads, writes, and ends with a value
--     or an exception. Session.antt has the steps of a session up to `run_session` and `fetch_metadata`;
--     SHA-1 is a function that they take, and what the sockets do when a connection is opened an argument.
--   Summary: dht_scraper/torrent_info_summary.py, `summarize_info_dict`, in Summary.antt. Magnet:
--     dht_scraper/magnet_link.py. The decoding of broken UTF-8, str.lower and percent encoding are
--     functions that they take.
--   Crawler: dht_scraper/dht_crawler.py. Crawler.antt has `allow_send`, `send_message`, `record_hash` and
--     `handle_announce_peer_query`, over the models of KRPC and the catalog.
--   Common: the lists, byte strings, decimal numbers and results that the parts share.
--
-- How the source is read: `bytes` and texts of ASCII are lists of numbers; an exception is the `err` of a
-- `Result`; an assertion that guards an argument is a hypothesis where a theorem needs it; a method of an
-- object takes the object's state and returns it; times are whole numbers of one clock. A count that the
-- source decreases is a natural number, which stops at 0.
--
-- Times of lookups are in thousandths of a second, and their tokens in thousandths of a query, both exact,
-- where the source has floating-point numbers.
--
-- Fuel: `decode_value` gives `decode_value_at` twice the length of the input and one, as two nested calls
-- take a byte at least. `skip_extensions` gets the length of the input and one, as each extension takes two bytes.
-- `send_parts` gets the length of what is sent, as each part takes a byte at least, and `slices` the length
-- of the input, for the same reason. `deliver_following` gets the number of packets in the buffer, as each
-- round takes one out, and `drain_counters` the number of queued counters. `extended_loop` and `piece_loop`
-- get one more than the bytes to come, as a round takes a byte at least; `transfer_loop` the number of
-- pieces, as a round receives one, and `request_window` PIECE_WINDOW, as a round asks for one.
--
-- Not modelled: the event loop, threads, sockets and files, the database and the web pages (I/O); the
-- lock of the catalog, which makes each method one step, and the assertion `_assert_invariants_locked`, which
-- ends its methods; the reports of the catalog and of the lookups that
-- only render; the assertions of a session that restate types; the crawler's other handlers and its steps,
-- the fetch engine, and the encrypted streams.
pub mod Common
pub mod Bencode
pub mod PeerWire
pub mod RecentMap
pub mod Utp
pub mod Catalog
pub mod Krpc
pub mod Lookup
pub mod Fetcher
pub mod Crawler
pub mod Summary
pub mod Magnet
