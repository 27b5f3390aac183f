-- ===== src/Crawler/Announced.antt =====
-- `handle_announce_peer_query` of dht_scraper/dht_crawler.py: who is recorded, and how the call ends.
use lif.Common.{
  ℕ, ◌≤◌, ◌<◌, [], ◌∷◌, Bool, true, false, Option, none, some, Bytes, bytes_eq→eq, byte_string_eq,
  ascii, ltb, length, take, ◌>>=◌, Result, ok, Bool-cases, inl, inr, ◌≡◌, refl, sym, ap, arith,
}
use lif.Bencode.Values.{
  recursion_limit, Error, Value, null, bool, int, bytes, text, list, dict, other, Entries, get,
}
use lif.Bencode.Encode.{encode_bencode}
use lif.PeerWire.Messages.{node_id_length}
use lif.Catalog.Entries.{Peer, from_announce_peer}
use lif.Catalog.State.{Catalog}
use lif.Catalog.Operations as Operations
use lif.Krpc.Messages.{
  Ipv6, build_ping_response, build_error_response, make_token, read_announced_port,
  is_routable_address,
}
use lif.RecentMap.{find}
use lif.Krpc.Wire.{Sends}
use lif.Krpc.Wire.{read_announced_port_valid}
use lif.Krpc.Peers.{responses-Sends, protocol_error-Sends}
use lif.Crawler.{
  Crawler, open_window, count_packet, allow_in, allow_send, record_hash, count_announced,
  token_matches, valid_id, count_sent, send_allowed, send_message, routable_peer, announced_peer,
  reply_to_announcement, announce, handle_announced_hash, handle_announce_peer_query,
}

allow_in-catalog :
    (o : Option (ℕ × ℕ)) (ip : Bytes) (now : ℕ) (c : Crawler)
    → ((allow_in o ip now c).0).catalog ≡ c.catalog
unfolding open_window count_packet
allow_in-catalog none ip now c = refl
allow_in-catalog (some (start, count)) ip now c = ground arith

allow_send-catalog :
    (ip : Bytes) (now : ℕ) (c : Crawler) → (allow_send ip now c).0.catalog ≡ c.catalog
unfolding allow_send
allow_send-catalog ip now c = allow_in-catalog (find ip c.send_windows) ip now c

-- The call returns, and the catalog is then `catalog`.
pub data Ends (catalog : Catalog) : Result Error Crawler → Type 0 where
  ends : (c : Crawler) → c.catalog ≡ catalog → Ends catalog (ok c)

module _ (delivers : Bytes → Peer → Bool) where
  count_sent-Ends :
      (b : Bool) (c : Crawler) (catalog : Catalog)
      → c.catalog ≡ catalog
      → Ends catalog (ok (count_sent delivers b c))
  unfolding count_sent
  count_sent-Ends false c catalog h = ends c h
  count_sent-Ends true c catalog h = ends _ h

  send_allowed-Ends :
      (message : Value) (payload : Bytes) (address : Peer) (r : Crawler × Bool) (catalog : Catalog)
      → encode_bencode recursion_limit message ≡ ok payload
      → r.0.catalog ≡ catalog
      → Ends catalog (send_allowed delivers message address r)
  unfolding send_allowed
  send_allowed-Ends message payload address (c, false) catalog e h = ends _ h
  send_allowed-Ends message payload address (c, true) catalog e h =
      rw e (count_sent-Ends (delivers payload address) c catalog h)

  send_message-Ends :
      (message : Value) (payload : Bytes) (address : Peer) (now : ℕ) (c : Crawler)
      → encode_bencode recursion_limit message ≡ ok payload
      → Ends c.catalog (send_message delivers message address now c)
  unfolding send_message
  send_message-Ends message payload address now c e =
      send_allowed-Ends message payload address (allow_send address.0 now c) c.catalog e
        (allow_send-catalog address.0 now c)

  module _ (hmac_sha1 : Bytes → Bytes → Bytes) (ipv6_address : Bytes → Option Ipv6) where
    -- A peer is announced by its own address, with a routable port, and a valid token.
    pub record IsAnnounced (token : Bytes) (args : Entries) (address p : Peer) : Type 0 where
      pub authorized : get (ascii "token") args ≡ some (bytes token)
      pub host : p.0 ≡ address.0
      pub port_low : 0 < p.1
      pub port_high : p.1 ≤ 65535
      pub routable : is_routable_address ipv6_address p.0 p.1 ≡ true

    token_matches-bytes :
        (v : Option Value) (token : Bytes) → token_matches v token ≡ true → v ≡ some (bytes token)
    token_matches-bytes (some (bytes given)) token h =
        let same = bytes_eq→eq given token h in rw same
    token_matches-bytes none token h = absurd (cc h)
    token_matches-bytes (some null) token h = absurd (cc h)
    token_matches-bytes (some (bool b)) token h = absurd (cc h)
    token_matches-bytes (some (int z)) token h = absurd (cc h)
    token_matches-bytes (some (text t)) token h = absurd (cc h)
    token_matches-bytes (some (list xs)) token h = absurd (cc h)
    token_matches-bytes (some (dict es)) token h = absurd (cc h)
    token_matches-bytes (some other) token h = absurd (cc h)

    routable_peer-port :
        (ip : Bytes) (o : Option ℕ) (p : Peer)
        → routable_peer delivers hmac_sha1 ipv6_address ip o ≡ some p
        → (o ≡ some p.1) × (p.0 ≡ ip) × (is_routable_address ipv6_address p.0 p.1 ≡ true)
    unfolding routable_peer
    routable_peer-port ip none p e = absurd (cc e)
    routable_peer-port ip (some port) p e =
        elim (Bool-cases (is_routable_address ipv6_address ip port)) [
          | inl h ↦
              let same : some (ip, port) ≡ some p = rw h at e in
              let it : (ip, port) ≡ p = cc in
              (ap (λ (q : Peer). some q.1) it, ap (λ (q : Peer). q.0) (sym it), rw (← it) h)
          | inr h ↦ absurd (cc (rw h at e))
        ]

    announced_peer-IsAnnounced :
        (valid : Bool) (token : Bytes) (args : Entries) (address p : Peer)
        → valid ≡ token_matches (get (ascii "token") args) token
        → announced_peer delivers hmac_sha1 ipv6_address valid args address ≡ some p
        → IsAnnounced token args address p
    unfolding announced_peer
    announced_peer-IsAnnounced false token args address p v e =
        absurd (cc ((routable_peer-port address.0 none p e).0))
    announced_peer-IsAnnounced true token args address p v e =
        let (port, host, routable) =
          routable_peer-port address.0 (read_announced_port args address.1) p e in
        let bounds = read_announced_port_valid args address.1 p.1 port in
        record {
          authorized = token_matches-bytes (get (ascii "token") args) token (sym v);
          host = host;
          port_low = bounds.0;
          port_high = bounds.1;
          routable = routable;
        }

    send_built-Ends :
        (r : Result Error Value) (es : Entries) (address : Peer) (now : ℕ) (c : Crawler)
        → Sends r es
        → Ends c.catalog (r >>= λ m. send_message delivers m address now c)
    send_built-Ends r es address now c (m, b, built, encoded, decoded) =
        rw built (send_message-Ends m b address now c (encoded 991))

    reply_to_announcement-Ends :
        (token_valid : Bool) (transaction_id reply_id : Bytes) (address : Peer) (now : ℕ)
        (c : Crawler)
        → length reply_id ≡ node_id_length
        → Ends c.catalog (
            reply_to_announcement delivers hmac_sha1 ipv6_address token_valid transaction_id
              reply_id address now c)
    unfolding reply_to_announcement
    reply_to_announcement-Ends true transaction_id reply_id address now c l =
        send_built-Ends (build_ping_response transaction_id reply_id) _ address now c
          (responses-Sends true transaction_id reply_id (0 ∷ []) [] l refl).0
    reply_to_announcement-Ends false transaction_id reply_id address now c l =
        send_built-Ends (build_error_response transaction_id 203 (ascii "bad token")) _ address now
          c (protocol_error-Sends transaction_id (ascii "bad token"))

    -- Who is recorded: nobody, or a peer that `IsAnnounced`.
    pub data Recorded (token : Bytes) (args : Entries) (address : Peer) : Option Peer → Type 0 where
      nobody : Recorded token args address none
      somebody :
          (p : Peer) → IsAnnounced token args address p → Recorded token args address (some p)

    recorded :
        (valid : Bool) (token : Bytes) (args : Entries) (address : Peer) (o : Option Peer)
        → valid ≡ token_matches (get (ascii "token") args) token
        → announced_peer delivers hmac_sha1 ipv6_address valid args address ≡ o
        → Recorded token args address o
    recorded valid token args address none v e = nobody
    recorded valid token args address (some p) v e =
        somebody p (announced_peer-IsAnnounced valid token args address p v e)

    count_announced-catalog :
        (o : Option Peer) (c : Crawler) → (count_announced o c).catalog ≡ c.catalog
    unfolding count_announced
    count_announced-catalog none c = refl
    count_announced-catalog (some p) c = refl

    Ends-same : (x y : Catalog) (r : Result Error Crawler) → x ≡ y → Ends x r → Ends y r
    Ends-same x y r e h = rw (← e) h

    announce-Ends :
        (valid : Bool) (transaction_id reply_id : Bytes) (args : Entries) (info_hash : Bytes)
        (address : Peer) (moment now : ℕ) (c : Crawler)
        → length reply_id ≡ node_id_length
        → Ends
            (Operations.record_hash info_hash from_announce_peer
              (announced_peer delivers hmac_sha1 ipv6_address valid args address)
              moment
              c.catalog).0
            (announce delivers hmac_sha1 ipv6_address valid transaction_id reply_id args info_hash
              address moment now c)
    unfolding announce record_hash
    announce-Ends valid transaction_id reply_id args info_hash address moment now c l =
        let o = announced_peer delivers hmac_sha1 ipv6_address valid args address in
        let counted = count_announced-catalog o c in
        Ends-same _ _ _
          (ap (λ x. (Operations.record_hash info_hash from_announce_peer o moment x).0) counted)
          (reply_to_announcement-Ends valid transaction_id reply_id address now _ l)

    -- What the query of an announcement does: an info hash that is not 20 bytes changes nothing of the
    -- catalog; another is recorded, with a peer that is `Recorded`. Either way the call returns.
    pub data Announcement (token : Bytes) (args : Entries) (address : Peer) (moment : ℕ)
        (c : Crawler) (r : Result Error Crawler) : Type 0 where
      refused :
          valid_id (get (ascii "info_hash") args) ≡ none
          → Ends c.catalog r
          → Announcement token args address moment c r
      accepted :
          (info_hash : Bytes) (o : Option Peer)
          → valid_id (get (ascii "info_hash") args) ≡ some info_hash
          → Recorded token args address o
          → Ends (Operations.record_hash info_hash from_announce_peer o moment c.catalog).0 r
          → Announcement token args address moment c r

    handle_announced_hash-Announcement :
        (o : Option Bytes) (transaction_id reply_id : Bytes) (args : Entries) (address : Peer)
        (moment now : ℕ) (c : Crawler) (token : Bytes)
        → valid_id (get (ascii "info_hash") args) ≡ o
        → length reply_id ≡ node_id_length
        → make_token hmac_sha1 c.token_secret address.0 ≡ ok token
        → Announcement token args address moment c (
            handle_announced_hash delivers hmac_sha1 ipv6_address o transaction_id reply_id args
              address moment now c)
    unfolding handle_announced_hash
    handle_announced_hash-Announcement none transaction_id reply_id args address moment now c token
          v l t =
        refused v (
          send_built-Ends (build_error_response transaction_id 203 (ascii "invalid info_hash")) _
            address now c (protocol_error-Sends transaction_id (ascii "invalid info_hash")))
    handle_announced_hash-Announcement (some h) transaction_id reply_id args address moment now c
          token v l t =
        let valid = token_matches (get (ascii "token") args) token in
        rw t (
          accepted h _ v (recorded valid token args address _ refl refl)
            (announce-Ends valid transaction_id reply_id args h address moment now c l))

    -- From a port of 16 bits, with a reply id of 20 bytes and a token secret that is not empty, an announce_peer query returns and
    -- is an `Announcement`: without an info hash of 20 bytes the catalog is unchanged; with one, the hash is
    -- recorded, and with a peer only if the token given is the one made for the sender's address, the peer's
    -- host is that address, its port is from 1 to 65535, and the two are routable.
    pub handle_announce_peer_query-Announcement :
        (transaction_id reply_id : Bytes) (args : Entries) (address : Peer) (moment now : ℕ)
        (c : Crawler)
        → address.1 ≤ 65535
        → length reply_id ≡ node_id_length
        → ltb 0 (length c.token_secret) ≡ true
        → Announcement (take 8 (hmac_sha1 c.token_secret address.0)) args address moment c (
            handle_announce_peer_query delivers hmac_sha1 ipv6_address transaction_id reply_id args
              address moment now c)
    unfolding handle_announce_peer_query make_token
    handle_announce_peer_query-Announcement transaction_id reply_id args address moment now c port l
          secret =
        rw l (
          handle_announced_hash-Announcement (valid_id (get (ascii "info_hash") args))
            transaction_id reply_id args address moment now c _ refl l (rw secret refl))
