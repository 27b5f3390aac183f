-- ===== src/PeerWire/Handshake.antt =====
-- The BitTorrent handshake of dht_scraper/peer_wire_messages.py, written and read.

use lif.Common.{
  drop-split, ◌<◌, [], ◌∷◌, ◌++◌, Bool, true, Bytes, bytes_eq, bytes_eq_self, bytes_eq→eq, length,
  length-append, length-take, length-drop, take, drop, take_left, take_all, drop_left, get_or, ok,
  ◌≡◌, refl, sym, ap, ◌∙◌, arith,
}
use lif.PeerWire.Messages.{
  node_id_length, handshake_length, protocol_name, reserved, encode_handshake, decode_handshake,
}

-- A handshake for a 20-byte info hash and peer id is 68 bytes, and decodes to them, with the
-- extension bit set.
pub decode_handshake-encode_handshake :
    (info_hash peer_id : Bytes)
    → length info_hash ≡ node_id_length
    → length peer_id ≡ node_id_length
    → (b : Bytes) × (encode_handshake info_hash peer_id ≡ ok b)
      × (length b ≡ handshake_length)
      × (decode_handshake b ≡ ok (info_hash, peer_id, true))
unfolding encode_handshake decode_handshake
decode_handshake-encode_handshake info_hash peer_id p q = (
  length protocol_name ∷ (protocol_name ++ (reserved ++ (info_hash ++ peer_id))),
  rw (p, q),
  omega (arith, length-append {0} info_hash peer_id),
  decoded,
)
  where
    both : length (info_hash ++ peer_id) ≡ 40
    both = omega (arith, length-append {0} info_hash peer_id)

    decoded :
        decode_handshake
          (length protocol_name ∷ (protocol_name ++ (reserved ++ (info_hash ++ peer_id))))
        ≡ ok (info_hash, peer_id, true)
    decoded = rw both (
        rw (bytes_eq_self protocol_name) (
          rw (
            take_left 20 info_hash peer_id p,
            drop_left 20 info_hash peer_id p,
            take_all 20 peer_id (omega arith),
          )))

accepted :
    (input info_hash peer_id : Bytes) (extended : Bool)
    → decode_handshake input ≡ ok (info_hash, peer_id, extended)
    → (length input ≡ handshake_length)
      × (get_or input 0 0 ≡ length protocol_name)
      × (bytes_eq (take 19 (drop 1 input)) protocol_name ≡ true)
      × (take 20 (drop 28 input) ≡ info_hash)
      × (take 20 (drop 48 input) ≡ peer_id)
unfolding decode_handshake
accepted input info_hash peer_id extended h = ground arith

head-drop : (input : Bytes) → 0 < length input → input ≡ get_or input 0 0 ∷ drop 1 input
head-drop [] h = absurd (omega arith)
head-drop (c ∷ input) h = refl

-- What is accepted is 68 bytes: the protocol's length and name, eight reserved bytes, then the info
-- hash and the peer id that are returned, of 20 bytes each.
pub decode_handshake_exact :
    (input info_hash peer_id : Bytes) (extended : Bool)
    → decode_handshake input ≡ ok (info_hash, peer_id, extended)
    → (flags : Bytes) × (input
        ≡ length protocol_name ∷ (protocol_name ++ (flags ++ (info_hash ++ peer_id))))
      × (length flags ≡ 8)
      × (length info_hash ≡ node_id_length)
      × (length peer_id ≡ node_id_length)
decode_handshake_exact input info_hash peer_id extended h =
    let (size, first, name, info, peer) = accepted input info_hash peer_id extended h in
    let last : drop 48 input ≡ peer_id =
      sym (take_all 20 (drop 48 input) (omega (arith, length-drop 48 input))) ∙ peer in
    let middle : drop 28 input ≡ info_hash ++ peer_id =
      drop-split 28 20 48 input refl ∙ rw (info, last) in
    let tail : drop 20 input ≡ take 8 (drop 20 input) ++ (info_hash ++ peer_id) =
      drop-split 20 8 28 input refl ∙ ap (λ r. take 8 (drop 20 input) ++ r) middle in
    let named : drop 1 input ≡ protocol_name ++ drop 20 input =
      drop-split 1 19 20 input refl ∙ ap (λ r. r ++ drop 20 input) (bytes_eq→eq _ _ name) in
    (
      take 8 (drop 20 input),
      head-drop input (omega arith)
          ∙ rw (first, named) (ap (λ r. length protocol_name ∷ (protocol_name ++ r)) tail),
      omega (arith, length-take 8 (drop 20 input), length-drop 20 input),
      omega (arith, ap length info, length-take 20 (drop 28 input), length-drop 28 input),
      omega (arith, ap length peer, length-take 20 (drop 48 input), length-drop 48 input),
    )
