-- ===== src/Krpc/Peers.antt =====
-- Compact peers (the `values` of a get_peers response), and the tokens and responses of the crawler.
use lif.Common.{
  pos, ℕ, ◌<◌, arith, List, [], ◌∷◌, Bool, true, false, some, Bytes, bytes_eq, bytes_lt, ascii,
  length, ltb, All, Result, ok, if◌then◌else◌, ◌≡◌, refl, ap, ◌∙◌,
}
use lif.Bencode.Values.{
  in_call, max_str_digits, Error, Value, bytes, list, dict, Items, no_items, item, Entries,
  no_entries, entry, bytes_key,
}
use lif.Bencode.Encode.{
  encode_int, encode_bencode, encode_dict, keys_allowed, normalize_keys, sort_pairs, insert_pair,
  put_pair, join_pairs,
}
use lif.Bencode.Wire.{
  items, next_item, none_left, number, AreSorted, entries, string, next_entry, empty, above,
}
use lif.PeerWire.Messages.{node_id_length}
use lif.Krpc.Addresses.{Inet}
use lif.Krpc.Nodes.{IsAddress, Wire, encode_compact_address-Wire}
use lif.Krpc.Messages.{
  build_error_response, error_items, response, id_and, nodes_key, nodes6_key, encode_compact_peers,
  decode_compact_peers, decode_compact_items, join_peer, build_ping_response,
  build_find_node_response, build_get_peers_response,
}
use lif.Krpc.Wire.{Same, Sends, sends, id_and-AreSorted}
use lif.Bencode.Scalars.{small_int}

module _ (inet : Inet) where
  -- A peer of either family.
  abbrev pub IsPeer : Bytes × ℕ → Type 0
  IsPeer (ip, port) = (v6 : Bool) × IsAddress inet v6 ip port

  decode_compact_items-Wire :
      (v6 : Bool) (ip : Bytes) (port : ℕ) (w : Wire inet v6 ip port) (xs : Items)
      → decode_compact_items inet (item (bytes w.wire) xs)
        ≡ (ip, port) ∷ decode_compact_items inet xs
  unfolding decode_compact_items
  decode_compact_items-Wire false ip port w xs =
      let six : length w.wire ≡ 6 = w.wire_length in rw (six, w.decoded) refl
  decode_compact_items-Wire true ip port w xs =
      let eighteen : length w.wire ≡ 18 = w.wire_length in rw (eighteen, w.decoded) refl

  -- Peers of both families, whose texts are those that the library prints and whose ports are below
  -- 2^16, are encoded, and decode to themselves in their order.
  pub decode_compact_peers-encode_compact_peers :
      (peers : List (Bytes × ℕ))
      → All IsPeer peers
      → (xs : Items) × (encode_compact_peers inet peers ≡ some xs)
        × (decode_compact_peers inet (some (list xs)) ≡ peers)
  unfolding encode_compact_peers decode_compact_peers join_peer decode_compact_items
  decode_compact_peers-encode_compact_peers [] a = (no_items, refl, refl)
  decode_compact_peers-encode_compact_peers ((ip, port) ∷ peers) a =
      let w = encode_compact_address-Wire inet a.0.0 ip port a.0.1 in
      let (xs, encoded, decoded) = decode_compact_peers-encode_compact_peers peers a.1 in
      (
        item (bytes w.wire) xs,
        rw (w.encoded, encoded) refl,
        decode_compact_items-Wire a.0.0 ip port w xs ∙ ap (λ l. (ip, port) ∷ l) decoded,
      )

-- {b"r": values, b"t": transaction_id, b"y": b"r"}
abbrev pub sorted_response : Bytes → Entries → Entries
sorted_response transaction_id values = entry (bytes_key (ascii "r")) (dict values) (
    entry (bytes_key (ascii "t")) (bytes transaction_id)
      (entry (bytes_key (ascii "y")) (bytes (ascii "r")) no_entries))

abbrev pub family_key : Bool → Bytes
family_key v6 = if v6 then nodes6_key else nodes_key

-- {b"id": node_id, key: compact_nodes, b"token": token}
abbrev pub sorted_peers : Bytes → Bytes → Bytes → Bytes → Entries
sorted_peers node_id token compact_nodes key = entry (bytes_key (ascii "id")) (bytes node_id) (
    entry (bytes_key key) (bytes compact_nodes)
      (entry (bytes_key (ascii "token")) (bytes token) no_entries))

response-AreSorted :
    (transaction_id : Bytes) (values : Entries)
    → AreSorted 2 values
    → AreSorted 5 (sorted_response transaction_id values)
unfolding above bytes_lt
response-AreSorted transaction_id values s =
    next_entry (entries s) refl
      (next_entry (string transaction_id) refl (next_entry (string (ascii "r")) refl empty))

peers-AreSorted :
    (v6 : Bool) (node_id token compact_nodes : Bytes)
    → AreSorted 2 (sorted_peers node_id token compact_nodes (family_key v6))
unfolding above bytes_lt
peers-AreSorted false node_id token compact_nodes =
    next_entry (string node_id) refl
      (next_entry (string compact_nodes) refl (next_entry (string token) refl empty))
peers-AreSorted true node_id token compact_nodes =
    next_entry (string node_id) refl
      (next_entry (string compact_nodes) refl (next_entry (string token) refl empty))

-- {b"id": node_id, b"token": token, key: compact_nodes}
abbrev id_token : Bytes → Bytes → Bytes → Bytes → Entries
id_token node_id token compact_nodes key = entry (bytes_key (ascii "id")) (bytes node_id) (
    entry (bytes_key (ascii "token")) (bytes token)
      (entry (bytes_key key) (bytes compact_nodes) no_entries))

response-Sends :
    (r : Result Error Value) (transaction_id : Bytes) (values sorted : Entries)
    → r ≡ ok (response transaction_id values)
    → Same (response transaction_id values) (dict (sorted_response transaction_id sorted))
    → AreSorted 2 sorted
    → Sends r (sorted_response transaction_id sorted)
response-Sends r transaction_id values sorted h e s =
    sends r (response transaction_id values) (sorted_response transaction_id sorted) h e
      (response-AreSorted transaction_id sorted s)

-- From an id of 20 bytes and a token that is not empty, the responses to ping, find_node and get_peers are
-- encoded, and decode to a dict, in the order of its keys, of the values, the transaction id and the type.
pub responses-Sends :
    (v6 : Bool) (transaction_id node_id token compact_nodes : Bytes)
    → length node_id ≡ node_id_length
    → ltb 0 (length token) ≡ true
    → Sends
        (build_ping_response transaction_id node_id)
        (sorted_response transaction_id (entry (bytes_key (ascii "id")) (bytes node_id) no_entries))
      × Sends
          (build_find_node_response transaction_id node_id compact_nodes (family_key v6))
          (sorted_response transaction_id (id_and node_id (family_key v6) compact_nodes))
      × Sends
          (build_get_peers_response transaction_id node_id token compact_nodes (family_key v6))
          (sorted_response transaction_id
            (sorted_peers node_id token compact_nodes (family_key v6)))
unfolding build_ping_response build_find_node_response build_get_peers_response above bytes_eq
    bytes_lt in_call encode_int encode_bencode encode_dict keys_allowed normalize_keys sort_pairs
    insert_pair put_pair join_pairs
responses-Sends v6 transaction_id node_id token compact_nodes h k = (
  response-Sends (build_ping_response transaction_id node_id) transaction_id only_id only_id
      (rw h refl) (λ n. refl) (next_entry (string node_id) refl empty),
  nodes_sent v6,
  peers_sent v6,
)
  where
    only_id : Entries
    only_id = entry (bytes_key (ascii "id")) (bytes node_id) no_entries

    nodes_sent :
        (six : Bool)
        → Sends
            (build_find_node_response transaction_id node_id compact_nodes (family_key six))
            (sorted_response transaction_id (id_and node_id (family_key six) compact_nodes))
    nodes_sent false =
        let values = id_and node_id nodes_key compact_nodes in
        response-Sends (build_find_node_response transaction_id node_id compact_nodes nodes_key)
          transaction_id values values (rw h refl) (λ n. refl)
          (id_and-AreSorted node_id nodes_key compact_nodes refl)
    nodes_sent true =
        let values = id_and node_id nodes6_key compact_nodes in
        response-Sends (build_find_node_response transaction_id node_id compact_nodes nodes6_key)
          transaction_id values values (rw h refl) (λ n. refl)
          (id_and-AreSorted node_id nodes6_key compact_nodes refl)

    peers_sent :
        (six : Bool)
        → Sends
            (build_get_peers_response transaction_id node_id token compact_nodes (family_key six))
            (sorted_response transaction_id
              (sorted_peers node_id token compact_nodes (family_key six)))
    peers_sent false =
        response-Sends
          (build_get_peers_response transaction_id node_id token compact_nodes nodes_key)
          transaction_id (id_token node_id token compact_nodes nodes_key)
          (sorted_peers node_id token compact_nodes nodes_key) (rw (h, k) refl) (λ n. refl)
          (peers-AreSorted false node_id token compact_nodes)
    peers_sent true =
        response-Sends
          (build_get_peers_response transaction_id node_id token compact_nodes nodes6_key)
          transaction_id (id_token node_id token compact_nodes nodes6_key)
          (sorted_peers node_id token compact_nodes nodes6_key) (rw (h, k) refl) (λ n. refl)
          (peers-AreSorted true node_id token compact_nodes)

-- {b"e": [code, text], b"t": transaction_id, b"y": b"e"}
abbrev pub sorted_error : Bytes → ℕ → Bytes → Entries
sorted_error transaction_id code reason =
    entry (bytes_key (ascii "e")) (list (error_items code reason)) (
      entry (bytes_key (ascii "t")) (bytes transaction_id)
        (entry (bytes_key (ascii "y")) (bytes (ascii "e")) no_entries))

error-AreSorted :
    (transaction_id : Bytes) (code : ℕ) (reason : Bytes)
    → code < max_str_digits
    → AreSorted 5 (sorted_error transaction_id code reason)
unfolding above bytes_lt
error-AreSorted transaction_id code reason h =
    next_entry
      (items
        (next_item (number (pos code) (small_int code h)) (next_item (string reason) none_left)))
      refl (next_entry (string transaction_id) refl (next_entry (string (ascii "e")) refl empty))

pub protocol_error-Sends :
    (transaction_id reason : Bytes)
    → Sends
        (build_error_response transaction_id 203 reason)
        (sorted_error transaction_id 203 reason)
unfolding build_error_response bytes_eq bytes_lt in_call encode_int encode_bencode encode_dict
    keys_allowed normalize_keys sort_pairs insert_pair put_pair join_pairs
protocol_error-Sends transaction_id reason =
    sends (build_error_response transaction_id 203 reason)
      (dict (
        entry (bytes_key (ascii "t")) (bytes transaction_id) (
          entry (bytes_key (ascii "y")) (bytes (ascii "e"))
            (entry (bytes_key (ascii "e")) (list (error_items 203 reason)) no_entries))))
      (sorted_error transaction_id 203 reason) refl (λ n. refl)
      (error-AreSorted transaction_id 203 reason (omega arith))
