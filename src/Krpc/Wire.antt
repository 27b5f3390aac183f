-- ===== src/Krpc/Wire.antt =====
-- What a KRPC message of the builders is on the wire, and what the readers make of a message.
use lif.Common.{
  ℕ, suc, ◌<◌, ◌≤◌, true, false, some, Bytes, bytes_eq, bytes_lt, ascii, length, pos, Result, ok,
  ◌≡◌, ◌⊎◌, refl, ◌∙◌, arith,
}
use lif.Bencode.Values.{
  in_call, Error, Value, int, bytes, dict, Entries, no_entries, entry, bytes_key, get,
}
use lif.Bencode.Encode.{
  encode_bencode, encode_dict, keys_allowed, normalize_keys, sort_pairs, insert_pair, put_pair,
  join_pairs,
}
use lif.Bencode.Decode.{decode_bencode}
use lif.Bencode.Wire.{
  encode_bencode-wire, wire, IsCanonical, AreSorted, entries, string, next_entry, empty, above,
}
use lif.Bencode.RoundTrip.{decode_bencode-wire}
use lif.PeerWire.Messages.{node_id_length}
use lif.Krpc.Messages.{
  query, id_and, build_find_node_query, build_get_peers_query, build_sample_infohashes_query,
  is_implied, valid_port, read_announced_port,
}

-- {b"a": {b"id": node_id, key: value}, b"q": name, b"t": transaction_id, b"y": b"q"}
abbrev pub sorted_query : Bytes → Bytes → Entries → Entries
sorted_query transaction_id name args = entry (bytes_key (ascii "a")) (dict args) (
    entry (bytes_key (ascii "q")) (bytes name) (
      entry (bytes_key (ascii "t")) (bytes transaction_id)
        (entry (bytes_key (ascii "y")) (bytes (ascii "q")) no_entries)))

-- Nine frames and any more: as many as the messages here need.
abbrev pub enough : ℕ → ℕ
enough n = suc (suc (suc (suc (suc (suc (suc (suc (suc n))))))))

-- The two dicts have one encoding.
abbrev pub Same : Value → Value → Type 0
Same v w = (n : ℕ) → encode_bencode (enough n) v ≡ encode_bencode (enough n) w

query-sorted :
    (transaction_id name : Bytes) (args : Entries)
    → Same (query transaction_id name args) (dict (sorted_query transaction_id name args))
unfolding in_call encode_bencode encode_dict keys_allowed normalize_keys sort_pairs insert_pair
    put_pair join_pairs bytes_lt bytes_eq
query-sorted transaction_id name args n = refl

-- What a builder returns is encoded without an error, and decodes to the dict `es`, on any stack with nine
-- frames at least.
abbrev pub Sends : Result Error Value → Entries → Type 0
Sends r es =
    (m : Value) × (b : Bytes) × (r ≡ ok m)
    × ((n : ℕ) → encode_bencode (enough n) m ≡ ok b)
    × ((n : ℕ) → decode_bencode (enough n) b ≡ ok (dict es))

pub sends :
    (r : Result Error Value) (m : Value) (es : Entries)
    → r ≡ ok m
    → Same m (dict es)
    → AreSorted 5 es
    → Sends r es
sends r m es h e s =
    let c : IsCanonical 8 (dict es) = entries s in
    (
      m,
      wire (dict es),
      h,
      λ n. e n ∙ encode_bencode-wire (enough n) c (omega arith),
      λ n. decode_bencode-wire (enough n) c (omega arith),
    )

pub id_and-AreSorted :
    (node_id key value : Bytes)
    → bytes_lt (ascii "id") key ≡ true
    → AreSorted 2 (id_and node_id key value)
unfolding above
id_and-AreSorted node_id key value h =
    next_entry (string node_id) (rw h refl) (next_entry (string value) refl empty)

query-AreSorted :
    (transaction_id name : Bytes) (args : Entries)
    → AreSorted 2 args
    → AreSorted 5 (sorted_query transaction_id name args)
unfolding above bytes_lt
query-AreSorted transaction_id name args s = next_entry (entries s) refl (
    next_entry (string name) refl
      (next_entry (string transaction_id) refl (next_entry (string (ascii "q")) refl empty)))

query-Sends :
    (r : Result Error Value) (transaction_id name node_id key value : Bytes)
    → r ≡ ok (query transaction_id name (id_and node_id key value))
    → bytes_lt (ascii "id") key ≡ true
    → Sends r (sorted_query transaction_id name (id_and node_id key value))
query-Sends r transaction_id name node_id key value h l =
    let args = id_and node_id key value in
    sends r (query transaction_id name args) (sorted_query transaction_id name args) h
      (query-sorted transaction_id name args)
      (query-AreSorted transaction_id name args (id_and-AreSorted node_id key value l))

-- From ids of 20 bytes, each query that the crawler builds is encoded, with any stack of nine frames or
-- more, and decodes, with any such stack, to a dict, in the order of its keys, of the arguments, the query's name, the transaction id and the message type.
pub queries-Sends :
    (transaction_id node_id target : Bytes)
    → length node_id ≡ node_id_length
    → length target ≡ node_id_length
    → Sends
        (build_find_node_query transaction_id node_id target)
        (sorted_query transaction_id (ascii "find_node") (id_and node_id (ascii "target") target))
      × Sends (build_get_peers_query transaction_id node_id target) (
          sorted_query transaction_id
            (ascii "get_peers")
            (id_and node_id (ascii "info_hash") target))
      × Sends (build_sample_infohashes_query transaction_id node_id target) (
          sorted_query transaction_id
            (ascii "sample_infohashes")
            (id_and node_id (ascii "target") target))
unfolding build_find_node_query build_get_peers_query build_sample_infohashes_query bytes_lt
queries-Sends transaction_id node_id target h k = (
  query-Sends _ transaction_id (ascii "find_node") node_id (ascii "target") target (rw (h, k) refl)
      refl,
  query-Sends _ transaction_id (ascii "get_peers") node_id (ascii "info_hash") target
      (rw (h, k) refl) refl,
  query-Sends _ transaction_id (ascii "sample_infohashes") node_id (ascii "target") target
      (rw (h, k) refl) refl,
)

-- The port that an announcement gives is from 1 to 65535: the source's own when `implied_port` is
-- an integer that is not 0, and otherwise the one that the arguments hold.
pub read_announced_port_valid :
    (args : Entries) (source_port port : ℕ)
    → read_announced_port args source_port ≡ some port
    → (0 < port)
      × (port ≤ 65535)
      × (((is_implied (get (ascii "implied_port") args) ≡ true) × (port ≡ source_port))
          ⊎ ((is_implied (get (ascii "implied_port") args) ≡ false)
              × (get (ascii "port") args ≡ some (int (pos port)))))
unfolding read_announced_port valid_port
read_announced_port_valid args source_port port h = ground arith
