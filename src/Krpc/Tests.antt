-- ===== src/Krpc/Tests.antt =====
-- Runs of the compact forms, and the theorems at inputs.
use lif.Common.{
  ℕ, ascii, pos, not, bytes_eq, parse_nat, ◌+◌, [], ◌∷◌, ◌++◌, true, false, some, Bytes, replicate,
  ◌≡◌, ◌≢◌, refl, arith,
}
use lif.Krpc.Addresses.{
  Node, encode_compact_nodes, decode_compact_nodes, decode_samples, is_global_ipv4,
  lookup_transaction_id,
}
use lif.Bencode.Values.{int, bytes, list, Items, Entries, no_entries, entry, bytes_key, get}
use lif.Krpc.Plain.{plain}
use lif.Krpc.Messages.{
  id_and, build_find_node_query, build_get_peers_query, build_sample_infohashes_query,
  build_ping_response, build_find_node_response, build_get_peers_response, is_implied, valid_port,
  read_announced_port, encode_compact_peers, decode_compact_peers, split_dots, parts_routable,
  is_digits,
}
use lif.Krpc.Wire.{Sends, sorted_query, queries-Sends}
use lif.Krpc.Special.{address, in_any, special_blocks, is_global_ipv4-in_any}
use lif.Krpc.Peers.{
  sorted_response, family_key, sorted_peers, responses-Sends,
  decode_compact_peers-encode_compact_peers,
}
use lif.Krpc.Slices.{concat, decode_samples-concat}
use lif.Krpc.Nodes.{IsNode, node_length, decode_compact_nodes-encode_compact_nodes}
use lif.Krpc.Ids.{lookup_transaction_id_distinct}

abbrev node : Node
node = (replicate 20 7, (256 + 8) ∷ (256 + 8) ∷ (256 + 4) ∷ 256 ∷ [], 6881)

node-IsNode : IsNode plain false node
node-IsNode = (
  refl,
  record { packed = 8 ∷ 8 ∷ 4 ∷ 0 ∷ []; size = refl; printed = refl; port_fits = omega arith },
)

decode_compact_nodes-encode_compact_nodes_example :
    (b : Bytes) × (encode_compact_nodes plain (node ∷ node ∷ []) ≡ some b)
    × (decode_compact_nodes plain (node_length plain false) b ≡ node ∷ node ∷ [])
decode_compact_nodes-encode_compact_nodes_example =
    decode_compact_nodes-encode_compact_nodes plain false (node ∷ node ∷ [])
      (node-IsNode, (node-IsNode, tt))

decode_samples-concat_example :
    decode_samples (concat (replicate 20 1 ∷ replicate 20 2 ∷ []) ++ 3 ∷ [])
    ≡ replicate 20 1 ∷ replicate 20 2 ∷ []
decode_samples-concat_example =
    decode_samples-concat (replicate 20 1 ∷ replicate 20 2 ∷ []) (3 ∷ []) (refl, (refl, tt))
      (omega arith)

lookup_transaction_id_distinct_example :
    lookup_transaction_id 16_777_215 ≢ lookup_transaction_id 16_777_216
lookup_transaction_id_distinct_example =
    lookup_transaction_id_distinct 16_777_215 16_777_216 (omega arith) (omega arith)

google : is_global_ipv4 8 8 8 ≡ true
unfolding is_global_ipv4
google = refl

shared_space : is_global_ipv4 100 127 0 ≡ false
unfolding is_global_ipv4
shared_space = refl

queries-Sends_example :
    Sends (build_find_node_query (1 ∷ 2 ∷ []) (replicate 20 1) (replicate 20 2)) (
      sorted_query
        (1 ∷ 2 ∷ [])
        (ascii "find_node")
        (id_and (replicate 20 1) (ascii "target") (replicate 20 2)))
    × Sends (build_get_peers_query (1 ∷ 2 ∷ []) (replicate 20 1) (replicate 20 2)) (
        sorted_query
          (1 ∷ 2 ∷ [])
          (ascii "get_peers")
          (id_and (replicate 20 1) (ascii "info_hash") (replicate 20 2)))
    × Sends (build_sample_infohashes_query (1 ∷ 2 ∷ []) (replicate 20 1) (replicate 20 2)) (
        sorted_query
          (1 ∷ 2 ∷ [])
          (ascii "sample_infohashes")
          (id_and (replicate 20 1) (ascii "target") (replicate 20 2)))
queries-Sends_example = queries-Sends (1 ∷ 2 ∷ []) (replicate 20 1) (replicate 20 2) refl refl

responses-Sends_example :
    Sends (build_ping_response (1 ∷ []) (replicate 20 1)) (
      sorted_response (1 ∷ []) (entry (bytes_key (ascii "id")) (bytes (replicate 20 1)) no_entries))
    × Sends
        (build_find_node_response (1 ∷ []) (replicate 20 1) [] (family_key true))
        (sorted_response (1 ∷ []) (id_and (replicate 20 1) (family_key true) []))
    × Sends
        (build_get_peers_response (1 ∷ []) (replicate 20 1) (9 ∷ []) [] (family_key true))
        (sorted_response (1 ∷ []) (sorted_peers (replicate 20 1) (9 ∷ []) [] (family_key true)))
responses-Sends_example = responses-Sends true (1 ∷ []) (replicate 20 1) (9 ∷ []) [] refl refl

abbrev announcement : Entries
announcement =
    entry (bytes_key (ascii "implied_port")) (int (pos 1))
      (entry (bytes_key (ascii "port")) (int (pos 80)) no_entries)

announced : read_announced_port announcement 6881 ≡ some 6881
unfolding read_announced_port is_implied valid_port get bytes_eq
announced = refl

is_global_ipv4-in_any_example :
    is_global_ipv4 172 31 255 ≡ not (in_any (address 172 31 255 9) special_blocks)
is_global_ipv4-in_any_example =
    is_global_ipv4-in_any 172 31 255 9 (omega arith) (omega arith) (omega arith) (omega arith)

abbrev peer : Bytes × ℕ
peer = ((256 + 8) ∷ (256 + 8) ∷ (256 + 4) ∷ 256 ∷ [], 6881)

decode_compact_peers-encode_compact_peers_example :
    (xs : Items) × (encode_compact_peers plain (peer ∷ (58 ∷ replicate 16 5, 1) ∷ []) ≡ some xs)
    × (decode_compact_peers plain (some (list xs)) ≡ peer ∷ (58 ∷ replicate 16 5, 1) ∷ [])
decode_compact_peers-encode_compact_peers_example =
    decode_compact_peers-encode_compact_peers plain (peer ∷ (58 ∷ replicate 16 5, 1) ∷ []) (
      (false, node-IsNode.1),
      (
        (
          true,
          record { packed = replicate 16 5; size = refl; printed = refl; port_fits = omega arith },
        ),
        tt,
      ),
    )

-- The text of an address is read back to its octets.
routable : parts_routable (split_dots [] (ascii "8.8.4.4")) ≡ true
unfolding split_dots parts_routable is_digits parse_nat is_global_ipv4
routable = refl

private_text : parts_routable (split_dots [] (ascii "192.168.1.1")) ≡ false
unfolding split_dots parts_routable is_digits parse_nat is_global_ipv4
private_text = refl
