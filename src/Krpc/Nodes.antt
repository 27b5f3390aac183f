-- ===== src/Krpc/Nodes.antt =====
-- Compact nodes (dht_scraper/krpc_messages.py) on the wire.
use lif.Common.{
  ℕ, ◌+◌, ◌^◌, ◌≤◌, ◌<◌, List, [], ◌∷◌, ◌++◌, Bool, true, false, some, Bytes, be16, from_be-be16,
  length, map, if◌then◌else◌, ◌≡◌, refl, sym, ◌∙◌, ap, arith, All, length-append, take_left,
  drop_left, append-nil, append_assoc,
}
use lif.PeerWire.Messages.{node_id_length}
use lif.Krpc.Addresses.{
  Inet, Node, slices, encode_compact_address, decode_compact_address, join_node,
  encode_compact_nodes, decode_node, decode_compact_nodes, compact_node_length,
  compact_node6_length,
}
use lif.Krpc.Slices.{concat, slices-concat}

module _ (inet : Inet) where
  -- The text is what the library prints for an address of the family.
  pub record IsAddress (v6 : Bool) (ip : Bytes) (port : ℕ) : Type 0 where
    pub packed : Bytes
    pub size : length packed ≡ (if v6 then 16 else 4)
    pub printed : ip ≡ (if v6 then inet.inet_ntop6 packed else inet.inet_ntoa packed)
    pub port_fits : port < 2 ^ 16

  -- An address on the wire.
  pub record Wire (v6 : Bool) (ip : Bytes) (port : ℕ) : Type 0 where
    pub wire : Bytes
    pub encoded : encode_compact_address inet ip port ≡ some wire
    pub wire_length : length wire ≡ (if v6 then 18 else 6)
    pub decoded : decode_compact_address inet wire ≡ (ip, port)

  length-be16 : (n : ℕ) → length (be16 n) ≡ 2
  unfolding be16
  length-be16 n = refl

  pub encode_compact_address-Wire :
      (v6 : Bool) (ip : Bytes) (port : ℕ) → IsAddress v6 ip port → Wire v6 ip port
  unfolding encode_compact_address decode_compact_address
  encode_compact_address-Wire false ip port a =
      let printed : ip ≡ inet.inet_ntoa a.packed = a.printed in
      let total = length-append {0} a.packed (be16 port) in
      let long : length (a.packed ++ be16 port) ≡ 6 =
        omega (arith, total, a.size, length-be16 port) in
      record {
        wire = a.packed ++ be16 port;
        encoded =
            rw
              (
                printed,
                inet.colon-ntoa a.packed a.size,
                inet.aton-ntoa a.packed a.size,
                encode_compact_address,
              )
              refl;
        wire_length = long;
        decoded =
            rw
              (
                long,
                take_left 4 a.packed (be16 port) a.size,
                drop_left 4 a.packed (be16 port) a.size,
                from_be-be16 port a.port_fits,
                printed,
              )
              refl;
      }
  encode_compact_address-Wire true ip port a =
      let printed : ip ≡ inet.inet_ntop6 a.packed = a.printed in
      let total = length-append {0} a.packed (be16 port) in
      let long : length (a.packed ++ be16 port) ≡ 18 =
        omega (arith, total, a.size, length-be16 port) in
      record {
        wire = a.packed ++ be16 port;
        encoded =
            rw
              (
                printed,
                inet.colon-ntop6 a.packed a.size,
                inet.pton6-ntop6 a.packed a.size,
                encode_compact_address,
              )
              refl;
        wire_length = long;
        decoded =
            rw
              (
                long,
                take_left 16 a.packed (be16 port) a.size,
                drop_left 16 a.packed (be16 port) a.size,
                from_be-be16 port a.port_fits,
                printed,
              )
              refl;
      }

  abbrev pub IsNode : Bool → Node → Type 0
  IsNode v6 (node_id, ip, port) = (length node_id ≡ node_id_length) × IsAddress v6 ip port

  abbrev pub node_length : Bool → ℕ
  node_length v6 = if v6 then compact_node6_length else compact_node_length

  node_total : (v6 : Bool) → 20 + (if v6 then 18 else 6) ≡ node_length v6
  node_total true = refl
  node_total false = refl

  positive : (v6 : Bool) → 1 ≤ node_length v6
  positive true = omega arith
  positive false = omega arith

  -- The nodes on the wire, one piece for each.
  record Pieces (v6 : Bool) (nodes : List Node) : Type 0 where
    pieces : List Bytes
    joined : encode_compact_nodes inet nodes ≡ some (concat pieces)
    equally_long : All (λ x. length x ≡ node_length v6) pieces
    read_back : map (decode_node inet) pieces ≡ nodes

  encode_compact_nodes-Pieces :
      (v6 : Bool) (nodes : List Node) → All (IsNode v6) nodes → Pieces v6 nodes
  unfolding encode_compact_nodes concat join_node decode_node
  encode_compact_nodes-Pieces v6 [] a = record {
    pieces = [];
    joined = refl;
    equally_long = tt;
    read_back = refl;
  }
  encode_compact_nodes-Pieces v6 ((node_id, ip, port) ∷ nodes) a =
      let w = encode_compact_address-Wire v6 ip port a.0.1 in
      let rest = encode_compact_nodes-Pieces v6 nodes a.1 in
      record {
        pieces = (node_id ++ w.wire) ∷ rest.pieces;
        joined =
            rw (w.encoded, rest.joined)
              (ap some (sym (append_assoc node_id w.wire (concat rest.pieces))));
        equally_long = (
          omega (arith, length-append {0} node_id w.wire, a.0.0, w.wire_length, node_total v6),
          rest.equally_long,
        );
        read_back =
            rw
              (
                drop_left 20 node_id w.wire a.0.0,
                take_left 20 node_id w.wire a.0.0,
                w.decoded,
                rest.read_back,
              )
              refl;
      }

  -- Nodes of one family, whose ids are of 20 bytes and whose addresses are the library's texts, are
  -- encoded without an error, and decoding with the family's entry length returns them, in order.
  pub decode_compact_nodes-encode_compact_nodes :
      (v6 : Bool) (nodes : List Node)
      → All (IsNode v6) nodes
      → (b : Bytes) × (encode_compact_nodes inet nodes ≡ some b)
        × (decode_compact_nodes inet (node_length v6) b ≡ nodes)
  unfolding decode_compact_nodes
  decode_compact_nodes-encode_compact_nodes v6 nodes a =
      let p = encode_compact_nodes-Pieces v6 nodes a in
      let b = concat p.pieces in
      (
        b,
        p.joined,
        ap (map (decode_node inet)) (
              ap (slices (length b) (node_length v6)) (sym (append-nil b))
              ∙ slices-concat (length b) (node_length v6) p.pieces [] (positive v6) p.equally_long
                  (positive v6) (omega (arith, length-append {0} b [])))
            ∙ p.read_back,
      )
