-- ===== src/Krpc/Addresses.antt =====
-- Compact addresses, nodes and samples of dht_scraper/krpc_messages.py, and the node ids of
-- dht_scraper/node_identity.py.
use Prim.Native.Nat.{bit_xor}
use lif.Common.{
  ℕ, zero, suc, ◌-◌, ◌/◌, ◌%◌, ◌^◌, List, [], ◌∷◌, ◌++◌, Bool, true, false, not, ◌&&◌, ◌||◌, Option,
  none, some, Bytes, be16, from_be, length, take, drop, map, ltb, leb, ◌==◌, if◌then◌else◌, ◌≡◌,
}
use lif.PeerWire.Messages.{node_id_length}

-- socket.inet_aton, inet_ntoa, and inet_pton and inet_ntop for AF_INET6, on texts as character codes;
-- `none` is an OSError. The laws: what is printed for an address is read back as it, an IPv6 text
-- has a colon, and an IPv4 text has none.
unfoldable pub has_colon : Bytes → Bool
has_colon [] = false
has_colon (c ∷ text) = (c == 58) || has_colon text

pub record Inet : Type 0 where
  pub inet_aton : Bytes → Option Bytes
  pub inet_ntoa : Bytes → Bytes
  pub inet_pton6 : Bytes → Option Bytes
  pub inet_ntop6 : Bytes → Bytes
  pub aton-ntoa : (b : Bytes) → length b ≡ 4 → inet_aton (inet_ntoa b) ≡ some b
  pub pton6-ntop6 : (b : Bytes) → length b ≡ 16 → inet_pton6 (inet_ntop6 b) ≡ some b
  pub colon-ntoa : (b : Bytes) → length b ≡ 4 → has_colon (inet_ntoa b) ≡ false
  pub colon-ntop6 : (b : Bytes) → length b ≡ 16 → has_colon (inet_ntop6 b) ≡ true

abbrev pub compact_node_length : ℕ
compact_node_length = 26

abbrev pub compact_node6_length : ℕ
compact_node6_length = 38

-- A node: its id, and its address as a text and a port.
abbrev pub Node : Type 0
Node = Bytes × Bytes × ℕ

-- data[offset:offset + n] for offset in range(0, len(data) - n + 1, n): what is left behind the last
-- whole slice is ignored. Each round takes n bytes, one at least, which the fuel counts.
unfoldable pub slices : ℕ → ℕ → Bytes → List Bytes
slices zero n input = []
slices (suc fuel) n input =
    let rest = slices fuel n (drop n input) in
    if ltb (length input) n then [] else take n input ∷ rest

unfoldable pub decode_samples : Bytes → List Bytes
decode_samples input = slices (length input) node_id_length input

-- A node in front of the others; an address that is not read leaves nothing.
unfoldable pub join_node : Bytes → Option Bytes → Option Bytes → Option Bytes
join_node node_id none rest = none
join_node node_id (some address) none = none
join_node node_id (some address) (some rest) = some (node_id ++ (address ++ rest))

module _ (inet : Inet) where
  unfoldable pub encode_compact_address : Bytes → ℕ → Option Bytes
  encode_compact_address ip port =
      elim (if has_colon ip then inet.inet_pton6 ip else inet.inet_aton ip) [
        | none ↦ none
        | some packed ↦ some (packed ++ be16 port)
      ]

  unfoldable pub decode_compact_address : Bytes → Bytes × ℕ
  decode_compact_address input = (
    if length input == 18 then inet.inet_ntop6 (take 16 input) else inet.inet_ntoa (take 4 input),
    from_be (drop (length input - 2) input),
  )

  -- b"".join(...)
  unfoldable pub encode_compact_nodes : List Node → Option Bytes
  encode_compact_nodes [] = some []
  encode_compact_nodes ((node_id, ip, port) ∷ nodes) =
      join_node node_id (encode_compact_address ip port) (encode_compact_nodes nodes)

  unfoldable pub decode_node : Bytes → Node
  decode_node slice =
      let (ip, port) = decode_compact_address (drop node_id_length slice) in
      (take node_id_length slice, ip, port)

  unfoldable pub decode_compact_nodes : ℕ → Bytes → List Node
  decode_compact_nodes entry_length input =
      map decode_node (slices (length input) entry_length input)

-- The first octets of an IPv4 address that is not for special purposes.
unfoldable pub is_global_ipv4 : ℕ → ℕ → ℕ → Bool
is_global_ipv4 first second third = not (
    (first == 0)
    || (first == 10)
    || (first == 127)
    || leb 224 first
    || ((first == 100) && leb 64 second && leb second 127)
    || ((first == 169) && (second == 254))
    || ((first == 172) && leb 16 second && leb second 31)
    || ((first == 192)
        && ((second == 168)
            || ((second == 0) && ((third == 0) || (third == 2)))
            || ((second == 88) && (third == 99))))
    || ((first == 198) && ((second == 18) || (second == 19) || ((second == 51) && (third == 100))))
    || ((first == 203) && (second == 0) && (third == 113)))

unfoldable pub neighbor_node_id : Bytes → Bytes → Bytes
neighbor_node_id remote_id own_id = take 15 remote_id ++ drop 15 own_id

unfoldable pub xor_distance : Bytes → Bytes → ℕ
xor_distance left_id right_id = bit_xor (from_be left_id) (from_be right_id)

-- b"L" and three bytes of the counter.
unfoldable pub lookup_transaction_id : ℕ → Bytes
lookup_transaction_id sequence =
    let n = sequence % 2 ^ 24 in 76 ∷ (n / 2 ^ 16) ∷ (n / 2 ^ 8) % 256 ∷ n % 256 ∷ []
