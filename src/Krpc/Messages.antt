-- ===== src/Krpc/Messages.antt =====
-- The builders and readers of KRPC messages of dht_scraper/krpc_messages.py. A message is a dict in the
-- order of insertion; the assertions at a builder's head are guards.
use Prim.Native.Nat.{bit_and}
use lif.Common.{
  ℕ, ◌%◌, List, [], ◌∷◌, ◌++◌, Bool, true, false, not, ◌&&◌, ◌||◌, Option, none, some, Bytes,
  bytes_eq, ascii, ltb, leb, ◌==◌, length, take, ℤ, pos, negsuc, Result, ok, ◌>>◌, guard,
  if◌then◌else◌, parse_nat, max,
}
use lif.Bencode.Values.{
  Error, assertion_error, Value, int, bytes, list, dict, Items, no_items, item, Entries, no_entries,
  entry, bytes_key, get,
}
use lif.PeerWire.Messages.{node_id_length}
use lif.Krpc.Addresses.{
  Inet, has_colon, decode_compact_address, encode_compact_address, is_global_ipv4,
}

abbrev pub nodes_key : Bytes
nodes_key = ascii "nodes"

abbrev pub nodes6_key : Bytes
nodes6_key = ascii "nodes6"

abbrev pub is_nodes_key : Bytes → Bool
is_nodes_key key = bytes_eq key nodes_key || bytes_eq key nodes6_key

abbrev pub is_id : Bytes → Bool
is_id b = length b == node_id_length

-- {b"t": transaction_id, b"y": b"q", b"q": name, b"a": args}
abbrev pub query : Bytes → Bytes → Entries → Value
query transaction_id name args = dict (
    entry (bytes_key (ascii "t")) (bytes transaction_id) (
      entry (bytes_key (ascii "y")) (bytes (ascii "q")) (
        entry (bytes_key (ascii "q")) (bytes name)
          (entry (bytes_key (ascii "a")) (dict args) no_entries))))

-- {b"t": transaction_id, b"y": b"r", b"r": values}
abbrev pub response : Bytes → Entries → Value
response transaction_id values = dict (
    entry (bytes_key (ascii "t")) (bytes transaction_id) (
      entry (bytes_key (ascii "y")) (bytes (ascii "r"))
        (entry (bytes_key (ascii "r")) (dict values) no_entries)))

-- {b"id": node_id, key: value}
abbrev pub id_and : Bytes → Bytes → Bytes → Entries
id_and node_id key value =
    entry (bytes_key (ascii "id")) (bytes node_id) (entry (bytes_key key) (bytes value) no_entries)

unfoldable pub build_find_node_query : Bytes → Bytes → Bytes → Result Error Value
build_find_node_query transaction_id node_id target_id = do
  guard (is_id node_id && is_id target_id) assertion_error
  ok (query transaction_id (ascii "find_node") (id_and node_id (ascii "target") target_id))

unfoldable pub build_get_peers_query : Bytes → Bytes → Bytes → Result Error Value
build_get_peers_query transaction_id node_id info_hash = do
  guard (is_id node_id && is_id info_hash) assertion_error
  ok (query transaction_id (ascii "get_peers") (id_and node_id (ascii "info_hash") info_hash))

unfoldable pub build_sample_infohashes_query : Bytes → Bytes → Bytes → Result Error Value
build_sample_infohashes_query transaction_id node_id target_id = do
  guard (is_id node_id && is_id target_id) assertion_error
  ok (query transaction_id (ascii "sample_infohashes") (id_and node_id (ascii "target") target_id))

unfoldable pub build_ping_response : Bytes → Bytes → Result Error Value
build_ping_response transaction_id node_id = do
  guard (is_id node_id) assertion_error
  ok (response transaction_id (entry (bytes_key (ascii "id")) (bytes node_id) no_entries))

unfoldable pub build_find_node_response : Bytes → Bytes → Bytes → Bytes → Result Error Value
build_find_node_response transaction_id node_id compact_nodes key = do
  guard (is_id node_id && is_nodes_key key) assertion_error
  ok (response transaction_id (id_and node_id key compact_nodes))

unfoldable pub build_get_peers_response : Bytes → Bytes → Bytes → Bytes → Bytes → Result Error Value
build_get_peers_response transaction_id node_id token compact_nodes key = do
  guard (is_id node_id && ltb 0 (length token) && is_nodes_key key) assertion_error
  ok (
      response transaction_id (
        entry (bytes_key (ascii "id")) (bytes node_id) (
          entry (bytes_key (ascii "token")) (bytes token)
            (entry (bytes_key key) (bytes compact_nodes) no_entries))))

abbrev pub max_sample_interval : ℕ
max_sample_interval = 21600

unfoldable pub build_sample_infohashes_response :
    Bytes → Bytes → ℕ → Bytes → ℕ → Bytes → Bytes → Result Error Value
build_sample_infohashes_response transaction_id node_id interval compact_nodes num samples key = do
  guard (is_id node_id && leb interval max_sample_interval && is_nodes_key key) assertion_error
  guard (length samples % node_id_length == 0) assertion_error
  ok (
      response transaction_id (
        entry (bytes_key (ascii "id")) (bytes node_id) (
          entry (bytes_key (ascii "interval")) (int (pos interval)) (
            entry (bytes_key key) (bytes compact_nodes) (
              entry (bytes_key (ascii "num")) (int (pos num))
                (entry (bytes_key (ascii "samples")) (bytes samples) no_entries))))))

abbrev pub is_known_code : ℕ → Bool
is_known_code code = (code == 201) || (code == 202) || (code == 203) || (code == 204)

-- [code, text]
abbrev pub error_items : ℕ → Bytes → Items
error_items code text = item (int (pos code)) (item (bytes text) no_items)

unfoldable pub build_error_response : Bytes → ℕ → Bytes → Result Error Value
build_error_response transaction_id code text = do
  guard (is_known_code code) assertion_error
  ok (
      dict (
        entry (bytes_key (ascii "t")) (bytes transaction_id) (
          entry (bytes_key (ascii "y")) (bytes (ascii "e"))
            (entry (bytes_key (ascii "e")) (list (error_items code text)) no_entries))))

-- The first item, when it is an integer and no bool.
unfoldable pub read_error_code : Entries → Option ℤ
read_error_code message = elim (get (ascii "e") message) [
  | some (list (item (int n) rest)) ↦ some n
  | _ ↦ none
]

-- is_plain_int(implied) and implied != 0
unfoldable pub is_implied : Option Value → Bool
is_implied (some (int (pos n))) = not (n == 0)
is_implied (some (int (negsuc n))) = true
is_implied _ = false

unfoldable pub valid_port : Option Value → Option ℕ
valid_port (some (int (pos n))) = if ltb 0 n && leb n 65535 then some n else none
valid_port _ = none

-- The source of a datagram has a port of 16 bits, which the function asserts: a hypothesis here.
unfoldable pub read_announced_port : Entries → ℕ → Option ℕ
unfolding is_implied valid_port
read_announced_port args source_port =
    let port =
      if is_implied (get (ascii "implied_port") args)
      then some (int (pos source_port))
      else get (ascii "port") args in
    valid_port port

-- hmac.digest(secret, ip, "sha1")[:TOKEN_LENGTH]
module _ (hmac_sha1 : Bytes → Bytes → Bytes) where
  unfoldable pub make_token : Bytes → Bytes → Result Error Bytes
  make_token secret ip = do
    guard (ltb 0 (length secret)) assertion_error
    ok (take 8 (hmac_sha1 secret ip))

-- ip.split(".")
unfoldable pub split_dots : Bytes → Bytes → List Bytes
split_dots part [] = part ∷ []
split_dots part (c ∷ text) =
    if c == 46 then part ∷ split_dots [] text else split_dots (part ++ c ∷ []) text

-- part.isdigit() and len(part) <= 3, for a part of ASCII characters
unfoldable pub is_digits : Bytes → Bool
is_digits [] = true
is_digits (c ∷ part) = leb 48 c && leb c 57 && is_digits part

abbrev pub is_octet_text : Bytes → Bool
is_octet_text part = ltb 0 (length part) && is_digits part && leb (length part) 3

abbrev pub octets_routable : ℕ → ℕ → ℕ → ℕ → Bool
octets_routable a b c d = leb (max (max a b) (max c d)) 255 && is_global_ipv4 a b c

unfoldable pub parts_routable : List Bytes → Bool
parts_routable (a ∷ b ∷ c ∷ d ∷ []) =
    if is_octet_text a && is_octet_text b && is_octet_text c && is_octet_text d
    then octets_routable (parse_nat a) (parse_nat b) (parse_nat c) (parse_nat d)
    else false
parts_routable _ = false

-- What is_global_ipv6 asks of an ipaddress.IPv6Address.
pub record Ipv6 : Type 0 where
  pub is_global : Bool
  pub is_multicast : Bool
  pub is_mapped : Bool
  pub first_byte : ℕ

-- ipaddress.IPv6Address(ip); `none` is a ValueError.
module _ (ipv6_address : Bytes → Option Ipv6) where
  abbrev pub parsed_global : Option Ipv6 → Bool
  parsed_global none = false
  parsed_global (some parsed) =
      parsed.is_global
      && not parsed.is_multicast
      && not parsed.is_mapped
      && (bit_and parsed.first_byte 0xE0 == 0x20)

  unfoldable pub is_global_ipv6 : Bytes → Bool
  is_global_ipv6 ip = parsed_global (ipv6_address ip)

  unfoldable pub is_routable_address : Bytes → ℕ → Bool
  is_routable_address ip port =
      if has_colon ip
      then ltb 0 port && leb port 65535 && is_global_ipv6 ip
      else ltb 0 port && leb port 65535 && parts_routable (split_dots [] ip)

module _ (inet : Inet) where
  unfoldable pub decode_compact_items : Items → List (Bytes × ℕ)
  decode_compact_items no_items = []
  decode_compact_items (item (bytes b) xs) =
      let rest = decode_compact_items xs in
      if (length b == 6) || (length b == 18) then decode_compact_address inet b ∷ rest else rest
  decode_compact_items (item _ xs) = decode_compact_items xs

  unfoldable pub decode_compact_peers : Option Value → List (Bytes × ℕ)
  decode_compact_peers (some (list values)) = decode_compact_items values
  decode_compact_peers _ = []

  -- A peer in front of the others; an address that is not read leaves nothing.
  unfoldable pub join_peer : Option Bytes → Option Items → Option Items
  join_peer none rest = none
  join_peer (some b) none = none
  join_peer (some b) (some rest) = some (item (bytes b) rest)

  unfoldable pub encode_compact_peers : List (Bytes × ℕ) → Option Items
  encode_compact_peers [] = some no_items
  encode_compact_peers ((ip, port) ∷ peers) =
      join_peer (encode_compact_address inet ip port) (encode_compact_peers peers)
