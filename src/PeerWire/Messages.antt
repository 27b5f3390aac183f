-- ===== src/PeerWire/Messages.antt =====
-- dht_scraper/peer_wire_messages.py: handshake, frames, extended messages, ut_metadata messages.
-- An assertion at the head of a function is a guard that raises `assertion_error`.
use Prim.Native.Nat.{bit_and}
use lif.Common.{
  ℕ, ◌+◌, ◌-◌, ◌*◌, ◌/◌, min, [], ◌∷◌, ◌++◌, Bool, not, ◌&&◌, ◌||◌, Option, none, some, Bytes,
  bytes_eq, ascii, be32, from_be, ltb, leb, ◌==◌, length, take, drop, get_or, pos, Result, ok, err,
  ◌>>=◌, ◌>>◌, guard, if◌then◌else◌,
}
use lif.Bencode.Values.{
  Error, in_call, value_error, assertion_error, Value, int, bytes, dict, Entries, no_entries, entry,
  bytes_key, get,
}
use lif.Bencode.Encode.{encode_bencode}
use lif.Bencode.Decode.{decode_value}

abbrev pub node_id_length : ℕ
node_id_length = 20

abbrev pub handshake_length : ℕ
handshake_length = 68

abbrev pub protocol_name : Bytes
protocol_name = ascii "BitTorrent protocol"

abbrev pub message_extended : ℕ
message_extended = 20

abbrev pub metadata_piece_size : ℕ
metadata_piece_size = 16384

abbrev pub max_metadata_size : ℕ
max_metadata_size = 4 * 1024 * 1024

-- The reasons of MetadataFetchError (FETCH_REASONS of metadata_fetcher.py).
pub data Reason : Type 0 where
  connect connect_timeout closed closed_on_handshake timeout stopped bad_handshake : Reason
  hash_mismatch no_extensions no_ut_metadata too_large reject bad_piece sha1_mismatch : Reason
  frame_too_large bad_extended_message encryption_failed local_error : Reason

-- Eight bytes with EXTENSION_BIT in byte EXTENSION_RESERVED_INDEX.
abbrev pub reserved : Bytes
reserved = 0 ∷ 0 ∷ 0 ∷ 0 ∷ 0 ∷ 0x10 ∷ 0 ∷ 0 ∷ []

unfoldable pub encode_handshake : Bytes → Bytes → Result Error Bytes
encode_handshake info_hash peer_id = do
  guard (length info_hash == node_id_length && length peer_id == node_id_length) assertion_error
  ok (length protocol_name ∷ (protocol_name ++ (reserved ++ (info_hash ++ peer_id))))

unfoldable pub decode_handshake : Bytes → Result Error (Bytes × Bytes × Bool)
decode_handshake input =
    if not (length input == handshake_length)
      || not (get_or input 0 0 == length protocol_name)
      || not (bytes_eq (take 19 (drop 1 input)) protocol_name)
    then err value_error
    else ok (
      take 20 (drop 28 input),
      take 20 (drop 48 input),
      not (bit_and (get_or input 25 0) 0x10 == 0),
    )

unfoldable pub encode_frame : ℕ → Bytes → Bytes
encode_frame message_id payload = be32 (1 + length payload) ++ message_id ∷ payload

unfoldable pub decode_frame_length : Bytes → ℕ
decode_frame_length header = from_be header

-- With so many `frames` of the stack left, as the codec.
unfoldable pub encode_extended_message : ℕ → ℕ → Entries → Bytes → Result Error Bytes
encode_extended_message frames extension_id payload trailing = in_call frames (λ f. do
  guard (leb extension_id 255) assertion_error
  encoded ← encode_bencode f (dict payload)
  ok (encode_frame message_extended (extension_id ∷ (encoded ++ trailing))))

unfoldable pub extended_payload : ℕ → Value × Bytes → Result Error (ℕ × Entries × Bytes)
extended_payload extension_id (dict payload, trailing) = ok (extension_id, payload, trailing)
extended_payload extension_id (_, trailing) = err value_error

unfoldable pub decode_extended_body : ℕ → Bytes → Result Error (ℕ × Entries × Bytes)
unfolding extended_payload
decode_extended_body frames [] = err value_error
decode_extended_body frames (extension_id ∷ []) = err value_error
decode_extended_body frames (extension_id ∷ b ∷ body) = do
  decoded ← decode_value frames (b ∷ body)
  extended_payload extension_id decoded

unfoldable pub decode_extended_message : ℕ → Bytes → Result Error (ℕ × Entries × Bytes)
unfolding decode_extended_body
decode_extended_message frames body = in_call frames (λ f. decode_extended_body f body)

-- {b"m": {b"ut_metadata": UT_METADATA_LOCAL_ID}, b"v": CLIENT_VERSION}
abbrev pub handshake_payload : Entries
handshake_payload =
    entry (bytes_key (ascii "m"))
      (dict (entry (bytes_key (ascii "ut_metadata")) (int (pos 1)) no_entries))
      (entry (bytes_key (ascii "v")) (bytes (ascii "dht_scraper 2.0")) no_entries)

unfoldable pub encode_extended_handshake : ℕ → Result Error Bytes
encode_extended_handshake frames =
    in_call frames (λ f. encode_extended_message f 0 handshake_payload [])

-- The number of a value that `is_plain_int` accepts and that is not negative.
unfoldable pub plain_nat : Option Value → Option ℕ
plain_nat (some (int (pos n))) = some n
plain_nat _ = none

abbrev pub in_dict : Bytes → Option Value → Option Value
in_dict k (some (dict es)) = get k es
in_dict k _ = none

unfoldable pub check_extended : Option ℕ → Option ℕ → Result Reason (ℕ × ℕ)
check_extended none size = err no_ut_metadata
check_extended (some their_id) none = err no_ut_metadata
check_extended (some their_id) (some size) =
    if not (leb 1 their_id && leb their_id 255)
    then err no_ut_metadata
    else if size == 0
    then err no_ut_metadata
    else if ltb max_metadata_size size
    then err too_large
    else ok (their_id, size)

unfoldable pub read_extended_handshake : Entries → Result Reason (ℕ × ℕ)
unfolding check_extended plain_nat
read_extended_handshake payload =
    check_extended (plain_nat (in_dict (ascii "ut_metadata") (get (ascii "m") payload)))
      (plain_nat (get (ascii "metadata_size") payload))

abbrev pub request_payload : ℕ → Entries
request_payload piece =
    entry (bytes_key (ascii "msg_type")) (int (pos 0))
      (entry (bytes_key (ascii "piece")) (int (pos piece)) no_entries)

unfoldable pub encode_metadata_request : ℕ → ℕ → ℕ → Result Error Bytes
encode_metadata_request frames their_id piece = in_call frames (λ f. do
  guard (leb 1 their_id && leb their_id 255) assertion_error
  encode_extended_message f their_id (request_payload piece) [])

unfoldable pub check_message : Option ℕ → Option ℕ → Option Value → Result Error (ℕ × ℕ × Option ℕ)
check_message (some msg_type) (some piece) none = ok (msg_type, piece, none)
check_message (some msg_type) (some piece) (some (int (pos n))) = ok (msg_type, piece, some n)
check_message _ _ _ = err value_error

unfoldable pub decode_metadata_message : Entries → Result Error (ℕ × ℕ × Option ℕ)
unfolding check_message plain_nat
decode_metadata_message payload =
    check_message (plain_nat (get (ascii "msg_type") payload))
      (plain_nat (get (ascii "piece") payload)) (get (ascii "total_size") payload)

unfoldable pub piece_count : ℕ → ℕ
piece_count metadata_size = (metadata_size + metadata_piece_size - 1) / metadata_piece_size

unfoldable pub expected_piece_length : ℕ → ℕ → ℕ
expected_piece_length metadata_size piece =
    min metadata_piece_size (metadata_size - piece * metadata_piece_size)
