-- ===== src/PeerWire/Tests.antt =====
-- Runs of the messages (tests/protocol/test_peer_wire_messages.py), and the theorems at inputs.
use lif.Common.{
  ℕ, ◌+◌, ◌<◌, ◌≤◌, [], ◌∷◌, ◌++◌, Bytes, true, ascii, replicate, length, take, drop, none, some,
  ok, err, ◌≡◌, refl, arith, pos, bytes_eq, bytes_lt, print_nat,
}
use lif.Bencode.Values.{value_error, int, dict, Entries, entry, no_entries, bytes_key, get}
use lif.Bencode.Encode.{encode_bytes, encode_int}
use lif.Bencode.Wire.{AreSorted, next_entry, empty, number, entries, above, wire}
use lif.Bencode.Values.{max_str_digits}
use lif.Bencode.Scalars.{small_int}
use lif.PeerWire.Messages.{
  node_id_length, handshake_length, protocol_name, encode_handshake, decode_handshake,
  message_extended, max_metadata_size, decode_frame_length, encode_extended_message,
  decode_extended_message, in_dict, read_extended_handshake, request_payload,
  encode_metadata_request, decode_metadata_message, piece_count, no_ut_metadata, too_large,
}
use lif.PeerWire.Handshake.{decode_handshake-encode_handshake, decode_handshake_exact}
use lif.PeerWire.Extended.{
  decode_extended_message-encode, read_extended_handshake_bounds, decode_metadata_message-encode,
}
use lif.PeerWire.Pieces.{lengths_sum, lengths_sum-piece_count}

abbrev hash : Bytes
hash = replicate 20 7

abbrev peer : Bytes
peer = replicate 20 9

abbrev handshake : Bytes
handshake = 19 ∷ (protocol_name ++ (replicate 8 0 ++ (hash ++ peer)))

plain_handshake :
    decode_handshake (19 ∷ (protocol_name ++ (0 ∷ 0 ∷ 0 ∷ 0 ∷ 0 ∷ 0x10 ∷ 0 ∷ 0 ∷ (hash ++ peer))))
    ≡ ok (hash, peer, true)
unfolding decode_handshake bytes_eq
plain_handshake = refl

short_handshake : decode_handshake (drop 1 handshake) ≡ err value_error
unfolding decode_handshake bytes_eq
short_handshake = refl

-- {b"m": {b"ut_metadata": 3}, b"metadata_size": n}
abbrev announcing : ℕ → Entries
announcing n =
    entry (bytes_key (ascii "m"))
      (dict (entry (bytes_key (ascii "ut_metadata")) (int (pos 3)) no_entries))
      (entry (bytes_key (ascii "metadata_size")) (int (pos n)) no_entries)

announced : read_extended_handshake (announcing 20000) ≡ ok (3, 20000)
unfolding read_extended_handshake get bytes_eq
announced = refl

announced_too_much : read_extended_handshake (announcing (max_metadata_size + 1)) ≡ err too_large
unfolding read_extended_handshake get bytes_eq
announced_too_much = refl

announced_nothing : read_extended_handshake (announcing 0) ≡ err no_ut_metadata
unfolding read_extended_handshake get bytes_eq
announced_nothing = refl

announcing-AreSorted : (n : ℕ) → n < max_str_digits → AreSorted 5 (announcing n)
unfolding above bytes_lt
announcing-AreSorted n h =
    next_entry (entries (next_entry (number (pos 3) (small_int 3 (omega arith))) refl empty)) refl
      (next_entry (number (pos n) (small_int n h)) refl empty)

decode_handshake-encode_handshake_example :
    (b : Bytes) × (encode_handshake hash peer ≡ ok b)
    × (length b ≡ handshake_length)
    × (decode_handshake b ≡ ok (hash, peer, true))
decode_handshake-encode_handshake_example = decode_handshake-encode_handshake hash peer refl refl

decode_handshake_exact_example :
    (flags : Bytes) × (19 ∷ (protocol_name ++ (0 ∷ 0 ∷ 0 ∷ 0 ∷ 0 ∷ 0x10 ∷ 0 ∷ 0 ∷ (hash ++ peer)))
      ≡ length protocol_name ∷ (protocol_name ++ (flags ++ (hash ++ peer))))
    × (length flags ≡ 8)
    × (length hash ≡ node_id_length)
    × (length peer ≡ node_id_length)
decode_handshake_exact_example =
    decode_handshake_exact
      (19 ∷ (protocol_name ++ (0 ∷ 0 ∷ 0 ∷ 0 ∷ 0 ∷ 0x10 ∷ 0 ∷ 0 ∷ (hash ++ peer)))) hash peer true
      plain_handshake

decode_extended_message-encode_example :
    (frame : Bytes) × (encode_extended_message 50 0 (announcing 5) (1 ∷ 2 ∷ []) ≡ ok frame)
    × (decode_frame_length (take 4 frame) ≡ length (drop 4 frame))
    × (take 1 (drop 4 frame) ≡ message_extended ∷ [])
    × (decode_extended_message 60 (drop 5 frame) ≡ ok (0, announcing 5, 1 ∷ 2 ∷ []))
unfolding wire print_nat encode_bytes encode_int
decode_extended_message-encode_example =
    decode_extended_message-encode 5 50 60 0 (announcing 5) (1 ∷ 2 ∷ []) (omega arith)
      (announcing-AreSorted 5 (omega arith)) (omega arith) (omega arith) (omega arith)

read_extended_handshake_bounds_example :
    (1 ≤ 3)
    × (3 ≤ 255)
    × (0 < 20000)
    × (20000 ≤ max_metadata_size)
    × (in_dict (ascii "ut_metadata") (get (ascii "m") (announcing 20000)) ≡ some (int (pos 3)))
    × (get (ascii "metadata_size") (announcing 20000) ≡ some (int (pos 20000)))
read_extended_handshake_bounds_example =
    read_extended_handshake_bounds (announcing 20000) 3 20000 announced

decode_metadata_message-encode_example :
    (frame : Bytes) × (encode_metadata_request 50 3 0 ≡ ok frame)
    × (decode_extended_message 60 (drop 5 frame) ≡ ok (3, request_payload 0, []))
    × (decode_metadata_message (request_payload 0) ≡ ok (0, 0, none))
unfolding wire print_nat encode_bytes encode_int
decode_metadata_message-encode_example =
    decode_metadata_message-encode 50 60 3 0 (omega arith) (omega arith) (omega arith) (omega arith)
      (omega arith) (omega arith)

lengths_sum-piece_count_example : lengths_sum 20000 (piece_count 20000) ≡ 20000
lengths_sum-piece_count_example = lengths_sum-piece_count 20000
