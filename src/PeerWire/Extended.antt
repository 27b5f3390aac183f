-- ===== src/PeerWire/Extended.antt =====
-- Extended messages (BEP 10) and ut_metadata messages (BEP 9) of dht_scraper/peer_wire_messages.py.
use lif.Common.{
  bytes_lt, bytes_eq, le→leb, ℕ, zero, suc, ◌+◌, ◌*◌, ◌^◌, ◌<◌, ◌≤◌, [], ◌∷◌, ◌++◌, Bytes, ascii,
  be32, from_be-be32, length, length-append, take, drop, none, some, ok, ◌≡◌, ◌∙◌, refl, arith, pos,
}
use lif.Bencode.Scalars.{small_int}
use lif.Bencode.Values.{in_call, max_str_digits, Value, dict, Entries, get, int}
use lif.Bencode.Decode.{decode_value}
use lif.Bencode.Wire.{
  string, IsCanonical, AreSorted, entries, empty, next_entry, number, wire, encode_bencode-wire,
  above,
}
use lif.Bencode.RoundTrip.{decode_value_at-wire}
use lif.PeerWire.Messages.{
  message_extended, max_metadata_size, encode_frame, decode_frame_length, encode_extended_message,
  decode_extended_message, in_dict, read_extended_handshake, decode_metadata_message,
  request_payload, encode_metadata_request, handshake_payload, encode_extended_handshake,
}

decode_value-wire :
    (f : ℕ) {n : ℕ} {v : Value} (c : IsCanonical n v) (rest : Bytes)
    → n ≤ f
    → decode_value f (wire v ++ rest) ≡ ok (v, rest)
decode_value-wire f {n} {v} c rest p =
    decode_value_at-wire f (2 * length (wire v ++ rest) + 1) rest c p
      (omega (arith, length-append {0} (wire v) rest))

decode_body :
    (f extension_id : ℕ) {n : ℕ} {p : Entries} (trailing : Bytes)
    → AreSorted n p
    → n + 3 ≤ f
    → decode_extended_message (suc f) (extension_id ∷ (wire (dict p) ++ trailing))
      ≡ ok (extension_id, p, trailing)
unfolding decode_extended_message wire in_call
decode_body f extension_id trailing s h =
    rw (decode_value-wire f (entries s) trailing (omega (arith, h)))

-- With an extension id of a byte: a payload with sorted keys, which `n` frames have room for, sent with
-- trailing bytes in a frame of less than 2^32 bytes on a stack of more than `n` + 3 frames: the frame's
-- header is the length of what follows it, its first byte is the message id, and the rest decodes, on any
-- such stack, to the extension id, the payload and the trailing bytes.
pub decode_extended_message-encode :
    (n m l extension_id : ℕ) (p : Entries) (trailing : Bytes)
    → extension_id ≤ 255
    → AreSorted n p
    → n + 3 < m
    → n + 3 < l
    → length (wire (dict p)) + length trailing + 2 < 2 ^ 32
    → (frame : Bytes) × (encode_extended_message m extension_id p trailing ≡ ok frame)
      × (decode_frame_length (take 4 frame) ≡ length (drop 4 frame))
      × (take 1 (drop 4 frame) ≡ message_extended ∷ [])
      × (decode_extended_message l (drop 5 frame) ≡ ok (extension_id, p, trailing))
unfolding encode_extended_message encode_frame decode_frame_length be32 in_call
decode_extended_message-encode n zero l extension_id p trailing i s a b h = absurd (omega arith)
decode_extended_message-encode n (suc m) zero extension_id p trailing i s a b h =
    absurd (omega arith)
decode_extended_message-encode n (suc m) (suc l) extension_id p trailing i s a b h =
    let body = extension_id ∷ (wire (dict p) ++ trailing) in
    (
      be32 (1 + length body) ++ message_extended ∷ body,
      rw (le→leb extension_id 255 i, encode_bencode-wire m (entries s) (omega (arith, a))),
      from_be-be32 (1 + length body) (omega (arith, length-append {0} (wire (dict p)) trailing))
          ∙ omega arith,
      refl,
      decode_body l extension_id trailing s (omega (arith, b)),
    )

-- An extended handshake is accepted with an id from 1 to 255 and a metadata size from 1 to
-- MAX_METADATA_SIZE, those that the payload holds.
pub read_extended_handshake_bounds :
    (payload : Entries) (their_id size : ℕ)
    → read_extended_handshake payload ≡ ok (their_id, size)
    → (1 ≤ their_id)
      × (their_id ≤ 255)
      × (0 < size)
      × (size ≤ max_metadata_size)
      × (in_dict (ascii "ut_metadata") (get (ascii "m") payload) ≡ some (int (pos their_id)))
      × (get (ascii "metadata_size") payload ≡ some (int (pos size)))
unfolding read_extended_handshake
read_extended_handshake_bounds payload their_id size h = ground arith

request-AreSorted : (piece : ℕ) → piece < max_str_digits → AreSorted 2 (request_payload piece)
unfolding above bytes_lt
request-AreSorted piece h =
    next_entry (number (pos 0) (small_int 0 (omega arith))) refl
      (next_entry (number (pos piece) (small_int piece h)) refl empty)

request-fields : (piece : ℕ) → decode_metadata_message (request_payload piece) ≡ ok (0, piece, none)
unfolding decode_metadata_message get bytes_eq
request-fields piece = refl

-- The request for a piece below 4300, to a ut_metadata id from 1 to 255, of less than 2^32 bytes, is, on
-- a stack of more than six frames, a frame that decodes, with more than five left, to a request (type 0)
-- for that piece.
pub decode_metadata_message-encode :
    (m l their_id piece : ℕ)
    → 6 < m
    → 5 < l
    → 1 ≤ their_id
    → their_id ≤ 255
    → piece < max_str_digits
    → length (wire (dict (request_payload piece))) + 2 < 2 ^ 32
    → (frame : Bytes) × (encode_metadata_request m their_id piece ≡ ok frame)
      × (decode_extended_message l (drop 5 frame) ≡ ok (their_id, request_payload piece, []))
      × (decode_metadata_message (request_payload piece) ≡ ok (0, piece, none))
unfolding encode_metadata_request in_call
decode_metadata_message-encode zero l their_id piece a b low high few h = absurd (omega arith)
decode_metadata_message-encode (suc m) l their_id piece a b low high few h =
    let (frame, encoded, header, kind, decoded) =
      decode_extended_message-encode 2 m l their_id (request_payload piece) [] high
        (request-AreSorted piece few) (omega arith) (omega arith) (omega arith) in
    (
      frame,
      rw (le→leb 1 their_id low, le→leb their_id 255 high) encoded,
      decoded,
      request-fields piece,
    )

pub encode_metadata_request_ok :
    (m their_id piece : ℕ)
    → 6 < m
    → 1 ≤ their_id
    → their_id ≤ 255
    → piece < max_str_digits
    → (frame : Bytes) × (encode_metadata_request m their_id piece ≡ ok frame)
unfolding encode_metadata_request encode_extended_message in_call
encode_metadata_request_ok zero their_id piece a low high few = absurd (omega arith)
encode_metadata_request_ok (suc zero) their_id piece a low high few = absurd (omega arith)
encode_metadata_request_ok (suc (suc m)) their_id piece a low high few = (
  encode_frame message_extended (their_id ∷ (wire (dict (request_payload piece)) ++ [])),
  rw
      (
        le→leb 1 their_id low,
        le→leb their_id 255 high,
        encode_bencode-wire m (entries (request-AreSorted piece few)) (omega arith),
      )
      refl,
)

handshake-AreSorted : AreSorted 5 handshake_payload
unfolding above bytes_lt
handshake-AreSorted =
    next_entry (entries (next_entry (number (pos 1) (small_int 1 (omega arith))) refl empty)) refl
      (next_entry (string (ascii "dht_scraper 2.0")) refl empty)

pub encode_extended_handshake_ok :
    (m : ℕ)
    → 9 < m
    → (frame : Bytes) × (encode_extended_handshake m ≡ ok frame) × (0 < length frame)
unfolding encode_extended_handshake encode_extended_message encode_frame be32 in_call
encode_extended_handshake_ok zero h = absurd (omega arith)
encode_extended_handshake_ok (suc zero) h = absurd (omega arith)
encode_extended_handshake_ok (suc (suc m)) h = (
  encode_frame message_extended (0 ∷ (wire (dict handshake_payload) ++ [])),
  rw (encode_bencode-wire m (entries handshake-AreSorted) (omega arith)) refl,
  omega arith,
)
