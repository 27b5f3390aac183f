-- ===== src/Fetcher/Tests.antt =====
-- A run of a session against a peer that sends five bytes of metadata.
use lif.Common.{
  ℕ, ◌<◌, ◌≤◌, List, [], ◌∷◌, ◌++◌, map, Bool, true, false, Bytes, ascii, be32, replicate, length,
  Result, ok, ◌≡◌, refl, arith,
}
use lif.PeerWire.Messages.{protocol_name, reserved, max_metadata_size, handshake_length}
use lif.Fetcher.Stream.{Stream, ends, Session}
use lif.Fetcher.Session.{Timeouts, run_session, read_frame}
use lif.Fetcher.Outcome.{Outcome}
use lif.Fetcher.Sound.{Acceptable, run_session-Outcome}

abbrev hash : Bytes
hash = replicate 20 7

abbrev peer : Bytes
peer = replicate 20 3

abbrev sent_frame : Bytes → Bytes
sent_frame b = be32 (length b) ++ b

-- A handshake, a choke, an extended handshake for 5 bytes, a keep-alive, and the only piece.
abbrev sent : Bytes
sent =
    (length protocol_name ∷ (protocol_name ++ (reserved ++ (hash ++ peer))))
    ++ (sent_frame (0 ∷ [])
        ++ (sent_frame (20 ∷ 0 ∷ ascii "d1:md11:ut_metadatai3ee13:metadata_sizei5ee")
            ++ (sent_frame []
                ++ sent_frame
                    (20 ∷ 1 ∷ ascii "d8:msg_typei1e5:piecei0e10:total_sizei5ee" ++ ascii "d1:ae"))))

abbrev stream : Stream
stream = record { now = 0; incoming = map (λ b. (1, b)) sent; ending = ends 2; written = [] }

abbrev timeouts : Timeouts
timeouts = record { connect = 10; handshake = 40; piece = 50; session = 150; utp_connect = 20 }

run_session-Outcome_example : Outcome Acceptable (run_session hash peer timeouts 150 true stream)
run_session-Outcome_example = run_session-Outcome hash peer timeouts 150 true stream refl refl

-- The peer's five bytes come out.
fetched : (run_session hash peer timeouts 150 true stream).0 ≡ ok (ascii "d1:ae")
unfolding run_session lif.Fetcher.Session.assert lif.Fetcher.Session.send_opening
    lif.Fetcher.Session.opening_messages lif.PeerWire.Messages.encode_handshake
    lif.PeerWire.Messages.encode_extended_handshake lif.PeerWire.Messages.encode_extended_message
    lif.Bencode.Encode.encode_bencode lif.Bencode.Encode.encode_dict lif.Common.bytes_eq
    lif.Common.bytes_lt lif.PeerWire.Messages.encode_frame be32 lif.Bencode.Encode.encode_bytes
    lif.Common.print_nat lif.Bencode.Encode.encode_int lif.Bencode.Encode.int_wire
    lif.Bencode.Encode.digits lif.Bencode.Values.in_call lif.PeerWire.Messages.decode_extended_body
    lif.Fetcher.Stream.write lif.Fetcher.Session.read_session lif.Bencode.Decode.bad_int
    lif.Bencode.Decode.decode_bytes_at lif.Bencode.Decode.decode_int_at
    lif.Bencode.Decode.decode_value_at lif.Bencode.Decode.parse_int lif.Bencode.Decode.read_bytes
    lif.Bencode.Decode.read_int lif.Bencode.Decode.strip_sign lif.Bencode.Encode.insert_pair
    lif.Bencode.Encode.join_pairs lif.Bencode.Encode.key_bytes lif.Bencode.Encode.keys_allowed
    lif.Bencode.Encode.normalize_keys lif.Bencode.Encode.print_int lif.Bencode.Encode.put_pair
    lif.Bencode.Encode.sort_pairs lif.Bencode.Encode.utf8 lif.Bencode.Encode.utf8_char
    lif.Bencode.Values.get lif.Bencode.Values.put lif.Common.from_be lif.Common.split_at
    lif.Common.parse_nat lif.Common.push_digits lif.Fetcher.Session.check_handshake
    lif.Fetcher.Session.choose_extended lif.Fetcher.Session.choose_frame
    lif.Fetcher.Session.choose_piece lif.Fetcher.Session.discard lif.Fetcher.Session.extended_loop
    lif.Fetcher.Session.is_outstanding lif.Fetcher.Session.join_all lif.Fetcher.Session.join_pieces
    lif.Fetcher.Session.or_fetch_error lif.Fetcher.Session.piece_loop lif.Fetcher.Session.read_body
    read_frame lif.Fetcher.Session.read_handshake lif.Fetcher.Session.receive_extended
    lif.Fetcher.Session.receive_extended_handshake lif.Fetcher.Session.receive_in_time
    lif.Fetcher.Session.receive_piece lif.Fetcher.Session.request_pieces
    lif.Fetcher.Session.request_window lif.Fetcher.Session.split_body
    lif.Fetcher.Session.transfer_loop lif.Fetcher.Stream.end_reason lif.Fetcher.Stream.read_exactly
    lif.Fetcher.Stream.receive lif.PeerWire.Messages.check_extended
    lif.PeerWire.Messages.check_message lif.PeerWire.Messages.decode_extended_message
    lif.PeerWire.Messages.decode_frame_length lif.PeerWire.Messages.decode_handshake
    lif.PeerWire.Messages.decode_metadata_message lif.PeerWire.Messages.encode_metadata_request
    lif.PeerWire.Messages.expected_piece_length lif.PeerWire.Messages.extended_payload
    lif.PeerWire.Messages.piece_count lif.PeerWire.Messages.plain_nat
    lif.PeerWire.Messages.read_extended_handshake lif.RecentMap.find lif.Utp.Connection.put
fetched = refl
