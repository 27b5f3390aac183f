-- ===== src/Fetcher/Session.antt =====
-- The steps of a session: handshakes, the extended handshake, the pieces.
use lif.Common.{
  ℕ, zero, suc, ◌+◌, ◌*◌, min, max, List, [], ◌∷◌, ◌++◌, Bool, true, false, not, ◌&&◌, ◌||◌, Option,
  none, some, Bytes, bytes_eq, ltb, leb, ◌==◌, length, if◌then◌else◌, Result, ok, err, nat_eq,
}
use lif.Bencode.Values.{
  value_error, recursion_error, recursion_limit, Error, assertion_error, Entries,
}
use lif.RecentMap.{find}
use lif.PeerWire.Messages.{
  node_id_length, Reason, connect, connect_timeout, local_error, closed, closed_on_handshake,
  bad_handshake, hash_mismatch, no_extensions, reject, bad_piece, sha1_mismatch, frame_too_large,
  bad_extended_message, handshake_length, message_extended, encode_handshake, decode_handshake,
  decode_frame_length, decode_extended_message, encode_extended_handshake, read_extended_handshake,
  encode_metadata_request, decode_metadata_message, piece_count, expected_piece_length,
}
use lif.Utp.Connection.{put}
use lif.Fetcher.Stream.{
  fetch_error, raised, key_error, os_error, out_of_fuel, Session, pure, fail, or_raise, ◌>>=◌, ◌>>◌,
  write, read_exactly,
}

abbrev pub piece_window : ℕ
piece_window = 8

abbrev pub max_frame_length : ℕ
max_frame_length = 1024 * 1024

-- KEEP_ALIVE_ID, or a message id and the bytes behind it.
pub data Frame : Type 0 where
  keep_alive : Frame
  frame : ℕ → Bytes → Frame

unfoldable pub split_body : Bytes → Session Frame
split_body [] = fail key_error
split_body (message_id ∷ payload) = pure (frame message_id payload)

unfoldable pub read_body : ℕ → ℕ → Session Frame
read_body deadline length =
    if length == 0
    then pure keep_alive
    else if ltb max_frame_length length
    then fail (fetch_error frame_too_large)
    else read_exactly length deadline closed >>= split_body

unfoldable pub read_frame : ℕ → Session Frame
read_frame deadline = do
  header ← read_exactly 4 deadline closed
  read_body deadline (decode_frame_length header)

unfoldable pub check_handshake : Bytes → Result Error (Bytes × Bytes × Bool) → Session (Unit {0})
check_handshake info_hash (err value_error) = fail (fetch_error bad_handshake)
check_handshake info_hash (err e) = fail (raised e)
check_handshake info_hash (ok (remote_hash, peer_id, supports_extensions)) =
    if not (bytes_eq remote_hash info_hash)
    then fail (fetch_error hash_mismatch)
    else if not supports_extensions
    then fail (fetch_error no_extensions)
    else pure tt

unfoldable pub read_handshake : Bytes → ℕ → Session (Unit {0})
read_handshake info_hash deadline = do
  input ← read_exactly handshake_length deadline closed_on_handshake
  check_handshake info_hash (decode_handshake input)

-- assert condition
unfoldable pub assert : Bool → Session (Unit {0})
assert condition = if condition then pure tt else fail (raised assertion_error)

-- What a frame means to `receive_extended`: an extended message, or one more round of the loop.
unfoldable pub choose_extended :
    ℕ → Result Error (ℕ × Entries × Bytes) → Session (Entries × Bytes) → Session (Entries × Bytes)
choose_extended extension_id (err value_error) again = fail (fetch_error bad_extended_message)
choose_extended extension_id (err recursion_error) again = fail (fetch_error bad_extended_message)
choose_extended extension_id (err e) again = fail (raised e)
choose_extended extension_id (ok (received_id, payload, trailing)) again =
    if received_id == extension_id then pure (payload, trailing) else again

unfoldable pub choose_frame : ℕ → Frame → Session (Entries × Bytes) → Session (Entries × Bytes)
choose_frame extension_id keep_alive again = again
choose_frame extension_id (frame message_id body) again =
    if not (message_id == message_extended)
    then again
    else choose_extended extension_id (decode_extended_message recursion_limit body) again

-- while True: each round reads a frame, which takes bytes.
unfoldable pub extended_loop : ℕ → ℕ → ℕ → Session (Entries × Bytes)
extended_loop zero extension_id deadline = fail out_of_fuel
extended_loop (suc fuel) extension_id deadline = do
  next ← read_frame deadline
  choose_frame extension_id next (extended_loop fuel extension_id deadline)

unfoldable pub receive_extended : ℕ → ℕ → Session (Entries × Bytes)
receive_extended extension_id deadline s =
    extended_loop (suc (length s.incoming)) extension_id deadline s

unfoldable pub or_fetch_error : Result Reason (ℕ × ℕ) → Session (ℕ × ℕ)
or_fetch_error (ok announced) = pure announced
or_fetch_error (err reason) = fail (fetch_error reason)

unfoldable pub receive_extended_handshake : ℕ → Session (ℕ × ℕ)
receive_extended_handshake deadline = do
  (payload, trailing) ← receive_extended 0 deadline
  or_fetch_error (read_extended_handshake payload)

unfoldable pub is_outstanding : ℕ → List ℕ → Bool
is_outstanding piece [] = false
is_outstanding piece (p ∷ outstanding) = (p == piece) || is_outstanding piece outstanding

abbrev pub wrong_total : Option ℕ → ℕ → Bool
wrong_total none metadata_size = false
wrong_total (some total_size) metadata_size = not (total_size == metadata_size)

-- What a ut_metadata message means to `receive_piece`.
unfoldable pub choose_piece :
    List ℕ → ℕ → Bytes → Result Error (ℕ × ℕ × Option ℕ) → Session (ℕ × Bytes) → Session (ℕ × Bytes)
choose_piece outstanding metadata_size input (err value_error) again = fail (fetch_error bad_piece)
choose_piece outstanding metadata_size input (err e) again = fail (raised e)
choose_piece outstanding metadata_size input (ok (msg_type, piece, total_size)) again =
    if not (is_outstanding piece outstanding)
    then again
    else if msg_type == 2
    then fail (fetch_error reject)
    else if not (msg_type == 1)
    then again
    else if not (length input == expected_piece_length metadata_size piece)
        || wrong_total total_size metadata_size
    then fail (fetch_error bad_piece)
    else pure (piece, input)

-- while True: each round receives a message.
unfoldable pub piece_loop : ℕ → List ℕ → ℕ → ℕ → Session (ℕ × Bytes)
piece_loop zero outstanding metadata_size deadline = fail out_of_fuel
piece_loop (suc fuel) outstanding metadata_size deadline = do
  (payload, input) ← receive_extended 1 deadline
  choose_piece outstanding metadata_size input (decode_metadata_message payload)
      (piece_loop fuel outstanding metadata_size deadline)

unfoldable pub receive_piece : List ℕ → ℕ → ℕ → Session (ℕ × Bytes)
receive_piece outstanding metadata_size deadline =
    assert (ltb 0 (length outstanding) && ltb 0 metadata_size) >> λ s.
    piece_loop (suc (length s.incoming)) outstanding metadata_size deadline s

-- `pieces`, a dict of the pieces received, the set of those requested, and the first not requested.
pub record Transfer : Type 0 where
  pub pieces : List (ℕ × Bytes)
  pub outstanding : List ℕ
  pub next_piece : ℕ

-- while next_piece < count and len(outstanding) < PIECE_WINDOW: each round requests a piece.
unfoldable pub request_window : ℕ → ℕ → ℕ → Transfer → Session Transfer
request_window zero their_id count t = pure t
request_window (suc fuel) their_id count t =
    let requested = record t {
      outstanding = t.outstanding ++ t.next_piece ∷ [];
      next_piece = suc t.next_piece;
    } in
    let more = (do
      request ← or_raise (encode_metadata_request recursion_limit their_id t.next_piece)
      write request
      request_window fuel their_id count requested) in
    if ltb t.next_piece count && ltb (length t.outstanding) piece_window then more else pure t

-- outstanding.discard(piece)
unfoldable pub discard : ℕ → List ℕ → List ℕ
discard piece [] = []
discard piece (p ∷ outstanding) =
    let rest = discard piece outstanding in if p == piece then rest else p ∷ rest

abbrev pub received : ℕ × Bytes → Transfer → Transfer
received (piece, input) t = record t {
  pieces = put piece input t.pieces;
  outstanding = discard piece t.outstanding;
}

abbrev pub prepend : Option Bytes → Option Bytes → Option Bytes
prepend none rest = none
prepend (some input) none = none
prepend (some input) (some rest) = some (input ++ rest)

-- b"".join(pieces[index] for index in range(first, first + n))
unfoldable pub join_pieces : ℕ → ℕ → List (ℕ × Bytes) → Option Bytes
join_pieces first zero pieces = some []
join_pieces first (suc n) pieces = prepend (find first pieces) (join_pieces (suc first) n pieces)

-- The pieces joined, which are `metadata_size` bytes.
unfoldable pub join_all : ℕ → Option Bytes → Session Bytes
join_all metadata_size none = fail key_error
join_all metadata_size (some joined) = assert (length joined == metadata_size) >> pure joined

-- The deadlines of a session, in the clock's unit.
pub record Timeouts : Type 0 where
  pub connect : ℕ
  pub handshake : ℕ
  pub piece : ℕ
  pub session : ℕ
  pub utp_connect : ℕ

unfoldable pub receive_in_time : Transfer → ℕ → Timeouts → ℕ → Session (ℕ × Bytes)
receive_in_time t metadata_size timeouts session_deadline s =
    receive_piece t.outstanding metadata_size (min session_deadline (s.now + timeouts.piece)) s

-- while len(pieces) < count: each round receives a piece.
unfoldable pub transfer_loop : ℕ → ℕ → ℕ → Timeouts → ℕ → Transfer → Session Bytes
transfer_loop zero their_id metadata_size timeouts session_deadline t =
    let count = piece_count metadata_size in
    if ltb (length t.pieces) count
    then fail out_of_fuel
    else join_all metadata_size (join_pieces 0 count t.pieces)
transfer_loop (suc fuel) their_id metadata_size timeouts session_deadline t =
    let count = piece_count metadata_size in
    let more = (do
      asked ← request_window piece_window their_id count t
      answer ← receive_in_time asked metadata_size timeouts session_deadline
      transfer_loop fuel their_id metadata_size timeouts session_deadline
          (received answer asked)) in
    if ltb (length t.pieces) count
    then more
    else join_all metadata_size (join_pieces 0 count t.pieces)

unfoldable pub request_pieces : ℕ → ℕ → Timeouts → ℕ → Session Bytes
request_pieces their_id metadata_size timeouts session_deadline =
    assert (leb 1 their_id && leb their_id 255 && ltb 0 metadata_size)
    >> transfer_loop (piece_count metadata_size) their_id metadata_size timeouts session_deadline
        (record { pieces = []; outstanding = []; next_piece = 0 })

-- The two messages, one behind the other, and the assertion on their length.
abbrev pub join_opening : Result Error Bytes → Result Error Bytes → Result Error Bytes
join_opening (err e) second = err e
join_opening (ok handshake) (err e) = err e
join_opening (ok handshake) (ok extended) =
    if ltb handshake_length (length (handshake ++ extended))
    then ok (handshake ++ extended)
    else err assertion_error

-- The peer id is 20 bytes, 12 of them random.
unfoldable pub opening_messages : Bytes → Bytes → Result Error Bytes
opening_messages info_hash peer_id =
    join_opening (encode_handshake info_hash peer_id) (encode_extended_handshake recursion_limit)

unfoldable pub read_session : Bytes → Timeouts → ℕ → ℕ → Session Bytes
read_session info_hash timeouts session_deadline handshake_deadline = do
  read_handshake info_hash handshake_deadline
  (their_id, metadata_size) ← receive_extended_handshake handshake_deadline
  request_pieces their_id metadata_size timeouts session_deadline

unfoldable pub send_opening : Bool → Bytes → Bytes → Session (Unit {0})
send_opening false info_hash peer_id = pure tt
send_opening true info_hash peer_id = or_raise (opening_messages info_hash peer_id) >>= write

unfoldable pub run_session : Bytes → Bytes → Timeouts → ℕ → Bool → Session Bytes
run_session info_hash peer_id timeouts session_deadline send_handshakes = do
  assert (length info_hash == node_id_length)
  send_opening send_handshakes info_hash peer_id
  λ s.
      read_session info_hash timeouts session_deadline
        (min session_deadline (s.now + timeouts.handshake)) s

-- What the sockets of `open_tcp_stream` do: socket.socket raises an OSError, whose errno is in LOCAL_ERRNOS
-- or not; `within` gives up; the connect raises such an error; another call raises an OSError, which
-- nothing catches; or the stream is open, at a time.
pub data Opening : Type 0 where
  no_socket : Bool → Opening
  timed_out : Opening
  not_connected : Bool → Opening
  unusable : Opening
  opened : ℕ → Opening

abbrev pub connect_error_reason : Bool → Reason
connect_error_reason local = if local then local_error else connect

unfoldable pub open_tcp_stream : Opening → Session (Unit {0})
open_tcp_stream (no_socket local) = fail (fetch_error (connect_error_reason local))
open_tcp_stream timed_out = fail (fetch_error connect_timeout)
open_tcp_stream (not_connected local) = fail (fetch_error (connect_error_reason local))
open_tcp_stream unusable = fail os_error
open_tcp_stream (opened at) = λ s. (ok tt, record s { now = max s.now at })

module _ (sha1 : Bytes → Bytes) where
  unfoldable pub verify_metadata : Bytes → Bytes → Session Bytes
  verify_metadata info_hash metadata =
      if not (bytes_eq (sha1 metadata) info_hash)
      then fail (fetch_error sha1_mismatch)
      else pure metadata

  unfoldable pub fetch_until : Bytes → Bytes → Timeouts → Opening → ℕ → Session Bytes
  fetch_until info_hash peer_id timeouts opening session_deadline =
      assert (length info_hash == node_id_length)
      >> open_tcp_stream opening
      >> run_session info_hash peer_id timeouts session_deadline true
      >>= verify_metadata info_hash

  -- The close of the stream in `finally` sends nothing.
  unfoldable pub fetch_metadata : Bytes → Bytes → Timeouts → Opening → Session Bytes
  fetch_metadata info_hash peer_id timeouts opening s =
      fetch_until info_hash peer_id timeouts opening (s.now + timeouts.session) s
