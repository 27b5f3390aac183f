-- ===== src/Fetcher/Sound.antt =====
-- How `run_session` and `fetch_metadata` of dht_scraper/metadata_fetcher.py end.
use lif.Common.{
  ℕ, zero, suc, ◌+◌, ◌-◌, ◌/◌, ◌≤◌, ◌<◌, min, [], ◌∷◌, ◌++◌, Bool, true, false, ◌&&◌, Bytes, ltb,
  leb, ◌==◌, ==_iff, length, ok, ◌≡◌, refl, arith, length-append,
}
use lif.Bencode.Values.{max_str_digits, recursion_limit}
use lif.PeerWire.Messages.{
  node_id_length, handshake_length, max_metadata_size, piece_count, encode_metadata_request,
}
use lif.PeerWire.Handshake.{decode_handshake-encode_handshake}
use lif.PeerWire.Extended.{encode_metadata_request_ok, encode_extended_handshake_ok}
use lif.Fetcher.Stream.{Stream, Session, pure, or_raise, ◌>>=◌, ◌>>◌, write}
use lif.Fetcher.Session.{
  piece_window, Transfer, request_window, received, join_pieces, join_all, Timeouts,
  receive_in_time, transfer_loop, request_pieces, opening_messages, read_session, send_opening,
  run_session, is_outstanding, receive_extended_handshake, read_handshake,
}
use lif.Fetcher.Outcome.{Outcome, done, if-Outcome, Outcome-bind, Outcome-weaken}
use lif.Fetcher.Reads.{
  read_handshake-Outcome, receive_extended_handshake-Outcome, receive_piece-Outcome, assert-Outcome,
  Announced,
}
use lif.Fetcher.Pieces.{
  Fair, request-Fair, length-received, received-Fair, join_pieces-Fair, times, keys,
}

-- More requests, from a fair transfer.
record Asks (size : ℕ) (t t' : Transfer) : Type 0 where
  fair : Fair size t'
  same : t'.pieces ≡ t.pieces
  more : length t.outstanding ≤ length t'.outstanding

abbrev Requests : ℕ → Transfer → Transfer → Stream → Type 0
Requests size t t' s = Asks size t t'

few_pieces :
    (size piece : ℕ)
    → size ≤ max_metadata_size
    → ltb piece (piece_count size) ≡ true
    → piece < max_str_digits
unfolding piece_count
few_pieces size piece h k =
    let l : piece < (size + 16384 - 1) / 16384 = ground arith in omega (arith, h, l)

request-Outcome :
    {P : Transfer → Stream → Type 0} (their_id piece : ℕ) (after : Session Transfer) (s : Stream)
    → 1 ≤ their_id
    → their_id ≤ 255
    → piece < max_str_digits
    → ((u : Stream) → Outcome P (after u))
    → Outcome P (
        (or_raise (encode_metadata_request recursion_limit their_id piece) >>= λ request.
        write request >> after)
          s)
unfolding write
request-Outcome their_id piece after s low high few k =
    let (frame, encoded) =
      encode_metadata_request_ok recursion_limit their_id piece (omega arith) low high few in
    rw encoded (k _)

request_window-Outcome :
    (fuel size their_id : ℕ) (t : Transfer) (s : Stream)
    → 1 ≤ their_id
    → their_id ≤ 255
    → size ≤ max_metadata_size
    → Fair size t
    → Outcome (Requests size t) (request_window fuel their_id (piece_count size) t s)
unfolding request_window
request_window-Outcome zero size their_id t s low high fits f =
    done t s (record { fair = f; same = refl; more = omega arith })
request_window-Outcome (suc fuel) size their_id t s low high fits f =
    let requested = record t {
      outstanding = t.outstanding ++ t.next_piece ∷ [];
      next_piece = suc t.next_piece;
    } in
    if-Outcome (ltb t.next_piece (piece_count size) && ltb (length t.outstanding) piece_window) _ _
      s
      (λ h.
        request-Outcome their_id t.next_piece _ s low high
          (few_pieces size t.next_piece fits (ground arith))
          (λ u.
            Outcome-weaken _
              (request_window-Outcome fuel size their_id requested u low high fits
                (request-Fair size t f (ground arith)))
              (λ t' v a. done t' v (record {
                fair = a.fair;
                same = a.same;
                more = omega (arith, a.more, length-append {0} t.outstanding (t.next_piece ∷ []));
              }))))
      (λ h. done t s (record { fair = f; same = refl; more = omega arith }))

-- While pieces are missing, a window awaits at least one.
record Awaits (size : ℕ) (t t' : Transfer) : Type 0 where
  fair : Fair size t'
  same : t'.pieces ≡ t.pieces
  awaited : 0 < length t'.outstanding

request_window-Awaits :
    (fuel size their_id : ℕ) (t : Transfer) (s : Stream)
    → 1 ≤ their_id
    → their_id ≤ 255
    → size ≤ max_metadata_size
    → Fair size t
    → length t.pieces < piece_count size
    → Outcome (λ t' u. Awaits size t t') (request_window (suc fuel) their_id (piece_count size) t s)
unfolding request_window
request_window-Awaits fuel size their_id t s low high fits f l =
    let requested = record t {
      outstanding = t.outstanding ++ t.next_piece ∷ [];
      next_piece = suc t.next_piece;
    } in
    if-Outcome (ltb t.next_piece (piece_count size) && ltb (length t.outstanding) piece_window) _ _
      s
      (λ h.
        request-Outcome their_id t.next_piece _ s low high
          (few_pieces size t.next_piece fits (ground arith))
          (λ u.
            Outcome-weaken _
              (request_window-Outcome fuel size their_id requested u low high fits
                (request-Fair size t f (ground arith)))
              (λ t' v a. done t' v (record {
                fair = a.fair;
                same = a.same;
                awaited =
                    omega (arith, a.more, length-append {0} t.outstanding (t.next_piece ∷ []));
              }))))
      (λ h.
        done t s (record { fair = f; same = refl; awaited = ground (arith, f.total, f.in_range) }))

abbrev HasSize : ℕ → Bytes → Stream → Type 0
HasSize size b s = length b ≡ size

join_all-Outcome :
    (size : ℕ) (t : Transfer) (s : Stream)
    → Fair size t
    → ltb (length t.pieces) (piece_count size) ≡ false
    → Outcome (HasSize size) (join_all size (join_pieces 0 (piece_count size) t.pieces) s)
unfolding join_all
join_all-Outcome size t s f h =
    let (b, joined, sized) = join_pieces-Fair size t f h in
    rw joined (
      assert-Outcome (length b == size) (pure b) s ((==_iff (length b) size).1 sized)
        (done b s sized))

transfer_loop-Outcome :
    (fuel their_id size : ℕ) (timeouts : Timeouts) (session_deadline : ℕ) (t : Transfer)
    (s : Stream)
    → 1 ≤ their_id
    → their_id ≤ 255
    → 0 < size
    → size ≤ max_metadata_size
    → Fair size t
    → piece_count size ≤ fuel + length t.pieces
    → Outcome (HasSize size) (transfer_loop fuel their_id size timeouts session_deadline t s)
unfolding transfer_loop receive_in_time
transfer_loop-Outcome zero their_id size timeouts session_deadline t s low high pos fits f l =
    if-Outcome (ltb (length t.pieces) (piece_count size)) _ _ s (λ h. absurd (ground arith))
      (λ h. join_all-Outcome size t s f h)
transfer_loop-Outcome (suc fuel) their_id size timeouts session_deadline t s low high pos fits f l =
    if-Outcome (ltb (length t.pieces) (piece_count size)) _ _ s
      (λ h.
        Outcome-bind (request_window piece_window their_id (piece_count size) t) _ s
          (request_window-Awaits 7 size their_id t s low high fits f (ground arith))
          (λ asked u a.
            Outcome-bind (receive_in_time asked size timeouts session_deadline) _ u
              (receive_piece-Outcome asked.outstanding size
                (min session_deadline (u.now + timeouts.piece)) u a.awaited pos)
              (λ answer v r.
                transfer_loop-Outcome fuel their_id size timeouts session_deadline
                  (received answer asked) v low high pos fits
                  (received-Fair size asked answer.0 answer.1 a.fair r.0 r.1)
                  (more_pieces asked answer a r.0 h))))
      (λ h. join_all-Outcome size t s f h)
  where
    more_pieces :
        (asked : Transfer) (answer : ℕ × Bytes)
        → Awaits size t asked
        → is_outstanding answer.0 asked.outstanding ≡ true
        → ltb (length t.pieces) (piece_count size) ≡ true
        → piece_count size ≤ fuel + length (received answer asked).pieces
    more_pieces asked answer a h k =
        let kept : length asked.pieces ≡ length t.pieces = rw a.same in
        omega (arith, l, kept, length-received size asked answer.0 answer.1 a.fair h)

request_pieces-Outcome :
    (their_id size : ℕ) (timeouts : Timeouts) (session_deadline : ℕ) (s : Stream)
    → Announced (their_id, size)
    → Outcome (HasSize size) (request_pieces their_id size timeouts session_deadline s)
unfolding request_pieces times keys
request_pieces-Outcome their_id size timeouts session_deadline s a =
    assert-Outcome (leb 1 their_id && leb their_id 255 && ltb 0 size)
      (transfer_loop (piece_count size) their_id size timeouts session_deadline start) s
      (ground (arith, a.0, a.1, a.2))
      (transfer_loop-Outcome (piece_count size) their_id size timeouts session_deadline start s a.0
        a.1 a.2 a.3 fair (omega arith))
  where
    start : Transfer
    start = record { pieces = []; outstanding = []; next_piece = 0 }

    fair : Fair size start
    fair = record {
      in_range = omega arith;
      once = λ p l. absurd (omega arith);
      later = λ p l. omega arith;
      total = omega arith;
      whole = tt;
    }

-- Metadata of a size that was acceptable.
abbrev pub Acceptable : Bytes → Stream → Type 0
Acceptable b s = (0 < length b) × (length b ≤ max_metadata_size)

read_session-Outcome :
    (info_hash : Bytes) (timeouts : Timeouts) (session_deadline deadline : ℕ) (s : Stream)
    → Outcome Acceptable (read_session info_hash timeouts session_deadline deadline s)
unfolding read_session
read_session-Outcome info_hash timeouts session_deadline deadline s =
    Outcome-bind (read_handshake info_hash deadline) _ s
      (read_handshake-Outcome info_hash deadline s)
      (λ u t l.
        Outcome-bind (receive_extended_handshake deadline) _ t
          (receive_extended_handshake-Outcome deadline t)
          (λ a v h.
            Outcome-weaken _ (request_pieces-Outcome a.0 a.1 timeouts session_deadline v h)
              (λ b w e. done b w (omega (arith, e, h.2), omega (arith, e, h.3)))))

opening_messages_ok :
    (info_hash peer_id : Bytes)
    → length info_hash ≡ node_id_length
    → length peer_id ≡ node_id_length
    → (b : Bytes) × (opening_messages info_hash peer_id ≡ ok b)
unfolding opening_messages
opening_messages_ok info_hash peer_id h k =
    let (b, encoded, sized, decoded) = decode_handshake-encode_handshake info_hash peer_id h k in
    let (e, extended, some_bytes) = encode_extended_handshake_ok recursion_limit (omega arith) in
    let longer : ltb handshake_length (length (b ++ e)) ≡ true =
      ground (arith, sized, some_bytes, length-append {0} b e) in
    (b ++ e, rw (encoded, extended, longer) refl)

send_opening-Outcome :
    (send_handshakes : Bool) (info_hash peer_id : Bytes) (s : Stream)
    → length info_hash ≡ node_id_length
    → length peer_id ≡ node_id_length
    → Outcome (λ u t. Unit {0}) (send_opening send_handshakes info_hash peer_id s)
unfolding send_opening write
send_opening-Outcome false info_hash peer_id s h k = done tt s tt
send_opening-Outcome true info_hash peer_id s h k =
    let (b, sent) = opening_messages_ok info_hash peer_id h k in rw sent (done tt _ tt)

-- A session for a 20-byte hash and peer id, whatever the peer sends and when, ends: with metadata
-- whose length is from 1 to MAX_METADATA_SIZE, or with a MetadataFetchError. No assertion on the hash,
-- the sizes or the pieces awaited fails, no message is refused by its encoder, no piece is missing when
-- the pieces are joined, and no loop runs out of the fuel that it is given.
pub run_session-Outcome :
    (info_hash peer_id : Bytes) (timeouts : Timeouts) (session_deadline : ℕ)
    (send_handshakes : Bool) (s : Stream)
    → length info_hash ≡ node_id_length
    → length peer_id ≡ node_id_length
    → Outcome Acceptable (run_session info_hash peer_id timeouts session_deadline send_handshakes s)
unfolding run_session
run_session-Outcome info_hash peer_id timeouts session_deadline send_handshakes s h k =
    let rest : Session Bytes = λ t.
      read_session info_hash timeouts session_deadline
        (min session_deadline (t.now + timeouts.handshake)) t in
    assert-Outcome (length info_hash == node_id_length)
      (send_opening send_handshakes info_hash peer_id >> rest) s
      ((==_iff (length info_hash) 20).1 h)
      (Outcome-bind (send_opening send_handshakes info_hash peer_id) _ s
        (send_opening-Outcome send_handshakes info_hash peer_id s h k)
        (λ u t l.
          read_session-Outcome info_hash timeouts session_deadline
            (min session_deadline (t.now + timeouts.handshake)) t))

module _ (sha1 : Bytes → Bytes) where
  -- Metadata of an acceptable size, whose SHA-1 is the hash that was asked for.
  abbrev pub Verified : Bytes → Bytes → Stream → Type 0
  Verified info_hash b s = (sha1 b ≡ info_hash) × (0 < length b) × (length b ≤ max_metadata_size)
