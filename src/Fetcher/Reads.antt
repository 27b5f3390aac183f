-- ===== src/Fetcher/Reads.antt =====
-- How the reads of a session end, up to `receive_extended_handshake` and `receive_piece`.
use lif.Common.{
  ℕ, zero, suc, ◌≤◌, ◌<◌, List, [], ◌∷◌, Bool, true, false, not, ◌&&◌, ◌||◌, Option, Bytes,
  bytes_eq, ltb, ◌==◌, length, Result, ok, err, ◌≡◌, refl, arith,
}
use lif.Bencode.Values.{Error, Entries, recursion_limit}
use lif.PeerWire.Messages.{
  Reason, closed, closed_on_handshake, bad_piece, reject, bad_handshake, hash_mismatch,
  no_extensions, frame_too_large, bad_extended_message, handshake_length, message_extended,
  max_metadata_size, decode_handshake, decode_frame_length, decode_extended_message,
  read_extended_handshake, decode_metadata_message, expected_piece_length,
}
use lif.Fetcher.Refused.{
  Caught, malformed, Refuses, not_read, not_nested, decode_handshake-Caught,
  decode_metadata_message-Caught, decode_extended_message-Refuses,
}
use lif.PeerWire.Extended.{read_extended_handshake_bounds}
use lif.Fetcher.Stream.{Stream, Session, ◌>>◌, read_exactly}
use lif.Fetcher.Session.{
  max_frame_length, Frame, keep_alive, frame, split_body, read_body, read_frame, check_handshake,
  read_handshake, choose_extended, choose_frame, extended_loop, receive_extended, assert,
  or_fetch_error, receive_extended_handshake, is_outstanding, wrong_total, choose_piece, piece_loop,
  receive_piece,
}
use lif.Fetcher.Outcome.{
  Outcome, done, refused, left, Shrinks, if-Outcome, Outcome-bind, Outcome-weaken,
  read_exactly-Outcome,
}

split_body-Outcome :
    (n : ℕ) (b : Bytes) (s s' : Stream)
    → length b ≡ suc n
    → left s' ≤ left s
    → Outcome (λ f t. left t ≤ left s) (split_body b s')
unfolding split_body
split_body-Outcome n [] s s' h l = absurd (omega arith)
split_body-Outcome n (c ∷ b) s s' h l = done (frame c b) s' l

read_body-Outcome :
    (deadline n : ℕ) (s : Stream) → Outcome (λ f t. left t ≤ left s) (read_body deadline n s)
unfolding read_body
read_body-Outcome deadline zero s = done keep_alive s (omega arith)
read_body-Outcome deadline (suc n) s =
    if-Outcome (suc n == 0) _ _ s (λ h. absurd (ground arith))
      (λ h.
        if-Outcome (ltb max_frame_length (suc n)) _ _ s (λ k. refused frame_too_large s)
          (λ k.
            Outcome-bind (read_exactly (suc n) deadline closed) split_body s
              (read_exactly-Outcome (suc n) deadline closed s)
              (λ b s' p. split_body-Outcome n b s s' (omega (arith, p.0)) (omega (arith, p.1)))))

read_frame-Outcome :
    (deadline : ℕ) (s : Stream) → Outcome (λ f t. Shrinks 1 s t) (read_frame deadline s)
unfolding read_frame
read_frame-Outcome deadline s =
    Outcome-bind (read_exactly 4 deadline closed) _ s (read_exactly-Outcome 4 deadline closed s)
      (λ b s' p.
        Outcome-weaken _ (read_body-Outcome deadline (decode_frame_length b) s')
          (λ f t q. done f t (omega (arith, p.1, q))))

pub read_handshake-Outcome :
    (info_hash : Bytes) (deadline : ℕ) (s : Stream)
    → Outcome (λ u t. left t ≤ left s) (read_handshake info_hash deadline s)
unfolding read_handshake check_handshake decode_handshake
read_handshake-Outcome info_hash deadline s =
    Outcome-bind (read_exactly handshake_length deadline closed_on_handshake) _ s
      (read_exactly-Outcome handshake_length deadline closed_on_handshake s)
      (λ b s' p. check (decode_handshake b) (decode_handshake-Caught b) s' (omega (arith, p.1)))
  where
    check :
        (r : Result Error (Bytes × Bytes × Bool))
        → Caught r
        → (t : Stream) → left t ≤ left s
        → Outcome (λ u t. left t ≤ left s) (check_handshake info_hash r t)
    check (err e) malformed t l = refused bad_handshake t
    check (ok (remote_hash, peer_id, supported)) c t l =
        if-Outcome (not (bytes_eq remote_hash info_hash)) _ _ t (λ h. refused hash_mismatch t)
          (λ h. if-Outcome (not supported) _ _ t (λ k. refused no_extensions t) (λ k. done tt t l))

choose_extended-Outcome :
    (n extension_id : ℕ) (r : Result Error (ℕ × Entries × Bytes))
    (again : Session (Entries × Bytes)) (s : Stream)
    → Refuses r
    → left s ≤ n
    → Outcome (λ a t. left t ≤ n) (again s)
    → Outcome (λ a t. left t ≤ n) (choose_extended extension_id r again s)
unfolding choose_extended
choose_extended-Outcome n extension_id (err e) again s not_read l o = refused bad_extended_message s
choose_extended-Outcome n extension_id (err e) again s not_nested l o =
    refused bad_extended_message s
choose_extended-Outcome n extension_id (ok (received, payload, trailing)) again s c l o =
    if-Outcome (received == extension_id) _ _ s (λ h. done (payload, trailing) s l) (λ h. o)

choose_frame-Outcome :
    (n extension_id : ℕ) (f : Frame) (again : Session (Entries × Bytes)) (s : Stream)
    → left s ≤ n
    → Outcome (λ a t. left t ≤ n) (again s)
    → Outcome (λ a t. left t ≤ n) (choose_frame extension_id f again s)
unfolding choose_frame
choose_frame-Outcome n extension_id keep_alive again s l o = o
choose_frame-Outcome n extension_id (frame id body) again s l o =
    if-Outcome (not (id == message_extended)) _ _ s (λ h. o)
      (λ h.
        choose_extended-Outcome n extension_id (decode_extended_message recursion_limit body) again
          s (decode_extended_message-Refuses recursion_limit body) l o)

-- A round of the loop takes a byte at least.
extended_loop-Outcome :
    (fuel extension_id deadline : ℕ) (s : Stream)
    → left s < fuel
    → Outcome (λ a t. Shrinks 1 s t) (extended_loop fuel extension_id deadline s)
unfolding extended_loop
extended_loop-Outcome zero extension_id deadline s l = absurd (omega arith)
extended_loop-Outcome (suc fuel) extension_id deadline s l =
    Outcome-bind (read_frame deadline) _ s (read_frame-Outcome deadline s) (λ f s' p.
      Outcome-weaken _
        (choose_frame-Outcome (left s') extension_id f (extended_loop fuel extension_id deadline) s'
          (omega arith)
          (Outcome-weaken _
            (extended_loop-Outcome fuel extension_id deadline s' (omega (arith, p, l)))
            (λ a t q. done a t (omega (arith, q)))))
        (λ a t q. done a t (omega (arith, p, q))))

receive_extended-Outcome :
    (extension_id deadline : ℕ) (s : Stream)
    → Outcome (λ a t. Shrinks 1 s t) (receive_extended extension_id deadline s)
unfolding receive_extended
receive_extended-Outcome extension_id deadline s =
    extended_loop-Outcome (suc (left s)) extension_id deadline s (omega arith)

module _ {A : Type 0} {P : A → Stream → Type 0} where
  pub assert-Outcome :
      (b : Bool) (m : Session A) (s : Stream)
      → b ≡ true
      → Outcome P (m s)
      → Outcome P ((assert b >> m) s)
  unfolding assert
  assert-Outcome true m s h o = o
  assert-Outcome false m s h o = cc

-- What the peer announced is within the bounds.
abbrev pub Announced : ℕ × ℕ → Type 0
Announced (their_id, size) =
    (1 ≤ their_id) × (their_id ≤ 255) × (0 < size) × (size ≤ max_metadata_size)

pub receive_extended_handshake-Outcome :
    (deadline : ℕ) (s : Stream)
    → Outcome (λ a t. Announced a) (receive_extended_handshake deadline s)
unfolding receive_extended_handshake or_fetch_error
receive_extended_handshake-Outcome deadline s =
    Outcome-bind (receive_extended 0 deadline) _ s (receive_extended-Outcome 0 deadline s)
      (λ a s' p. check a.0 (read_extended_handshake a.0) refl s')
  where
    check :
        (payload : Entries) (r : Result Reason (ℕ × ℕ))
        → read_extended_handshake payload ≡ r
        → (t : Stream) → Outcome (λ a t. Announced a) (or_fetch_error r t)
    check payload (err reason) e t = refused reason t
    check payload (ok (their_id, size)) e t =
        let b = read_extended_handshake_bounds payload their_id size e in
        done (their_id, size) t (b.0, b.1, b.2, b.3)

-- A piece that was asked for, of the length it must have.
abbrev pub Asked : List ℕ → ℕ → ℕ × Bytes → Type 0
Asked outstanding size (piece, input) =
    (is_outstanding piece outstanding ≡ true) × (length input ≡ expected_piece_length size piece)

choose_piece-Outcome :
    (outstanding : List ℕ) (size : ℕ) (input : Bytes) (r : Result Error (ℕ × ℕ × Option ℕ))
    (again : Session (ℕ × Bytes)) (s : Stream)
    → Caught r
    → Outcome (λ a t. Asked outstanding size a) (again s)
    → Outcome (λ a t. Asked outstanding size a) (choose_piece outstanding size input r again s)
unfolding choose_piece
choose_piece-Outcome outstanding size input (err e) again s malformed o = refused bad_piece s
choose_piece-Outcome outstanding size input (ok (kind, piece, total)) again s c o =
    if-Outcome (not (is_outstanding piece outstanding)) _ _ s (λ h. o)
      (λ h.
        if-Outcome (kind == 2) _ _ s (λ k. refused reject s)
          (λ k.
            if-Outcome (not (kind == 1)) _ _ s (λ l. o)
              (λ l.
                if-Outcome
                  (not (length input == expected_piece_length size piece) || wrong_total total size)
                  _ _ s (λ m. refused bad_piece s)
                  (λ m. done (piece, input) s (ground arith, ground arith)))))

piece_loop-Outcome :
    (fuel : ℕ) (outstanding : List ℕ) (size deadline : ℕ) (s : Stream)
    → left s < fuel
    → Outcome (λ a t. Asked outstanding size a) (piece_loop fuel outstanding size deadline s)
unfolding piece_loop
piece_loop-Outcome zero outstanding size deadline s l = absurd (omega arith)
piece_loop-Outcome (suc fuel) outstanding size deadline s l =
    Outcome-bind (receive_extended 1 deadline) _ s (receive_extended-Outcome 1 deadline s)
      (λ a s' p.
        choose_piece-Outcome outstanding size a.1 (decode_metadata_message a.0)
          (piece_loop fuel outstanding size deadline) s' (decode_metadata_message-Caught a.0)
          (piece_loop-Outcome fuel outstanding size deadline s' (omega (arith, p, l))))

pub receive_piece-Outcome :
    (outstanding : List ℕ) (size deadline : ℕ) (s : Stream)
    → 0 < length outstanding
    → 0 < size
    → Outcome (λ a t. Asked outstanding size a) (receive_piece outstanding size deadline s)
unfolding receive_piece
receive_piece-Outcome outstanding size deadline s h k =
    assert-Outcome (ltb 0 (length outstanding) && ltb 0 size)
      (λ t. piece_loop (suc (left t)) outstanding size deadline t) s (ground arith)
      (piece_loop-Outcome (suc (left s)) outstanding size deadline s (omega arith))
