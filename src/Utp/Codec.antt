-- ===== src/Utp/Codec.antt =====
-- uTP packets on the wire, and the order of their sequence numbers.
use lif.Common.{
  sym, append_assoc, take-append-drop, take, ◌++◌, ltb, Bool-cases, inl, inr, ap, ℕ, zero, suc, ◌+◌,
  ◌*◌, ◌/◌, ◌%◌, ◌<◌, [], ◌∷◌, true, some, Bytes, be16, be32, from_be, ◌==◌, length, drop,
  length-drop, ◌≡◌, ◌↔◌, refl, arith,
}
use lif.Utp.Packets.{
  sequence_mod, timestamp_mod, PacketType, st_data, st_fin, st_state, st_reset, st_syn, type_number,
  packet_type_of, UtpPacket, encode_utp_packet, Skipped, malformed, behind, skip_extensions,
  decode_utp_packet, sequence_after,
}

-- The fields fit their place in the header.
pub record InRange (p : UtpPacket) : Type 0 where
  pub connection_fits : p.connection_id < sequence_mod
  pub timestamp_fits : p.timestamp < timestamp_mod
  pub difference_fits : p.timestamp_difference < timestamp_mod
  pub window_fits : p.window < timestamp_mod
  pub seq_fits : p.seq_nr < sequence_mod
  pub ack_fits : p.ack_nr < sequence_mod

type_of_number : (t : PacketType) → packet_type_of ((16 * type_number t + 1) / 16) ≡ some t
unfolding packet_type_of
type_of_number st_data = refl
type_of_number st_fin = refl
type_of_number st_state = refl
type_of_number st_reset = refl
type_of_number st_syn = refl

version_of_number : (t : PacketType) → ((16 * type_number t + 1) % 16 == 1) ≡ true
version_of_number st_data = refl
version_of_number st_fin = refl
version_of_number st_state = refl
version_of_number st_reset = refl
version_of_number st_syn = refl

-- A packet whose fields fit their places is decoded from its encoding.
pub decode_utp_packet-encode_utp_packet :
    (p : UtpPacket) → InRange p → decode_utp_packet (encode_utp_packet p) ≡ some p
unfolding decode_utp_packet encode_utp_packet be16 be32 from_be skip_extensions
decode_utp_packet-encode_utp_packet p r =
    rw (version_of_number p.packet_type, type_of_number p.packet_type) (ground arith)

-- The loop ended: the packet is malformed, or what is behind the extensions is the end of `rest`.
pub data Ends (rest : Bytes) : Skipped → Type 0 where
  refused : Ends rest malformed
  payload : (used left : Bytes) → rest ≡ used ++ left → Ends rest (behind left)

Ends-later : {r : Skipped} (used rest : Bytes) → Ends rest r → Ends (used ++ rest) r
Ends-later used rest refused = refused
Ends-later used rest (payload before left e) =
    payload (used ++ before) left (rw e (sym (append_assoc used before left)))

Ends-same : {r : Skipped} (x y : Bytes) → x ≡ y → Ends x r → Ends y r
Ends-same x y e h = rw (← e) h

-- With more fuel than there are bytes, the loop over the extensions ends: the packet is malformed, or what
-- is behind the extensions is the end of the input.
pub skip_extensions-Ends :
    (f extension : ℕ) (rest : Bytes)
    → length rest < f
    → Ends rest (skip_extensions f extension rest)
unfolding skip_extensions
skip_extensions-Ends f zero rest h = payload [] rest refl
skip_extensions-Ends zero (suc e) rest h = absurd (omega arith)
skip_extensions-Ends (suc f) (suc e) [] h = refused
skip_extensions-Ends (suc f) (suc e) (next ∷ []) h = refused
skip_extensions-Ends (suc f) (suc e) (next ∷ size ∷ rest) h =
    elim (Bool-cases (ltb (length rest) size)) [
      | inl b ↦ rw b refused
      | inr b ↦
          let later =
            skip_extensions-Ends f next (drop size rest) (omega (arith, length-drop size rest)) in
          let whole = take-append-drop size rest in
          rw b (
            Ends-same (next ∷ size ∷ (take size rest ++ drop size rest)) (next ∷ size ∷ rest)
              (ap (λ x. next ∷ size ∷ x) whole)
              (Ends-later (next ∷ size ∷ take size rest) (drop size rest) later))
    ]

-- Of two positions less than half the number range apart, the one whose number is after the other's
-- is the later one.
pub sequence_after_iff :
    (later earlier : ℕ)
    → later < earlier + 0x8000
    → earlier < later + 0x8000
    → (sequence_after (later % sequence_mod) (earlier % sequence_mod) ≡ true) ↔ (earlier < later)
unfolding sequence_after
sequence_after_iff later earlier h k = (λ e. ground arith, λ l. ground arith)
