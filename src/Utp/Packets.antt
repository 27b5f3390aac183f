-- ===== src/Utp/Packets.antt =====
-- The packets of dht_scraper/utp_transport.py and the order of sequence numbers.
use lif.Common.{
  ℕ, zero, suc, ◌+◌, ◌-◌, ◌*◌, ◌/◌, ◌%◌, ◌^◌, [], ◌∷◌, ◌++◌, Bool, not, ◌&&◌, Option, none, some,
  Bytes, be16, be32, from_be, ltb, ◌==◌, length, take, drop, get_or, if◌then◌else◌,
}

abbrev pub sequence_mod : ℕ
sequence_mod = 2 ^ 16

abbrev pub timestamp_mod : ℕ
timestamp_mod = 2 ^ 32

-- The size of struct "!BBHIIIHH".
abbrev pub header_size : ℕ
header_size = 20

pub data PacketType : Type 0 where
  st_data st_fin st_state st_reset st_syn : PacketType

abbrev pub type_number : PacketType → ℕ
type_number st_data = 0
type_number st_fin = 1
type_number st_state = 2
type_number st_reset = 3
type_number st_syn = 4

-- `none` is a number above ST_SYN.
unfoldable pub packet_type_of : ℕ → Option PacketType
packet_type_of n =
    if n == 0
    then some st_data
    else if n == 1
    then some st_fin
    else if n == 2
    then some st_state
    else if n == 3
    then some st_reset
    else if n == 4
    then some st_syn
    else none

pub record UtpPacket : Type 0 where
  pub packet_type : PacketType
  pub connection_id : ℕ
  pub timestamp : ℕ
  pub timestamp_difference : ℕ
  pub window : ℕ
  pub seq_nr : ℕ
  pub ack_nr : ℕ
  pub payload : Bytes

-- `(packet_type << 4) | UTP_VERSION` is 16 * type + 1, and `& MASK` is the remainder.
unfoldable pub encode_utp_packet : UtpPacket → Bytes
encode_utp_packet p =
    (16 * type_number p.packet_type + 1)
    ∷ 0
    ∷ (be16 p.connection_id
        ++ (be32 (p.timestamp % timestamp_mod)
            ++ (be32 (p.timestamp_difference % timestamp_mod)
                ++ (be32 p.window
                    ++ (be16 (p.seq_nr % sequence_mod)
                        ++ (be16 (p.ack_nr % sequence_mod) ++ p.payload))))))

-- How the loop over the extensions ends: the packet is malformed, or this is behind them. `out_of_fuel`
-- has no counterpart in the program.
pub data Skipped : Type 0 where
  malformed out_of_fuel : Skipped
  behind : Bytes → Skipped

-- `while extension`: the input behind the header, and the type of the extension in front of it. Each
-- extension takes two bytes at least, which is what the fuel counts.
unfoldable pub skip_extensions : ℕ → ℕ → Bytes → Skipped
skip_extensions fuel zero rest = behind rest
skip_extensions zero (suc extension) rest = out_of_fuel
skip_extensions (suc fuel) (suc extension) [] = malformed
skip_extensions (suc fuel) (suc extension) (next ∷ []) = malformed
skip_extensions (suc fuel) (suc extension) (next ∷ size ∷ rest) =
    let more = skip_extensions fuel next (drop size rest) in
    if ltb (length rest) size then malformed else more

unfoldable pub with_payload : PacketType → Bytes → Skipped → Option UtpPacket
with_payload packet_type input malformed = none
with_payload packet_type input out_of_fuel = none
with_payload packet_type input (behind payload) = some (record {
  packet_type = packet_type;
  connection_id = from_be (take 2 (drop 2 input));
  timestamp = from_be (take 4 (drop 4 input));
  timestamp_difference = from_be (take 4 (drop 8 input));
  window = from_be (take 4 (drop 12 input));
  seq_nr = from_be (take 2 (drop 16 input));
  ack_nr = from_be (take 2 (drop 18 input));
  payload = payload;
})

unfoldable pub with_type : Bytes → Option PacketType → Option UtpPacket
unfolding with_payload
with_type input none = none
with_type input (some packet_type) =
    with_payload packet_type input
      (skip_extensions (suc (length input)) (get_or input 1 0) (drop header_size input))

unfoldable pub decode_utp_packet : Bytes → Option UtpPacket
unfolding with_type packet_type_of
decode_utp_packet input =
    if ltb (length input) header_size
    then none
    else if not (get_or input 0 0 % 16 == 1)
    then none
    else with_type input (packet_type_of (get_or input 0 0 / 16))

-- `(later - earlier) & SEQUENCE_MASK < 0x8000`, for numbers below 2^16.
unfoldable pub sequence_after : ℕ → ℕ → Bool
sequence_after later earlier =
    not (later == earlier) && ltb ((later + sequence_mod - earlier) % sequence_mod) 0x8000

-- (n + 1) & SEQUENCE_MASK
abbrev pub next_sequence : ℕ → ℕ
next_sequence n = (n + 1) % sequence_mod
