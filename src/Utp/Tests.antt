-- ===== src/Utp/Tests.antt =====
-- Runs of the uTP packets and of a connection, and the theorems at inputs.
use lif.Common.{
  length, ◌+◌, ℕ, ◌%◌, ◌^◌, ◌<◌, ◌≤◌, [], ◌∷◌, Bytes, true, false, none, some, nat_eq,
  if◌then◌else◌, ◌≡◌, ◌↔◌, refl, arith, ascii,
}
use lif.RecentMap.{find, contains, without}
use lif.PeerWire.Messages.{timeout, connect_timeout}
use lif.Utp.Packets.{
  st_reset, UtpPacket, sequence_mod, encode_utp_packet, decode_utp_packet, skip_extensions,
  sequence_after,
}
use lif.Utp.Connection.{
  UtpConnection, put, deliver, deliver_following, accept, schedule_ack, acknowledge, data_received,
  check_resend,
}
use lif.Utp.InOrder.{number, InOrder, Delivers, data_received-Delivers, data_received_next}
use lif.Utp.Codec.{
  InRange, decode_utp_packet-encode_utp_packet, Ends, skip_extensions-Ends, sequence_after_iff,
}
use lif.Utp.Lifecycle.{
  AllBounded, resent_so_far, find-acknowledge, check_resend-AllBounded, check_resend_gives_up,
}

abbrev packet : UtpPacket
packet = record {
  packet_type = st_reset;
  connection_id = 513;
  timestamp = 70_000;
  timestamp_difference = 3;
  window = 2 ^ 20;
  seq_nr = 65_535;
  ack_nr = 2;
  payload = ascii "x";
}

packet-InRange : InRange packet
packet-InRange = record {
  connection_fits = omega arith;
  timestamp_fits = omega arith;
  difference_fits = omega arith;
  window_fits = omega arith;
  seq_fits = omega arith;
  ack_fits = omega arith;
}

decode_utp_packet-encode_utp_packet_example :
    decode_utp_packet (encode_utp_packet packet) ≡ some packet
decode_utp_packet-encode_utp_packet_example =
    decode_utp_packet-encode_utp_packet packet packet-InRange

skip_extensions-Ends_example :
    Ends (0 ∷ 2 ∷ 8 ∷ 9 ∷ 7 ∷ []) (skip_extensions 6 1 (0 ∷ 2 ∷ 8 ∷ 9 ∷ 7 ∷ []))
skip_extensions-Ends_example = skip_extensions-Ends 6 1 (0 ∷ 2 ∷ 8 ∷ 9 ∷ 7 ∷ []) (omega arith)

sequence_after_iff_example :
    (sequence_after (65_537 % sequence_mod) (65_535 % sequence_mod) ≡ true) ↔ (65_535 < 65_537)
sequence_after_iff_example = sequence_after_iff 65_537 65_535 (omega arith) (omega arith)

-- A connection whose peer's numbers start behind 65533, one byte in each packet.
abbrev base : ℕ
base = 65_533

abbrev segment : ℕ → Bytes
segment n = n ∷ []

abbrev connection : UtpConnection
connection = record {
  recv_id = 7;
  send_id = 8;
  seq_nr = 2;
  ack_nr = 65_533;
  connected_state = true;
  is_closed = false;
  error = none;
  reply_micro = 0;
  buffer = [];
  received_any = false;
  out_of_order = [];
  eof_seq = none;
  unacked = (1, record { packet = ascii "syn"; sent_at = 0; resends = 4 }) ∷ [];
  connected = some true;
  readable = false;
  ack_scheduled = false;
  resend_timer = true;
  outbox = [];
  registered = true;
}

connection-InOrder : InOrder base segment 0 connection
unfolding contains
connection-InOrder = record { acked = refl; ahead = tt; missing = refl }

-- The packets of segments 3, 2 and 1, in this order.
all_delivered :
    (data_received 65_534
      (1 ∷ [])
      (data_received 65_535 (2 ∷ []) (data_received 0 (3 ∷ []) connection))).buffer
    ≡ 1 ∷ 2 ∷ 3 ∷ []
unfolding data_received accept schedule_ack sequence_after put deliver_following deliver find
    without
all_delivered = refl

data_received-Delivers_example :
    Delivers base segment 0 connection
      (data_received (number base segment 3) (segment 3) connection)
data_received-Delivers_example =
    data_received-Delivers base segment 0 3 connection connection-InOrder (omega arith)
      (omega arith)

data_received_next_example :
    (d : Delivers base segment 0 connection
      (data_received (number base segment 1) (segment 1) connection))
    × (1 ≤ d.count)
data_received_next_example = data_received_next base segment 0 connection connection-InOrder

abbrev ended : UtpConnection
ended = record connection { is_closed = true }

find-acknowledge_example :
    find 1 (acknowledge 1 connection).unacked
    ≡ (if sequence_after 1 1 then find 1 connection.unacked else none)
find-acknowledge_example = find-acknowledge 1 1 connection

check_resend_gives_up_example :
    ((check_resend 17_000_000 connection).is_closed ≡ true)
    × ((check_resend 17_000_000 connection).error
        ≡ some (if connection.connected_state then timeout else connect_timeout))
unfolding find
check_resend_gives_up_example =
    check_resend_gives_up 17_000_000 connection 1
      (record { packet = ascii "syn"; sent_at = 0; resends = 4 }) refl refl refl (omega arith)
      (omega arith)

check_resend-AllBounded_example :
    AllBounded (check_resend 9_000_000 connection).unacked
    × (length (check_resend 9_000_000 connection).outbox + resent_so_far connection.unacked
        ≡ length connection.outbox + resent_so_far (check_resend 9_000_000 connection).unacked)
check_resend-AllBounded_example = check_resend-AllBounded 9_000_000 connection (omega arith, tt)
