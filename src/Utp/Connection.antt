-- ===== src/Utp/Connection.antt =====
-- UtpConnection of dht_scraper/utp_transport.py as a record and functions on it.
-- Times are microseconds of one clock. `outbox` is what was handed to the socket, oldest first;
-- `registered` says that the connection is in the socket's table; `resend_timer` and `ack_scheduled`
-- say that the event loop will call `check_resend` and `send_ack`.
use lif.Common.{
  ℕ, zero, suc, ◌+◌, ◌-◌, ◌*◌, ◌%◌, ◌^◌, List, [], ◌∷◌, ◌++◌, Bool, true, false, not, ◌&&◌, Option,
  none, some, Bytes, ltb, leb, ◌==◌, length, take, drop, if◌then◌else◌, nat_eq,
}
use lif.PeerWire.Messages.{Reason, closed, timeout, connect_timeout}
use lif.RecentMap.{find, without}
use lif.Utp.Packets.{
  sequence_mod, timestamp_mod, PacketType, st_data, st_fin, st_state, st_reset, st_syn, UtpPacket,
  encode_utp_packet, sequence_after, next_sequence,
}

abbrev pub max_payload : ℕ
max_payload = 1200

abbrev pub receive_window : ℕ
receive_window = 2 ^ 20

abbrev pub max_out_of_order : ℕ
max_out_of_order = 1024

abbrev pub initial_resend : ℕ
initial_resend = 1_000_000

abbrev pub max_resends : ℕ
max_resends = 4

pub record Unacked : Type 0 where
  pub packet : Bytes
  pub sent_at : ℕ
  pub resends : ℕ

pub record UtpConnection : Type 0 where
  pub recv_id : ℕ
  pub send_id : ℕ
  pub seq_nr : ℕ
  pub ack_nr : ℕ
  pub connected_state : Bool
  pub is_closed : Bool
  pub error : Option Reason
  pub reply_micro : ℕ
  pub buffer : Bytes
  pub received_any : Bool
  pub out_of_order : List (ℕ × Bytes)
  pub eof_seq : Option ℕ
  pub unacked : List (ℕ × Unacked)
  pub connected : Option Bool
  pub readable : Bool
  pub ack_scheduled : Bool
  pub resend_timer : Bool
  pub outbox : List Bytes
  pub registered : Bool

-- UtpSocket.connect registers the connection that it makes.
unfoldable pub new_connection : ℕ → UtpConnection
new_connection recv_id = record {
  recv_id = recv_id;
  send_id = next_sequence recv_id;
  seq_nr = 1;
  ack_nr = 0;
  connected_state = false;
  is_closed = false;
  error = none;
  reply_micro = 0;
  buffer = [];
  received_any = false;
  out_of_order = [];
  eof_seq = none;
  unacked = [];
  connected = none;
  readable = false;
  ack_scheduled = false;
  resend_timer = false;
  outbox = [];
  registered = true;
}

abbrev pub microseconds : ℕ → ℕ
microseconds now = now % timestamp_mod

-- The packet that `send_packet` builds.
unfoldable pub packet_for : PacketType → ℕ → Bytes → ℕ → UtpConnection → Bytes
packet_for packet_type seq_nr payload now c = encode_utp_packet (record {
  packet_type = packet_type;
  connection_id = elim packet_type [ st_syn ↦ c.recv_id | _ ↦ c.send_id ];
  timestamp = microseconds now;
  timestamp_difference = c.reply_micro;
  window = receive_window - length c.buffer;
  seq_nr = seq_nr;
  ack_nr = c.ack_nr;
  payload = payload;
})

unfoldable pub send_packet : PacketType → ℕ → Bytes → ℕ → UtpConnection → UtpConnection
unfolding packet_for
send_packet packet_type seq_nr payload now c = record c {
  outbox = c.outbox ++ packet_for packet_type seq_nr payload now c ∷ [];
}

-- unacked[key] = value: a key that is there keeps its place.
module _ {V : Type 0} where
  unfoldable pub put : ℕ → V → List (ℕ × V) → List (ℕ × V)
  put k v [] = (k, v) ∷ []
  put k v ((j, w) ∷ m) = if j == k then (j, v) ∷ m else (j, w) ∷ put k v m

-- Sends a packet with the next sequence number and remembers it until it is acknowledged.
unfoldable pub send_sequenced : PacketType → Bytes → ℕ → UtpConnection → UtpConnection
unfolding send_packet put
send_sequenced packet_type payload now c =
    let packet = packet_for packet_type c.seq_nr payload now c in
    let sent = send_packet packet_type c.seq_nr payload now c in
    record sent {
      unacked = put c.seq_nr (record { packet = packet; sent_at = now; resends = 0 }) sent.unacked;
      seq_nr = next_sequence c.seq_nr;
    }

unfoldable pub arm_resend : UtpConnection → UtpConnection
arm_resend c = if not c.resend_timer && not c.is_closed then record c { resend_timer = true } else c

unfoldable pub send_syn : ℕ → UtpConnection → UtpConnection
unfolding send_sequenced arm_resend
send_syn now c = arm_resend (send_sequenced st_syn [] now c)

-- for start in range(0, len(data), MAX_PAYLOAD): each round takes at least a byte.
unfoldable pub send_parts : ℕ → Bytes → ℕ → UtpConnection → UtpConnection
unfolding send_sequenced
send_parts zero input now c = c
send_parts (suc fuel) [] now c = c
send_parts (suc fuel) (b ∷ input) now c =
    send_parts fuel (drop max_payload (b ∷ input)) now
      (send_sequenced st_data (take max_payload (b ∷ input)) now c)

unfoldable pub write : Bytes → ℕ → UtpConnection → UtpConnection
unfolding send_parts arm_resend
write input now c = if c.is_closed then c else arm_resend (send_parts (length input) input now c)

-- Deletes every sequence number that is not after `ack_nr`.
unfoldable pub unacked_after : ℕ → List (ℕ × Unacked) → List (ℕ × Unacked)
unacked_after ack_nr [] = []
unacked_after ack_nr ((seq_nr, u) ∷ m) =
    let rest = unacked_after ack_nr m in
    if sequence_after seq_nr ack_nr then (seq_nr, u) ∷ rest else rest

unfoldable pub acknowledge : ℕ → UtpConnection → UtpConnection
unfolding unacked_after
acknowledge ack_nr c = record c { unacked = unacked_after ack_nr c.unacked }

unfoldable pub deliver : ℕ → Bytes → UtpConnection → UtpConnection
deliver seq_nr [] c = record c { ack_nr = seq_nr; readable = true }
deliver seq_nr (b ∷ payload) c = record c {
  ack_nr = seq_nr;
  buffer = c.buffer ++ b ∷ payload;
  received_any = true;
  readable = true;
}

-- while following in self.out_of_order: each round takes an entry out, which is what the fuel counts.
unfoldable pub deliver_following : ℕ → UtpConnection → UtpConnection
deliver_following zero c = c
deliver_following (suc fuel) c =
    let following = next_sequence c.ack_nr in
    elim (find following c.out_of_order) [
      | none ↦ c
      | some payload ↦
          deliver_following fuel (
            deliver following payload
              (record c { out_of_order = without following c.out_of_order }))
    ]

unfoldable pub schedule_ack : UtpConnection → UtpConnection
schedule_ack c = record c { ack_scheduled = true }

-- The branches of `data_received`, before the acknowledgement.
unfoldable pub accept : ℕ → Bytes → UtpConnection → UtpConnection
accept seq_nr payload c =
    if seq_nr == next_sequence c.ack_nr
    then deliver_following (length c.out_of_order) (deliver seq_nr payload c)
    else if sequence_after seq_nr c.ack_nr && ltb (length c.out_of_order) max_out_of_order
    then record c { out_of_order = put seq_nr payload c.out_of_order }
    else c

unfoldable pub data_received : ℕ → Bytes → UtpConnection → UtpConnection
data_received seq_nr payload c = schedule_ack (accept seq_nr payload c)

unfoldable pub send_ack : ℕ → UtpConnection → UtpConnection
unfolding send_packet
send_ack now c =
    let cleared = record c { ack_scheduled = false } in
    if c.is_closed then cleared else send_packet st_state c.seq_nr [] now cleared

-- close(send_reset): the last acknowledgement and the reset go out on a connected connection.
unfoldable pub close : Bool → ℕ → UtpConnection → UtpConnection
unfolding send_packet
close send_reset now c =
    let told =
      (if send_reset && c.connected_state
        then send_packet st_reset c.seq_nr [] now (send_packet st_state c.seq_nr [] now c)
        else c) in
    if c.is_closed
    then c
    else record told { is_closed = true; resend_timer = false; registered = false }

abbrev or_reason : Option Reason → Reason → Option Reason
or_reason none reason = some reason
or_reason (some earlier) reason = some earlier

abbrev or_done : Option Bool → Bool → Option Bool
or_done none result = some result
or_done (some earlier) result = some earlier

unfoldable pub fail : Reason → ℕ → UtpConnection → UtpConnection
fail reason now c = close false now (record c {
  error = or_reason c.error reason;
  connected = or_done c.connected false;
  readable = true;
})

unfoldable pub connect_reply : UtpPacket → UtpConnection → UtpConnection
unfolding acknowledge
connect_reply packet c =
    let acked = acknowledge packet.ack_nr (record c {
      ack_nr = (packet.seq_nr + sequence_mod - 1) % sequence_mod;
      connected_state = true;
    }) in
    record acked { connected = or_done acked.connected true }

-- A packet other than a reset, on an open connection.
unfoldable pub dispatch : PacketType → UtpPacket → UtpConnection → UtpConnection
unfolding acknowledge connect_reply
dispatch st_state packet c =
    if c.connected_state then acknowledge packet.ack_nr c else connect_reply packet c
dispatch st_data packet c =
    if c.connected_state
    then data_received packet.seq_nr packet.payload (acknowledge packet.ack_nr c)
    else c
dispatch st_fin packet c =
    let acked = acknowledge packet.ack_nr c in
    if c.connected_state
    then data_received packet.seq_nr [] (record acked { eof_seq = some packet.seq_nr })
    else c
dispatch st_reset packet c = c
dispatch st_syn packet c = if c.connected_state then acknowledge packet.ack_nr c else c

unfoldable pub packet_received : UtpPacket → ℕ → UtpConnection → UtpConnection
unfolding fail dispatch
packet_received packet now c =
    let timed = record c {
      reply_micro = (microseconds now + timestamp_mod - packet.timestamp) % timestamp_mod;
    } in
    if c.is_closed then c else elim packet.packet_type [
      | st_reset ↦ fail closed now timed
      | other ↦ dispatch other packet timed
    ]

-- The outcome of the walk over the unacknowledged packets: the entries as they are now, the packets
-- sent again, and whether one was sent too often.
abbrev pub Resent : Type 0
Resent = List (ℕ × Unacked) × List Bytes × Bool

unfoldable pub resend_entry : ℕ × Unacked → Unacked → List Bytes → Resent → Resent
resend_entry old again packets (rest, sent, gave_up) =
    ((old.0, again) ∷ rest, packets ++ sent, gave_up)

-- for entry in self.unacked.values(): the loop ends at the first entry that was sent too often.
unfoldable pub resend_due : ℕ → List (ℕ × Unacked) → Resent
unfolding resend_entry
resend_due now [] = ([], [], false)
resend_due now ((seq_nr, u) ∷ m) =
    let rest = resend_due now m in
    let kept = resend_entry (seq_nr, u) u [] rest in
    let again = record u { sent_at = now; resends = u.resends + 1 } in
    let resent = resend_entry (seq_nr, u) again (u.packet ∷ []) rest in
    if ltb (now - u.sent_at) (initial_resend * 2 ^ u.resends)
    then kept
    else if leb max_resends u.resends
    then ((seq_nr, u) ∷ m, [], true)
    else resent

unfoldable pub check_resend : ℕ → UtpConnection → UtpConnection
unfolding resend_due
check_resend now c =
    let stopped = record c { resend_timer = false } in
    let (unacked, sent, gave_up) = resend_due now c.unacked in
    let walked = record stopped { unacked = unacked; outbox = c.outbox ++ sent } in
    if c.is_closed
    then stopped
    else if gave_up
    then fail (if c.connected_state then timeout else connect_timeout) now walked
    else elim unacked [ [] ↦ walked | _ ↦ arm_resend walked ]
