-- ===== src/Fetcher/Refused.antt =====
-- What the decoders of dht_scraper/peer_wire_messages.py raise, for the handlers of a session.
use lif.Common.{
  ℕ, zero, suc, ◌+◌, ◌*◌, [], ◌∷◌, Bool, true, false, Option, none, some, Bytes, length, pos,
  negsuc, Result, ok, err, ◌>>=◌, if◌then◌else◌, arith,
}
use lif.Bencode.Values.{
  in_call, Error, value_error, recursion_error, Value, null, bool, int, bytes, text, list, dict,
  other, Entries,
}
use lif.Bencode.Safety.{Reads, returned, refused, too_deep, decode_value_at-Reads}
use lif.PeerWire.Messages.{
  check_message, decode_handshake, extended_payload, decode_extended_message,
  decode_metadata_message,
}

-- The call returned or raised ValueError; or RecursionError.
pub data Caught {A : Type 0} : Result Error A → Type 0 where
  well_formed : {a : A} → Caught (ok a)
  malformed : Caught (err value_error)

pub data Refuses {A : Type 0} : Result Error A → Type 0 where
  read : {a : A} → Refuses (ok a)
  not_read : Refuses (err value_error)
  not_nested : Refuses (err recursion_error)

Caught-if : {A : Type 0} (b : Bool) (a : A) → Caught (if b then err value_error else ok a)
Caught-if true a = malformed
Caught-if false a = well_formed

pub decode_handshake-Caught : (b : Bytes) → Caught (decode_handshake b)
unfolding decode_handshake
decode_handshake-Caught b = Caught-if _ _

check_message-Caught :
    (kind piece : Option ℕ) (total : Option Value) → Caught (check_message kind piece total)
unfolding check_message
check_message-Caught none piece total = malformed
check_message-Caught (some kind) none total = malformed
check_message-Caught (some kind) (some piece) none = well_formed
check_message-Caught (some kind) (some piece) (some (int (pos n))) = well_formed
check_message-Caught (some kind) (some piece) (some (int (negsuc n))) = malformed
check_message-Caught (some kind) (some piece) (some null) = malformed
check_message-Caught (some kind) (some piece) (some (bool b)) = malformed
check_message-Caught (some kind) (some piece) (some (bytes b)) = malformed
check_message-Caught (some kind) (some piece) (some (text t)) = malformed
check_message-Caught (some kind) (some piece) (some (list xs)) = malformed
check_message-Caught (some kind) (some piece) (some (dict es)) = malformed
check_message-Caught (some kind) (some piece) (some other) = malformed

pub decode_metadata_message-Caught : (payload : Entries) → Caught (decode_metadata_message payload)
unfolding decode_metadata_message
decode_metadata_message-Caught payload = check_message-Caught _ _ _

extended_payload-Refuses :
    (n extension_id : ℕ) (input : Bytes) (r : Result Error (Value × Bytes))
    → Reads n input r
    → Refuses (do decoded ← r; extended_payload extension_id decoded)
unfolding extended_payload
extended_payload-Refuses n extension_id input _ refused = not_read
extended_payload-Refuses n extension_id input _ (too_deep d) = not_nested
extended_payload-Refuses n extension_id input _ (returned {a} used rest e p) = from a
  where
    from : (v : Value) → Refuses (extended_payload extension_id (v, rest))
    from (dict es) = read
    from null = not_read
    from (bool b) = not_read
    from (int z) = not_read
    from (bytes b) = not_read
    from (text t) = not_read
    from (list xs) = not_read
    from other = not_read

pub decode_extended_message-Refuses :
    (frames : ℕ) (body : Bytes) → Refuses (decode_extended_message frames body)
unfolding decode_extended_message in_call
decode_extended_message-Refuses zero body = not_nested
decode_extended_message-Refuses (suc f) [] = not_read
decode_extended_message-Refuses (suc f) (id ∷ []) = not_read
decode_extended_message-Refuses (suc f) (id ∷ b ∷ body) =
    extended_payload-Refuses f id (b ∷ body) _
      (decode_value_at-Reads f (2 * length (b ∷ body) + 1) (b ∷ body) (omega arith) (omega arith))
