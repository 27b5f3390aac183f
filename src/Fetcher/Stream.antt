-- ===== src/Fetcher/Stream.antt =====
-- A connection to one peer, as a session uses it (ByteStream, PeerStream), and the effects of a session.
-- The peer's bytes come with the time at which they arrive; `now` is the event loop's clock.
use lif.Common.{
  ℕ, zero, suc, List, [], ◌∷◌, ◌++◌, Bool, true, false, Bytes, leb, max, if◌then◌else◌, Result, ok,
  err,
}
use lif.Bencode.Values.{Error}
use lif.PeerWire.Messages.{Reason, closed, timeout}

-- What follows the last byte: the peer closes, the connection breaks with an OSError, or nothing.
pub data Ending : Type 0 where
  ends broken silent : ℕ → Ending

pub record Stream : Type 0 where
  pub now : ℕ
  pub incoming : List (ℕ × ℕ)
  pub ending : Ending
  pub written : List Bytes

-- What a session raises: MetadataFetchError, or an error that no handler catches. `out_of_fuel` has no
-- counterpart in the program.
pub data Failure : Type 0 where
  fetch_error : Reason → Failure
  raised : Error → Failure
  key_error os_error out_of_fuel : Failure

abbrev pub Session : Type 0 → Type 0
Session A = Stream → Result Failure A × Stream

module _ {A : Type 0} where
  abbrev pub pure : A → Session A
  pure a s = (ok a, s)

  abbrev pub fail : Failure → Session A
  fail e s = (err e, s)

  abbrev pub or_raise : Result Error A → Session A
  or_raise (ok a) = pure a
  or_raise (err e) = fail (raised e)

infixl 10 ◌>>=◌ ◌>>◌
abbrev pub ◌>>=◌ : {A B : Type 0} → Session A → (A → Session B) → Session B
◌>>=◌ m after s = let (r, s') = m s in elim r [ ok a ↦ after a s' | err e ↦ fail e s' ]

abbrev pub ◌>>◌ : {A B : Type 0} → Session A → Session B → Session B
m >> after = m >>= λ _. after

unfoldable pub write : Bytes → Session (Unit {0})
write input s = (ok tt, record s { written = s.written ++ input ∷ [] })

-- Why a read fails behind the last byte; `partial` says that some of its bytes had come.
unfoldable pub end_reason : Ending → ℕ → Bool → Reason → Reason
end_reason (ends at) deadline partial closed_reason =
    if leb deadline at then timeout else if partial then closed else closed_reason
end_reason (broken at) deadline partial closed_reason =
    if leb deadline at then timeout else closed_reason
end_reason (silent at) deadline partial closed_reason = timeout

-- reader.readexactly(n) until the deadline, from the bytes that are to come.
unfoldable pub receive : ℕ → ℕ → Reason → Bool → Bytes → List (ℕ × ℕ) → Session Bytes
receive zero deadline closed_reason partial taken coming s =
    (ok taken, record s { incoming = coming })
receive (suc n) deadline closed_reason partial taken [] s = (
  err (fetch_error (end_reason s.ending deadline partial closed_reason)),
  record s { incoming = [] },
)
receive (suc n) deadline closed_reason partial taken ((at, b) ∷ coming) s =
    let more =
      receive n deadline closed_reason true (taken ++ b ∷ []) coming
        (record s { now = max s.now at }) in
    if leb deadline at
    then (
      err (fetch_error timeout),
      record s { now = max s.now deadline; incoming = (at, b) ∷ coming },
    )
    else more

unfoldable pub read_exactly : ℕ → ℕ → Reason → Session Bytes
read_exactly n deadline closed_reason s =
    if leb deadline s.now
    then (err (fetch_error timeout), s)
    else receive n deadline closed_reason false [] s.incoming s
