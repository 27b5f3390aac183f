-- ===== src/Lookup/Limits.antt =====
-- The limits of LookupLimits through the rounds of a lookup.
use lif.Common.{ℕ, Bytes, some, byte_string_eq, inr, ◌≡◌, arith}
use lif.RecentMap.{find}
use lif.Lookup.Maps.{find-All, contains-find}
use lif.Lookup.State.{PeerLookup, LookupManager, Work, refill}
use lif.Lookup.Operations.{refilled}
use lif.Lookup.Bounds.{
  Within, Limited, Fits, find-IsNamed, settle-Limited, finish-Fits, release_transaction-Fits,
  send_to-Fits,
}
use lif.Lookup.Rounds.{Settled}

pub refill-Limited : (now : ℕ) (m : LookupManager) → Limited m → Limited (refill now m)
unfolding refill
refill-Limited now m l = record {
  each = l.each;
  named = l.named;
  few = l.few;
  budget = omega arith;
}

refilled-Fits : (now : ℕ) (w : Work) → Fits w → Fits (refilled now w)
unfolding refilled refill
refilled-Fits now w f = record {
  own = f.own;
  rest = refill-Limited now w.manager f.rest;
  listed = f.listed;
}

-- A lookup found among the active ones.
find-Fits :
    (h : Bytes) (l : PeerLookup) (m : LookupManager)
    → Limited m
    → find h m.active ≡ some l
    → Fits (record { lookup = l; manager = m })
find-Fits h l m limited e = record {
  own = find-All (Within m.limits) h l m.active limited.each e;
  rest = limited;
  listed = inr (rw (find-IsNamed h l m.active limited.named e) (contains-find h l m.active e));
}

pub Fits-Settled : Settled Fits Limited
Fits-Settled = record {
  closed = record {
    on_refilled = refilled-Fits;
    on_sent = λ node now timeout w f q p r. send_to-Fits node now timeout w f q p;
    on_released = release_transaction-Fits;
    on_finished = finish-Fits;
  };
  settled = settle-Limited;
  taken_up = find-Fits;
  on_refill = refill-Limited;
}
