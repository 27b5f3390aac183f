-- ===== src/Lookup/Reachable.antt =====
-- The calls that the crawler makes to LookupManager, in any order, from a new manager.
use lif.Common.{ℕ, List, Bool, Option, Bytes, arith}
use lif.Bencode.Values.{Value}
use lif.Catalog.Entries.{Peer}
use lif.Krpc.Addresses.{Inet, Node}
use lif.Krpc.Messages.{Ipv6}
use lif.Lookup.State.{LookupLimits, LookupManager, Work, new_manager}
use lif.Lookup.Operations.{tick, abort_all}
use lif.Lookup.Handlers.{handle_error, start_lookup, handle_response}
use lif.Lookup.Bounds.{Limited}
use lif.Lookup.Rounds.{tick-J, abort_all-J}
use lif.Lookup.Answers.{Heard, start_lookup-J, handle_response-J, handle_error-J}
use lif.Lookup.Handled.{Fits-Heard}

module _ (node_filter : Node → Bool) (inet : Inet) (ipv6_address : Bytes → Option Ipv6) where
  -- One call of the crawler, at any time and with any arguments.
  pub data Step (m : LookupManager) : LookupManager → Type 0 where
    started :
        (h : Bytes) (seeds : List Node) (now : ℕ) (hint : Option Node)
        → Step m (start_lookup node_filter h seeds now hint m).0
    responded :
        (t : Bytes) (response : Value) (address : Peer) (now : ℕ)
        → Step m (handle_response node_filter inet ipv6_address t response address now m)
    failed : (t : Bytes) (now : ℕ) → Step m (handle_error t now m)
    ticked : (now : ℕ) → Step m (tick now m)
    aborted : Step m (abort_all m)

  pub data Reachable (limits : LookupLimits) (reports : Bool) (start : ℕ)
      : LookupManager → Type 0 where
    new : Reachable limits reports start (new_manager limits reports start)
    after :
        {m m' : LookupManager}
        → Reachable limits reports start m
        → Step m m'
        → Reachable limits reports start m'

  module _ {I : Work → Type 0} {J : LookupManager → Type 0}
      (s : Heard node_filter inet ipv6_address I J) where
    Step-J : {m m' : LookupManager} → J m → Step m m' → J m'
    Step-J {m} j (started h seeds now hint) =
        start_lookup-J node_filter inet ipv6_address s h seeds now hint m j
    Step-J {m} j (responded t response address now) =
        handle_response-J node_filter inet ipv6_address s t response address now m j
    Step-J {m} j (failed t now) = handle_error-J node_filter inet ipv6_address s t now m j
    Step-J {m} j (ticked now) = tick-J s.settled now m j
    Step-J {m} j aborted = abort_all-J s.settled m j

    -- What the handlers keep holds in every state, when it holds at first.
    pub Reachable-J :
        (limits : LookupLimits) (reports : Bool) (start : ℕ) (m : LookupManager)
        → J (new_manager limits reports start)
        → Reachable limits reports start m
        → J m
    Reachable-J limits reports start m j new = j
    Reachable-J limits reports start m j (after r step) =
        Step-J (Reachable-J limits reports start _ j r) step

  new_manager-Limited :
      (limits : LookupLimits) (reports : Bool) (start : ℕ)
      → Limited (new_manager limits reports start)
  unfolding new_manager
  new_manager-Limited limits reports start = record {
    each = tt;
    named = tt;
    few = omega arith;
    budget = omega arith;
  }

  -- Whatever calls the crawler makes, by the manager's limits: no more than `max_active` lookups are active,
  -- each under its own hash; none has sent more than `max_queries` queries (or one) or waits for more than
  -- `alpha` answers (or one); shortlists and found peers stay within their sizes; and there are never more
  -- tokens than a second's.
  pub Reachable-Limited :
      (limits : LookupLimits) (reports : Bool) (start : ℕ) (m : LookupManager)
      → Reachable limits reports start m
      → Limited m
  Reachable-Limited limits reports start m r =
      Reachable-J (Fits-Heard node_filter inet ipv6_address) limits reports start m
        (new_manager-Limited limits reports start) r
