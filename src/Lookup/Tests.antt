-- ===== src/Lookup/Tests.antt =====
-- A run of a lookup manager: one lookup, started at two seed nodes, of which one is asked and answers.
use lif.Common.{◌+◌, List, [], ◌∷◌, map, Bool, true, Option, none, Bytes, ascii, replicate}
use lif.Bencode.Values.{Value, bytes, list, dict, item, no_items, entry, no_entries, bytes_key}
use lif.Catalog.Entries.{Peer}
use lif.Krpc.Addresses.{Node}
use lif.Krpc.Messages.{Ipv6}
use lif.Krpc.Plain.{plain}
use lif.Lookup.State.{LookupLimits, LookupManager, new_manager}
use lif.Lookup.Handlers.{start_lookup, handle_response}
use lif.Lookup.Operations.{tick, abort_all}
use lif.Lookup.Bounds.{Limited}
use lif.Lookup.Owned.{Owned}
use lif.Lookup.Owning.{Reachable-Owned}
use lif.Lookup.Reachable.{new, after, started, responded, ticked, aborted, Reachable-Limited}

abbrev limits : LookupLimits
limits = record {
  alpha = 1;
  query_timeout = 1500;
  hint_timeout = 1000;
  deadline = 6000;
  max_queries = 16;
  enough_peers = 8;
  max_value_responses = 2;
  max_active = 256;
  queries_per_second = 420;
  max_per_node = 4;
  shortlist_size = 32;
  max_peers = 50;
}

abbrev hash : Bytes
hash = replicate 20 1

abbrev seeds : List Node
seeds =
    (replicate 20 2, map (λ n. n + 256) (1 ∷ 2 ∷ 3 ∷ 4 ∷ []), 6881)
    ∷ (replicate 20 3, map (λ n. n + 256) (5 ∷ 6 ∷ 7 ∷ 8 ∷ []), 6881)
    ∷ []

abbrev all_nodes : Node → Bool
all_nodes node = true

abbrev no_ipv6 : Bytes → Option Ipv6
no_ipv6 text = none

abbrev answer : Value
answer = dict (
    entry (bytes_key (ascii "values")) (list (item (bytes (9 ∷ 9 ∷ 9 ∷ 9 ∷ 1 ∷ 1 ∷ [])) no_items))
      no_entries)

abbrev begun : LookupManager
begun = (start_lookup all_nodes hash seeds 10 none (new_manager limits true 0)).0

-- The nearer of the two seed nodes.
abbrev asked : Peer
asked = (map (λ n. n + 256) (5 ∷ 6 ∷ 7 ∷ 8 ∷ []), 6881)

abbrev answered : LookupManager
answered = handle_response all_nodes plain no_ipv6 (76 ∷ 0 ∷ 0 ∷ 0 ∷ []) answer asked 20 begun

Reachable-Limited_example : Limited (abort_all (tick 7000 answered))
Reachable-Limited_example =
    Reachable-Limited all_nodes plain no_ipv6 limits true 0 (abort_all (tick 7000 answered)) (
      after
        (after
          (after (after new (started hash seeds 10 none))
            (responded (76 ∷ 0 ∷ 0 ∷ 0 ∷ []) answer asked 20))
          (ticked 7000))
        aborted)

Reachable-Owned_example : Owned answered
Reachable-Owned_example = Reachable-Owned all_nodes plain no_ipv6 limits true 0 answered (
    after (after new (started hash seeds 10 none))
      (responded (76 ∷ 0 ∷ 0 ∷ 0 ∷ []) answer asked 20))
