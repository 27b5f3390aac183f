-- ===== src/Lookup/Operations.antt =====
-- The methods of LookupManager. The node filter, the texts of addresses and IPv6 parsing are parameters.
use lif.Common.{
  ℕ, suc, ◌+◌, ◌-◌, min, List, [], ◌∷◌, ◌++◌, map, Bool, true, false, not, ◌&&◌, ◌||◌, Option, none,
  some, Bytes, bytes_eq, ltb, leb, ◌==◌, length, if◌then◌else◌, byte_string_eq, nat_eq, pair_eq,
}
use lif.RecentMap.{find, without}
use lif.Catalog.Entries.{Peer}
use lif.Catalog.State.{member}
use lif.Krpc.Addresses.{Node, lookup_transaction_id}
use lif.Lookup.Closest.{sort, select_closest_nodes, address_before}
use lif.Lookup.State.{
  assign, PeerLookup, query_sent, lookup_finished, LookupManager, Work, settle, refill, is_broke,
  load,
}

abbrev pub address_of : Node → Peer
address_of (node_id, ip, port) = (ip, port)

abbrev pub nodes_of : List (Bytes × Node) → List Node
nodes_of shortlist = map (λ x. x.1) shortlist

-- lookup.shortlist = {node[0]: node for node in closest}
abbrev pub keyed : List Node → List (Bytes × Node)
keyed nodes = map (λ node. (node.0, node)) nodes

unfoldable pub trim : ℕ → PeerLookup → PeerLookup
trim size l =
    if ltb size (length l.shortlist)
    then record l {
      shortlist = keyed (select_closest_nodes (nodes_of l.shortlist) l.info_hash size);
    }
    else l

-- The manager's part of a query: transactions, in_flight, tokens, totals, and the callback. The callers
-- ask for a whole token first.
unfoldable pub open_transaction : Bytes → Node → Bytes → LookupManager → LookupManager
open_transaction transaction_id node info_hash m = record m {
  sequence = suc m.sequence;
  transactions = assign transaction_id info_hash m.transactions;
  in_flight = assign (address_of node) (suc (load (address_of node) m)) m.in_flight;
  tokens = m.tokens - 1000;
  queries_total = suc m.queries_total;
  events = m.events ++ query_sent transaction_id node info_hash ∷ [];
}

unfoldable pub ask : Bytes → Node → ℕ → PeerLookup → PeerLookup
ask transaction_id node expiry l = record l {
  pending = assign transaction_id (address_of node, expiry) l.pending;
  queried = address_of node ∷ l.queried;
  queries_sent = suc l.queries_sent;
}

-- The transaction id of the query is that of the sequence number before it.
unfoldable pub send_to : Node → ℕ → ℕ → Work → Work
send_to node now timeout w =
    let transaction_id = lookup_transaction_id w.manager.sequence in
    record {
      lookup = ask transaction_id node (now + timeout) w.lookup;
      manager = open_transaction transaction_id node w.lookup.info_hash w.manager;
    }

-- remaining = in_flight.get(address, 0) - 1
unfoldable pub release_address : Peer → LookupManager → LookupManager
release_address address m =
    let remaining = load address m - 1 in
    if ltb 0 remaining
    then record m { in_flight = assign address remaining m.in_flight }
    else record m { in_flight = without address m.in_flight }

unfoldable pub drop_transaction : Bytes → LookupManager → LookupManager
drop_transaction transaction_id m = record m {
  transactions = without transaction_id m.transactions;
}

abbrev pub is_hint : Bytes → Option Bytes → Bool
is_hint transaction_id none = false
is_hint transaction_id (some hint) = bytes_eq hint transaction_id

unfoldable pub forget : Bytes → PeerLookup → PeerLookup
forget transaction_id l = record l {
  pending = without transaction_id l.pending;
  hint_transaction = if is_hint transaction_id l.hint_transaction then none else l.hint_transaction;
}

abbrev pub release_known : Option (Peer × ℕ) → Bytes → Work → Work
release_known none transaction_id w = w
release_known (some (address, expiry)) transaction_id w = record {
  lookup = forget transaction_id w.lookup;
  manager = release_address address (drop_transaction transaction_id w.manager);
}

-- Its callers pass a transaction that is pending.
unfoldable pub release_transaction : Bytes → Work → Work
release_transaction transaction_id w =
    release_known (find transaction_id w.lookup.pending) transaction_id w

-- for transaction_id in list(...): self.release_transaction(lookup, transaction_id)
unfoldable pub release_all : List Bytes → Work → Work
release_all [] w = w
release_all (t ∷ ts) w = release_all ts (release_transaction t w)

unfoldable pub send_each : List Node → ℕ → Work → Work
send_each [] now w = w
send_each (node ∷ nodes) now w =
    let rest = send_each nodes now (send_to node now w.manager.limits.query_timeout w) in
    if is_broke w.manager then w else rest

-- Nodes of the shortlist that were not queried, below the cap on one address.
unfoldable pub candidates : List Node → PeerLookup → LookupManager → List Node
candidates [] l m = []
candidates (node ∷ nodes) l m =
    let rest = candidates nodes l m in
    if not (member (address_of node) l.queried)
      && ltb (load (address_of node) m) m.limits.max_per_node
    then node ∷ rest
    else rest

unfoldable pub refilled : ℕ → Work → Work
refilled now w = record w { manager = refill now w.manager }

abbrev pub free_queries : Work → ℕ
free_queries w =
    min (w.manager.limits.alpha - length w.lookup.pending)
      (w.manager.limits.max_queries - w.lookup.queries_sent)

unfoldable pub send_round : ℕ → ℕ → Work → Work
send_round free now w =
    let chosen =
      select_closest_nodes (candidates (nodes_of w.lookup.shortlist) w.lookup w.manager)
        w.lookup.info_hash free in
    if is_broke w.manager then w else send_each chosen now w

unfoldable pub top_up : ℕ → Work → Work
top_up now w = if free_queries w == 0 then w else send_round (free_queries w) now (refilled now w)

unfoldable pub any_unqueried : List Node → List Peer → Bool
any_unqueried [] queried = false
any_unqueried (node ∷ nodes) queried =
    not (member (address_of node) queried) || any_unqueried nodes queried

unfoldable pub can_query_more : Work → Bool
can_query_more w =
    ltb w.lookup.queries_sent w.manager.limits.max_queries
    && any_unqueried (nodes_of w.lookup.shortlist) w.lookup.queried

unfoldable pub report : Bytes → List Peer → LookupManager → LookupManager
report info_hash peers m = record m {
  active = without info_hash m.active;
  finished_total = suc m.finished_total;
  peers_found_total = m.peers_found_total + length peers;
  with_peers_total = if ltb 0 (length peers) then suc m.with_peers_total else m.with_peers_total;
  events = m.events ++ lookup_finished info_hash peers ∷ [];
}

unfoldable pub finish : Work → Work
finish w =
    let released =
      release_all (map (λ x. x.0) w.lookup.pending)
        (record w { lookup = record w.lookup { finished = true } }) in
    record released {
      manager =
          report w.lookup.info_hash (sort address_before w.lookup.found_peers) released.manager;
    }

abbrev pub is_over : ℕ → Work → Bool
is_over now w =
    leb w.lookup.deadline now
    || leb w.manager.limits.enough_peers (length w.lookup.found_peers)
    || leb w.manager.limits.max_value_responses w.lookup.value_responses

unfoldable pub finish_if_idle : Work → Work
finish_if_idle w = if (length w.lookup.pending == 0) && not (can_query_more w) then finish w else w

abbrev pub waits_for_hint : Option Bytes → Bool
waits_for_hint none = false
waits_for_hint (some t) = true

unfoldable pub advance : ℕ → Work → Work
advance now w =
    if w.lookup.finished
    then w
    else if is_over now w
    then finish w
    else if waits_for_hint w.lookup.hint_transaction
    then w
    else finish_if_idle (top_up now w)

-- [transaction_id for transaction_id, (_, expiry) in lookup.pending.items() if expiry <= now]
unfoldable pub expired : List (Bytes × (Peer × ℕ)) → ℕ → List Bytes
expired [] now = []
expired ((t, (address, expiry)) ∷ pending) now =
    let rest = expired pending now in if leb expiry now then t ∷ rest else rest

unfoldable pub expire_pending : ℕ → Work → Work
expire_pending now w = release_all (expired w.lookup.pending now) w

-- for lookup in list(self.active.values()), by the hashes under which they were active.
unfoldable pub tick_each : List Bytes → ℕ → LookupManager → LookupManager
tick_each [] now m = m
tick_each (h ∷ hashes) now m = tick_each hashes now (elim (find h m.active) [
  | none ↦ m
  | some l ↦ settle (advance now (expire_pending now (record { lookup = l; manager = m })))
])

unfoldable pub tick : ℕ → LookupManager → LookupManager
tick now m =
    let refreshed = refill now m in tick_each (map (λ x. x.0) refreshed.active) now refreshed

unfoldable pub abort_each : List Bytes → LookupManager → LookupManager
abort_each [] m = m
abort_each (h ∷ hashes) m = abort_each hashes (elim (find h m.active) [
  | none ↦ m
  | some l ↦ settle (finish (record { lookup = l; manager = m }))
])

unfoldable pub abort_all : LookupManager → LookupManager
abort_all m = abort_each (map (λ x. x.0) m.active) m
