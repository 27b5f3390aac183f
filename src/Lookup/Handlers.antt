-- ===== src/Lookup/Handlers.antt =====
-- The methods of LookupManager that the crawler calls with nodes and responses. The node filter, the texts
-- of addresses and IPv6 parsing are parameters; `now` is what the clock returns.
use lif.Common.{
  ℕ, suc, ◌+◌, List, [], ◌∷◌, ◌++◌, Bool, true, false, not, ◌&&◌, ◌||◌, Option, none, some, Bytes,
  ascii, ltb, leb, ◌==◌, length, if◌then◌else◌, byte_string_eq, nat_eq, pair_eq,
}
use lif.RecentMap.{find, contains}
use lif.Catalog.Entries.{Peer}
use lif.Catalog.State.{member}
use lif.Bencode.Values.{Value, bytes, dict, get}
use lif.PeerWire.Messages.{node_id_length}
use lif.Krpc.Addresses.{
  Inet, Node, decode_compact_nodes, compact_node_length, compact_node6_length,
  lookup_transaction_id,
}
use lif.Krpc.Messages.{Ipv6, decode_compact_peers, is_routable_address}
use lif.Lookup.State.{
  assign, PeerLookup, new_lookup, peers_found, LookupManager, Work, put_active, settle, free_slots,
  refill, is_broke, load,
}
use lif.Lookup.Operations.{
  address_of, trim, send_to, release_transaction, drop_transaction, top_up, advance, is_hint,
}

abbrev pub sender_is : Peer → Option (Peer × ℕ) → Bool
sender_is address none = false
sender_is address (some (asked, expiry)) = (pair_eq ⦃f = nat_eq⦄).beq asked address

unfoldable pub count_hint_answer : Bool → Work → Work
count_hint_answer from_hint w =
    if from_hint
    then record w { manager = record w.manager { hint_answers = suc w.manager.hint_answers } }
    else w

unfoldable pub count_values : Bool → List Peer → Work → Work
count_values from_hint [] w = w
count_values from_hint (v ∷ values) w = record {
  lookup = record w.lookup { value_responses = suc w.lookup.value_responses };
  manager =
      if from_hint then record w.manager { hint_values = suc w.manager.hint_values } else w.manager;
}

-- if new_peers and self.on_peers is not None: self.on_peers(info_hash, new_peers)
unfoldable pub tell_peers : List Peer → Work → Work
tell_peers [] w = w
tell_peers (p ∷ new_peers) w =
    if w.manager.reports_peers
    then record w {
      manager = record w.manager {
        events = w.manager.events ++ peers_found w.lookup.info_hash (p ∷ new_peers) ∷ [];
      };
    }
    else w

unfoldable pub handle_error : Bytes → ℕ → LookupManager → LookupManager
handle_error transaction_id now m = elim (find transaction_id m.transactions) [
  | none ↦ m
  | some h ↦ elim (find h m.active) [
    | none ↦ drop_transaction transaction_id m
    | some l ↦
        if contains transaction_id l.pending
        then settle
            (advance now (release_transaction transaction_id (record { lookup = l; manager = m })))
        else drop_transaction transaction_id m
  ]
]

module _ (node_filter : Node → Bool) where
  abbrev pub is_usable_node : Node → Bool
  is_usable_node node = (length node.0 == node_id_length) && node_filter node

  unfoldable pub shortlist_nodes : List Node → PeerLookup → PeerLookup
  shortlist_nodes [] l = l
  shortlist_nodes (node ∷ nodes) l = shortlist_nodes nodes (
      if is_usable_node node && not (member (address_of node) l.queried)
      then record l { shortlist = assign node.0 node l.shortlist }
      else l)

  unfoldable pub add_to_shortlist : List Node → Work → Work
  add_to_shortlist nodes w = record w {
    lookup = trim w.manager.limits.shortlist_size (shortlist_nodes nodes w.lookup);
  }

  -- A hint that is not usable is no hint.
  unfoldable pub usable_hint : Option Node → Option Node
  usable_hint none = none
  usable_hint (some hint) = if is_usable_node hint then some hint else none

  abbrev pub hint_overloaded : Option Node → LookupManager → Bool
  hint_overloaded none m = false
  hint_overloaded (some hint) m = leb m.limits.max_per_node (load (address_of hint) m)

  -- self.active[info_hash] = lookup; self.started_total += 1
  unfoldable pub begin : Work → Work
  begin w = record w {
    manager =
        put_active w.lookup (record w.manager { started_total = suc w.manager.started_total });
  }

  unfoldable pub remember_hint : Bytes → Work → Work
  remember_hint transaction_id w = record {
    lookup = record w.lookup { hint_transaction = some transaction_id };
    manager = record w.manager { hint_queries = suc w.manager.hint_queries };
  }

  unfoldable pub first_query : Option Node → ℕ → Work → Work
  first_query none now w = top_up now w
  first_query (some hint) now w =
      remember_hint (lookup_transaction_id w.manager.sequence)
        (send_to hint now w.manager.limits.hint_timeout w)

  abbrev pub has_hint : Option Node → Bool
  has_hint none = false
  has_hint (some hint) = true

  unfoldable pub start_with : Option Node → ℕ → Work → LookupManager × Bool
  start_with hint now w =
      if not (has_hint hint) && (length w.lookup.shortlist == 0)
      then (w.manager, false)
      else (settle (first_query hint now (begin w)), true)

  unfoldable pub try_start :
      Bytes → List Node → ℕ → Option Node → LookupManager → LookupManager × Bool
  try_start info_hash seed_nodes now hint m =
      let w =
        add_to_shortlist seed_nodes
          (record { lookup = new_lookup info_hash (now + m.limits.deadline); manager = m }) in
      if is_broke m || hint_overloaded hint m then (m, false) else start_with hint now w

  -- The manager, and whether the lookup was started.
  unfoldable pub start_lookup :
      Bytes → List Node → ℕ → Option Node → LookupManager → LookupManager × Bool
  start_lookup info_hash seed_nodes now hint m =
      if contains info_hash m.active || (free_slots m == 0)
      then (m, false)
      else try_start info_hash seed_nodes now (usable_hint hint) (refill now m)

  module _ (inet : Inet) (ipv6_address : Bytes → Option Ipv6) where
    -- The peers found, with the new ones behind them, and the new ones.
    unfoldable pub find_peers : ℕ → List Peer → List Peer → List Peer → List Peer × List Peer
    find_peers max_peers [] found new_peers = (found, new_peers)
    find_peers max_peers (p ∷ values) found new_peers =
        let accepted =
          is_routable_address ipv6_address p.0 p.1
          && not (member p found)
          && ltb (length found) max_peers in
        find_peers max_peers values (if accepted then found ++ p ∷ [] else found)
          (if accepted then new_peers ++ p ∷ [] else new_peers)

    unfoldable pub take_peers : List Peer → Work → Work
    take_peers values w =
        let (found, new_peers) =
          find_peers w.manager.limits.max_peers values w.lookup.found_peers [] in
        tell_peers new_peers (record w { lookup = record w.lookup { found_peers = found } })

    unfoldable pub take_nodes : ℕ → Option Value → Work → Work
    take_nodes entry_length (some (bytes b)) w =
        add_to_shortlist (decode_compact_nodes inet entry_length b) w
    take_nodes entry_length _ w = w

    unfoldable pub take_response : Bool → Value → Work → Work
    take_response from_hint (dict response) w =
        let values = decode_compact_peers inet (get (ascii "values") response) in
        take_nodes compact_node6_length (get (ascii "nodes6") response) (
          take_nodes compact_node_length (get (ascii "nodes") response)
            (take_peers values (count_values from_hint values w)))
    take_response from_hint _ w = w

    unfoldable pub respond : Bytes → Value → ℕ → Work → Work
    respond transaction_id response now w =
        let from_hint = is_hint transaction_id w.lookup.hint_transaction in
        advance now (
          take_response from_hint response
            (count_hint_answer from_hint (release_transaction transaction_id w)))

    unfoldable pub handle_response : Bytes → Value → Peer → ℕ → LookupManager → LookupManager
    handle_response transaction_id response address now m =
        elim (find transaction_id m.transactions) [
          | none ↦ m
          | some h ↦ elim (find h m.active) [
            | none ↦ m
            | some l ↦
                if not (sender_is address (find transaction_id l.pending))
                then m
                else settle
                    (respond transaction_id response now (record { lookup = l; manager = m }))
          ]
        ]
