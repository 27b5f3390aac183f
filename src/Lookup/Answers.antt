-- ===== src/Lookup/Answers.antt =====
-- A predicate through the handlers of nodes, responses and errors, from their parts.
use lif.Common.{
  ℕ, ◌+◌, ◌<◌, ◌≡◌, List, Bool, true, false, not, ◌&&◌, ◌||◌, Option, none, some, Bytes, ◌==◌,
  length, if◌then◌else◌, byte_string_eq, refl, ap, arith,
}
use lif.RecentMap.{find, contains}
use lif.Bencode.Values.{Value, null, bool, int, bytes, text, list, dict, other}
use lif.Lookup.Maps.{if-either}
use lif.Catalog.Entries.{Peer}
use lif.Krpc.Addresses.{Inet, Node, lookup_transaction_id}
use lif.Krpc.Messages.{Ipv6}
use lif.Lookup.State.{
  PeerLookup, LookupManager, Work, new_lookup, settle, free_slots, refill, is_broke,
}
use lif.Lookup.Operations.{send_to, release_transaction, drop_transaction, advance}
use lif.Lookup.Handlers.{
  sender_is, count_hint_answer, count_values, handle_error, add_to_shortlist, usable_hint,
  hint_overloaded, begin, remember_hint, first_query, has_hint, start_with, try_start, start_lookup,
  take_peers, take_nodes, take_response, respond, handle_response,
}
use lif.Lookup.Shortlist.{shortlisted_fresh, add_to_shortlist-manager}
use lif.Lookup.Rounds.{Settled, top_up-I, advance-I}

module _ (node_filter : Node → Bool) (inet : Inet) (ipv6_address : Bytes → Option Ipv6) where
  -- A settled predicate that the parts of the handlers keep.
  pub record Heard (I : Work → Type 0) (J : LookupManager → Type 0) : Type 0 where
    pub settled : Settled I J
    pub on_shortlisted :
        (nodes : List Node) (w : Work) → I w → I (add_to_shortlist node_filter nodes w)
    pub on_hint_answer : (from_hint : Bool) (w : Work) → I w → I (count_hint_answer from_hint w)
    pub on_values :
        (from_hint : Bool) (values : List Peer) (w : Work)
        → I w
        → I (count_values from_hint values w)
    pub on_peers :
        (values : List Peer) (w : Work)
        → I w
        → I (take_peers node_filter inet ipv6_address values w)
    pub on_hint : (t : Bytes) (w : Work) → I w → I (remember_hint node_filter t w)
    pub on_dropped : (t : Bytes) (m : LookupManager) → J m → J (drop_transaction t m)
    pub on_begun :
        (h : Bytes) (seeds : List Node) (now : ℕ) (m : LookupManager)
        → J m
        → contains h m.active ≡ false
        → length m.active < m.limits.max_active
        → I (
            begin node_filter (
              add_to_shortlist node_filter seeds
                (record { lookup = new_lookup h now; manager = m })))

  begin_fresh :
      (h : Bytes) (seeds : List Node) (now : ℕ) (m : LookupManager)
      → ((begin node_filter (
            add_to_shortlist node_filter seeds
              (record { lookup = new_lookup h now; manager = m }))).lookup.queries_sent
          ≡ 0)
        × (length
              (begin node_filter (
                add_to_shortlist node_filter seeds
                  (record { lookup = new_lookup h now; manager = m }))).lookup.pending
            ≡ 0)
        × ((begin node_filter (
              add_to_shortlist node_filter seeds
                (record { lookup = new_lookup h now; manager = m }))).lookup.finished
            ≡ false)
  unfolding begin
  begin_fresh h seeds now m =
      let f = shortlisted_fresh node_filter h seeds now m in (f.0, ap length f.1, f.3)

  module _ {I : Work → Type 0} {J : LookupManager → Type 0} (s : Heard I J) where
    abbrev HasJ : LookupManager × Bool → Type 0
    HasJ (m, started) = J m

    first_query-I :
        (hint : Option Node) (now : ℕ) (w : Work)
        → I w
        → w.lookup.queries_sent ≡ 0
        → length w.lookup.pending ≡ 0
        → w.lookup.finished ≡ false
        → I (first_query node_filter hint now w)
    unfolding first_query
    first_query-I none now w f q p r = top_up-I s.settled.closed now w r f
    first_query-I (some hint) now w f q p r =
        s.on_hint (lookup_transaction_id w.manager.sequence)
          (send_to hint now w.manager.limits.hint_timeout w)
          (s.settled.closed.on_sent hint now w.manager.limits.hint_timeout w f (omega (arith, q))
            (omega (arith, p)) r)

    try_start-J :
        (h : Bytes) (seeds : List Node) (now : ℕ) (hint : Option Node) (m : LookupManager)
        → J m
        → contains h m.active ≡ false
        → length m.active < m.limits.max_active
        → HasJ (try_start node_filter h seeds now hint m)
    unfolding try_start start_with
    try_start-J h seeds now hint m j absent room =
        let expiry = now + m.limits.deadline in
        let w : Work =
          add_to_shortlist node_filter seeds
            (record { lookup = new_lookup h expiry; manager = m }) in
        let fresh = begin_fresh h seeds expiry m in
        let started : LookupManager × Bool =
          if not (has_hint node_filter hint) && (length w.lookup.shortlist == 0)
          then (w.manager, false)
          else (settle (first_query node_filter hint now (begin node_filter w)), true) in
        if-either HasJ (is_broke m || hint_overloaded node_filter hint m) (m, false) started
          (λ b. j)
          (λ b.
            if-either HasJ (not (has_hint node_filter hint) && (length w.lookup.shortlist == 0))
              (w.manager, false) _
              (λ k.
                rw
                  (add_to_shortlist-manager node_filter seeds
                    (record { lookup = new_lookup h expiry; manager = m }))
                  j)
              (λ k. s.settled.settled _ (
                first_query-I hint now (begin node_filter w)
                  (s.on_begun h seeds expiry m j absent room) fresh.0 fresh.1 fresh.2)))

    refill_same :
        (now : ℕ) (m : LookupManager)
        → ((refill now m).active ≡ m.active) × ((refill now m).limits ≡ m.limits)
    unfolding refill
    refill_same now m = (refl, refl)

    pub start_lookup-J :
        (h : Bytes) (seeds : List Node) (now : ℕ) (hint : Option Node) (m : LookupManager)
        → J m
        → HasJ (start_lookup node_filter h seeds now hint m)
    unfolding start_lookup free_slots
    start_lookup-J h seeds now hint m j =
        let same = refill_same now m in
        if-either HasJ (contains h m.active || (free_slots m == 0)) (m, false) _ (λ b. j)
          (λ b.
            try_start-J h seeds now (usable_hint node_filter hint) (refill now m)
              (s.settled.on_refill now m j) (rw same.0 (ground arith))
              (rw (same.0, same.1) (ground arith)))

    take_nodes-I :
        (entry_length : ℕ) (v : Option Value) (w : Work)
        → I w
        → I (take_nodes node_filter inet ipv6_address entry_length v w)
    unfolding take_nodes
    take_nodes-I entry_length none w f = f
    take_nodes-I entry_length (some (bytes b)) w f = s.on_shortlisted _ w f
    take_nodes-I entry_length (some null) w f = f
    take_nodes-I entry_length (some (bool b)) w f = f
    take_nodes-I entry_length (some (int n)) w f = f
    take_nodes-I entry_length (some (text t)) w f = f
    take_nodes-I entry_length (some (list xs)) w f = f
    take_nodes-I entry_length (some (dict es)) w f = f
    take_nodes-I entry_length (some other) w f = f

    take_response-I :
        (from_hint : Bool) (response : Value) (w : Work)
        → I w
        → I (take_response node_filter inet ipv6_address from_hint response w)
    unfolding take_response
    take_response-I from_hint (dict response) w f =
        take_nodes-I _ _ _ (take_nodes-I _ _ _ (s.on_peers _ _ (s.on_values from_hint _ w f)))
    take_response-I from_hint null w f = f
    take_response-I from_hint (bool b) w f = f
    take_response-I from_hint (int n) w f = f
    take_response-I from_hint (bytes b) w f = f
    take_response-I from_hint (text t) w f = f
    take_response-I from_hint (list xs) w f = f
    take_response-I from_hint other w f = f

    respond-I :
        (t : Bytes) (response : Value) (now : ℕ) (w : Work)
        → I w
        → I (respond node_filter inet ipv6_address t response now w)
    unfolding respond
    respond-I t response now w f =
        advance-I s.settled.closed now _
          (take_response-I _ response _ (s.on_hint_answer _ _ (s.settled.closed.on_released t w f)))

    pub handle_response-J :
        (t : Bytes) (response : Value) (address : Peer) (now : ℕ) (m : LookupManager)
        → J m
        → J (handle_response node_filter inet ipv6_address t response address now m)
    unfolding handle_response
    handle_response-J t response address now m limited = by_hash (find t m.transactions)
      where
        by_lookup :
            (h : Bytes) (o : Option PeerLookup)
            → find h m.active ≡ o
            → J (elim o [
              | none ↦ m
              | some l ↦
                  if not (sender_is address (find t l.pending))
                  then m
                  else settle (
                      respond node_filter inet ipv6_address t response now
                        (record { lookup = l; manager = m }))
            ])
        by_lookup h none e = limited
        by_lookup h (some l) e =
            if-either J (not (sender_is address (find t l.pending))) m _ (λ b. limited)
              (λ b. s.settled.settled _ (
                respond-I t response now (record { lookup = l; manager = m })
                  (s.settled.taken_up h l m limited e)))

        by_hash :
            (o : Option Bytes)
            → J (elim o [
              | none ↦ m
              | some h ↦ elim (find h m.active) [
                | none ↦ m
                | some l ↦
                    if not (sender_is address (find t l.pending))
                    then m
                    else settle (
                        respond node_filter inet ipv6_address t response now
                          (record { lookup = l; manager = m }))
              ]
            ])
        by_hash none = limited
        by_hash (some h) = by_lookup h (find h m.active) refl

    pub handle_error-J : (t : Bytes) (now : ℕ) (m : LookupManager) → J m → J (handle_error t now m)
    unfolding handle_error
    handle_error-J t now m j = by_hash (find t m.transactions)
      where
        by_lookup :
            (h : Bytes) (o : Option PeerLookup)
            → find h m.active ≡ o
            → J (elim o [
              | none ↦ drop_transaction t m
              | some l ↦
                  if contains t l.pending
                  then settle
                      (advance now (release_transaction t (record { lookup = l; manager = m })))
                  else drop_transaction t m
            ])
        by_lookup h none e = s.on_dropped t m j
        by_lookup h (some l) e =
            let w : Work = record { lookup = l; manager = m } in
            if-either J (contains t l.pending) _ _
              (λ b. s.settled.settled _ (
                advance-I s.settled.closed now _
                  (s.settled.closed.on_released t w (s.settled.taken_up h l m j e))))
              (λ b. s.on_dropped t m j)

        by_hash :
            (o : Option Bytes)
            → J (elim o [
              | none ↦ m
              | some h ↦ elim (find h m.active) [
                | none ↦ drop_transaction t m
                | some l ↦
                    if contains t l.pending
                    then settle
                        (advance now (release_transaction t (record { lookup = l; manager = m })))
                    else drop_transaction t m
              ]
            ])
        by_hash none = j
        by_hash (some h) = by_lookup h (find h m.active) refl
