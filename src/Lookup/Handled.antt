-- ===== src/Lookup/Handled.antt =====
-- The limits of LookupLimits through the handlers.
use lif.Common.{
  ℕ, suc, ◌≤◌, ◌<◌, max, List, [], ◌∷◌, ◌++◌, Bool, not, ◌&&◌, Option, Bytes, ltb, length,
  if◌then◌else◌, byte_string_eq, nat_eq, pair_eq, inr, ◌≡◌, refl, ap, arith, length-append,
}
use lif.Lookup.Maps.{length-assign, contains-assign, assign-All, if-either}
use lif.Catalog.Entries.{Peer}
use lif.Catalog.State.{member}
use lif.Krpc.Addresses.{Inet, Node}
use lif.Krpc.Messages.{Ipv6, is_routable_address}
use lif.Lookup.Closest.{select_closest_nodes}
use lif.Lookup.State.{LookupLimits, PeerLookup, new_lookup, LookupManager, Work, put_active}
use lif.Lookup.Operations.{drop_transaction, trim, keyed, nodes_of}
use lif.Lookup.Handlers.{
  count_hint_answer, count_values, tell_peers, shortlist_nodes, add_to_shortlist, begin,
  remember_hint, find_peers, take_peers,
}
use lif.Lookup.Bounds.{Within, assign-IsNamed, Limited, Fits, Spends, Spends-Fits}
use lif.Lookup.Shortlist.{shortlist_nodes-SameQueries, add_to_shortlist-SameQueries}
use lif.Lookup.Answers.{Heard}
use lif.Lookup.Rounds.{length-select_closest_nodes}
use lif.Lookup.Limits.{Fits-Settled}

keyed-length : (nodes : List Node) → length (keyed nodes) ≡ length nodes
keyed-length [] = refl
keyed-length (node ∷ nodes) = ap suc (keyed-length nodes)

trim-Within :
    (limits : LookupLimits) (l : PeerLookup)
    → l.queries_sent ≤ max 1 limits.max_queries
    → length l.pending ≤ max 1 limits.alpha
    → length l.found_peers ≤ limits.max_peers
    → Within limits (trim limits.shortlist_size l)
unfolding trim
trim-Within limits l q p f =
    let chosen = select_closest_nodes (nodes_of l.shortlist) l.info_hash limits.shortlist_size in
    let few =
      length-select_closest_nodes (nodes_of l.shortlist) l.info_hash limits.shortlist_size in
    if-either (Within limits) (ltb limits.shortlist_size (length l.shortlist)) _ l
      (λ h. record {
        queries = q;
        waiting = p;
        short = omega (arith, few, keyed-length chosen);
        found = f;
      })
      (λ h. record { queries = q; waiting = p; short = ground arith; found = f })

module _ (node_filter : Node → Bool) where
  add_to_shortlist-Fits :
      (nodes : List Node) (w : Work) → Fits w → Fits (add_to_shortlist node_filter nodes w)
  unfolding add_to_shortlist
  add_to_shortlist-Fits nodes w f =
      let listed = shortlist_nodes-SameQueries node_filter nodes w.lookup in
      let same = add_to_shortlist-SameQueries node_filter nodes w in
      Spends-Fits w _ (record { limits = refl; active = refl; tokens = omega arith })
        (trim-Within w.manager.limits (shortlist_nodes node_filter nodes w.lookup)
          (rw listed.queries f.own.queries) (rw listed.waiting f.own.waiting)
          (rw listed.peers f.own.found))
        same.hash same.over f

  -- A lookup that has asked nobody becomes active.
  begin-Fits :
      (w : Work)
      → Within w.manager.limits w.lookup
      → Limited w.manager
      → length w.manager.active < w.manager.limits.max_active
      → Fits (begin node_filter w)
  unfolding begin put_active
  begin-Fits w own rest room = record {
    own = own;
    rest = record {
      each =
          assign-All (Within w.manager.limits) w.lookup.info_hash w.lookup w.manager.active own
            rest.each;
      named = assign-IsNamed w.lookup w.manager.active rest.named;
      few = omega (arith, room, length-assign w.lookup.info_hash w.lookup w.manager.active);
      budget = rest.budget;
    };
    listed = inr (contains-assign w.lookup.info_hash w.lookup w.manager.active);
  }

  remember_hint-Fits : (t : Bytes) (w : Work) → Fits w → Fits (remember_hint node_filter t w)
  unfolding remember_hint
  remember_hint-Fits t w f =
      Spends-Fits w _ (record { limits = refl; active = refl; tokens = omega arith })
        (record {
          queries = f.own.queries;
          waiting = f.own.waiting;
          short = f.own.short;
          found = f.own.found;
        })
        refl refl f

  new_lookup-Within : (limits : LookupLimits) (h : Bytes) (d : ℕ) → Within limits (new_lookup h d)
  unfolding new_lookup
  new_lookup-Within limits h d = record {
    queries = omega arith;
    waiting = omega arith;
    short = omega arith;
    found = omega arith;
  }

  fresh-Fits :
      (h : Bytes) (seeds : List Node) (now : ℕ) (m : LookupManager)
      → Limited m
      → length m.active < m.limits.max_active
      → Fits (
          begin node_filter (
            add_to_shortlist node_filter seeds (record { lookup = new_lookup h now; manager = m })))
  unfolding add_to_shortlist
  fresh-Fits h seeds now m l room =
      let fresh : PeerLookup = new_lookup h now in
      let listed = shortlist_nodes-SameQueries node_filter seeds fresh in
      let begun = new_lookup-Within m.limits h now in
      begin-Fits (add_to_shortlist node_filter seeds (record { lookup = fresh; manager = m }))
        (trim-Within m.limits (shortlist_nodes node_filter seeds fresh)
          (rw listed.queries begun.queries) (rw listed.waiting begun.waiting)
          (rw listed.peers begun.found))
        l room

  module _ (inet : Inet) (ipv6_address : Bytes → Option Ipv6) where
    find_peers-length :
        (max_peers : ℕ) (values found new_peers : List Peer)
        → length found ≤ max_peers
        → length (find_peers node_filter inet ipv6_address max_peers values found new_peers).0
          ≤ max_peers
    unfolding find_peers
    find_peers-length max_peers [] found new_peers h = h
    find_peers-length max_peers (p ∷ values) found new_peers h =
        let routable = is_routable_address ipv6_address p.0 p.1 in
        let accepted : Bool = routable && not (member p found) && ltb (length found) max_peers in
        find_peers-length max_peers values (if accepted then found ++ p ∷ [] else found) _ (
          if-either (λ l. length l ≤ max_peers) accepted (found ++ p ∷ []) found
            (λ k. ground (arith, length-append {0} found (p ∷ []))) (λ k. h))

    tell_peers-Fits : (new_peers : List Peer) (w : Work) → Fits w → Fits (tell_peers new_peers w)
    unfolding tell_peers
    tell_peers-Fits [] w f = f
    tell_peers-Fits (p ∷ new_peers) w f =
        if-either Fits w.manager.reports_peers _ w
          (λ h.
            Spends-Fits w _ (record { limits = refl; active = refl; tokens = omega arith }) f.own
              refl refl f)
          (λ h. f)

    take_peers-Fits :
        (values : List Peer) (w : Work)
        → Fits w
        → Fits (take_peers node_filter inet ipv6_address values w)
    unfolding take_peers
    take_peers-Fits values w f =
        let r =
          find_peers node_filter inet ipv6_address w.manager.limits.max_peers values
            w.lookup.found_peers [] in
        let few =
          find_peers-length w.manager.limits.max_peers values w.lookup.found_peers [] f.own.found in
        let found : Work = record w { lookup = record w.lookup { found_peers = r.0 } } in
        tell_peers-Fits r.1 found (
          Spends-Fits w found (record { limits = refl; active = refl; tokens = omega arith })
            (record {
              queries = f.own.queries;
              waiting = f.own.waiting;
              short = f.own.short;
              found = few;
            })
            refl refl f)

    count_values-Fits :
        (from_hint : Bool) (values : List Peer) (w : Work)
        → Fits w
        → Fits (count_values from_hint values w)
    unfolding count_values
    count_values-Fits from_hint [] w f = f
    count_values-Fits from_hint (v ∷ values) w f =
        Spends-Fits w _
          (if-either (Spends w.manager) from_hint _ w.manager
            (λ h. record { limits = refl; active = refl; tokens = omega arith })
            (λ h. record { limits = refl; active = refl; tokens = omega arith }))
          (record {
            queries = f.own.queries;
            waiting = f.own.waiting;
            short = f.own.short;
            found = f.own.found;
          })
          refl refl f

    count_hint_answer-Fits :
        (from_hint : Bool) (w : Work) → Fits w → Fits (count_hint_answer from_hint w)
    unfolding count_hint_answer
    count_hint_answer-Fits from_hint w f =
        if-either Fits from_hint _ w
          (λ h.
            Spends-Fits w _ (record { limits = refl; active = refl; tokens = omega arith }) f.own
              refl refl f)
          (λ h. f)

    dropped-Limited : (t : Bytes) (m : LookupManager) → Limited m → Limited (drop_transaction t m)
    unfolding drop_transaction
    dropped-Limited t m l = record {
      each = l.each;
      named = l.named;
      few = l.few;
      budget = l.budget;
    }

    pub Fits-Heard : Heard node_filter inet ipv6_address Fits Limited
    Fits-Heard = record {
      settled = Fits-Settled;
      on_shortlisted = add_to_shortlist-Fits;
      on_hint_answer = count_hint_answer-Fits;
      on_values = count_values-Fits;
      on_peers = take_peers-Fits;
      on_hint = remember_hint-Fits;
      on_dropped = dropped-Limited;
      on_begun = λ h seeds now m l absent room. fresh-Fits h seeds now m l room;
    }
