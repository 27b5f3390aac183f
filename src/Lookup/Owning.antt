-- ===== src/Lookup/Owning.antt =====
-- The owners of transactions through the handlers.
use lif.Common.{
  ℕ, List, [], ◌∷◌, Bool, true, false, Option, Bytes, byte_string_eq, pair_eq, nat_eq, Bool-cases,
  inl, inr, ◌≡◌, refl, sym, ◌∙◌, ap,
}
use lif.RecentMap.{find, contains}
use lif.Catalog.Entries.{Peer}
use lif.Krpc.Addresses.{Inet, Node}
use lif.Krpc.Messages.{Ipv6}
use lif.Lookup.Maps.{if-either, assign-All, contains-find, find-assign_ne}
use lif.Lookup.State.{
  LookupLimits, new_manager, assign, LookupManager, Work, put_active, new_lookup,
}
use lif.Lookup.Operations.{drop_transaction}
use lif.Lookup.Bounds.{assign-IsNamed}
use lif.Lookup.Handlers.{
  count_hint_answer, count_values, tell_peers, add_to_shortlist, begin, remember_hint, take_peers,
  find_peers,
}
use lif.Lookup.Shortlist.{add_to_shortlist-SameQueries, add_to_shortlist-manager, shortlisted_fresh}
use lif.Lookup.Answers.{Heard}
use lif.Lookup.Reachable.{Reachable, Reachable-J}
use lif.Lookup.Owned.{Waits, Owned, IsRunning, Keeps, find-without-some}
use lif.Lookup.Owners.{Calm-Keeps, Keeps-Settled}

module _ (node_filter : Node → Bool) where
  add_to_shortlist-Keeps :
      (nodes : List Node) (w : Work) → Keeps w → Keeps (add_to_shortlist node_filter nodes w)
  add_to_shortlist-Keeps nodes w k =
      let same = add_to_shortlist-SameQueries node_filter nodes w in
      let manager = add_to_shortlist-manager node_filter nodes w in
      Calm-Keeps w (add_to_shortlist node_filter nodes w)
        (record {
          active = ap (λ m. m.active) manager;
          hash = same.hash;
          over = same.over;
          transactions = ap (λ m. m.transactions) manager;
          pending = same.waiting;
        })
        k

  remember_hint-Keeps : (t : Bytes) (w : Work) → Keeps w → Keeps (remember_hint node_filter t w)
  unfolding remember_hint
  remember_hint-Keeps t w k =
      Calm-Keeps w _
        (record { active = refl; hash = refl; over = refl; transactions = refl; pending = refl }) k

  begin-same :
      (w : Work)
      → ((begin node_filter w).manager.active ≡ assign w.lookup.info_hash w.lookup w.manager.active)
        × ((begin node_filter w).manager.transactions ≡ w.manager.transactions)
        × ((begin node_filter w).lookup ≡ w.lookup)
  unfolding begin put_active
  begin-same w = (refl, refl, refl)

  -- A new lookup has another hash than those that are active.
  begin-Keeps :
      (h : Bytes) (w : Work)
      → w.lookup.info_hash ≡ h
      → w.lookup.finished ≡ false
      → Owned w.manager
      → contains h w.manager.active ≡ false
      → Keeps (begin node_filter w)
  begin-Keeps h w name running o absent =
      let b = begin-same w in
      let begun : (begin node_filter w).lookup.finished ≡ false =
        ap (λ l. l.finished) b.2 ∙ running in
      record {
        all = record {
          owns = λ t k e. inr (
            rw b.2 (other k (o.owned t k (rw b.1 at e))),
            rw b.0 (moved t k (o.owned t k (rw b.1 at e))),
          );
          named = rw b.0 (assign-IsNamed w.lookup w.manager.active o.named);
          running =
              rw b.0 (
                assign-All IsRunning w.lookup.info_hash w.lookup w.manager.active running
                  o.running);
        };
        over = λ f. absurd (cc (f, begun));
      }
    where
      other :
          {t : Bytes} (k : Bytes)
          → Waits w.manager.active t k
          → byte_string_eq.beq w.lookup.info_hash k ≡ false
      other k q = elim (Bool-cases (byte_string_eq.beq w.lookup.info_hash k)) [
        | inl f ↦
            let same : h ≡ k = sym name ∙ byte_string_eq.beq→eq w.lookup.info_hash k f in
            let there : contains k w.manager.active ≡ true =
              contains-find k q.lookup w.manager.active q.found in
            absurd (cc (absent, ap (λ x. contains x w.manager.active) same, there))
        | inr f ↦ f
      ]

      moved :
          (t k : Bytes)
          → Waits w.manager.active t k
          → Waits (assign w.lookup.info_hash w.lookup w.manager.active) t k
      moved t k q = record {
        lookup = q.lookup;
        found = find-assign_ne w.lookup.info_hash k w.lookup w.manager.active (other k q) ∙ q.found;
        waits = q.waits;
      }

  module _ (inet : Inet) (ipv6_address : Bytes → Option Ipv6) where
    tell_peers-Keeps : (new_peers : List Peer) (w : Work) → Keeps w → Keeps (tell_peers new_peers w)
    unfolding tell_peers
    tell_peers-Keeps [] w k = k
    tell_peers-Keeps (p ∷ new_peers) w k =
        if-either Keeps w.manager.reports_peers _ w
          (λ h.
            Calm-Keeps w _
              (record {
                active = refl;
                hash = refl;
                over = refl;
                transactions = refl;
                pending = refl;
              })
              k)
          (λ h. k)

    take_peers-Keeps :
        (values : List Peer) (w : Work)
        → Keeps w
        → Keeps (take_peers node_filter inet ipv6_address values w)
    unfolding take_peers
    take_peers-Keeps values w k =
        let r =
          find_peers node_filter inet ipv6_address w.manager.limits.max_peers values
            w.lookup.found_peers [] in
        let found : Work = record w { lookup = record w.lookup { found_peers = r.0 } } in
        tell_peers-Keeps r.1 found (
          Calm-Keeps w found
            (record {
              active = refl;
              hash = refl;
              over = refl;
              transactions = refl;
              pending = refl;
            })
            k)

    count_values-Keeps :
        (from_hint : Bool) (values : List Peer) (w : Work)
        → Keeps w
        → Keeps (count_values from_hint values w)
    unfolding count_values
    count_values-Keeps from_hint [] w k = k
    count_values-Keeps false (v ∷ values) w k =
        Calm-Keeps w _
          (record { active = refl; hash = refl; over = refl; transactions = refl; pending = refl })
          k
    count_values-Keeps true (v ∷ values) w k =
        Calm-Keeps w _
          (record { active = refl; hash = refl; over = refl; transactions = refl; pending = refl })
          k

    count_hint_answer-Keeps :
        (from_hint : Bool) (w : Work) → Keeps w → Keeps (count_hint_answer from_hint w)
    unfolding count_hint_answer
    count_hint_answer-Keeps false w k = k
    count_hint_answer-Keeps true w k =
        Calm-Keeps w _
          (record { active = refl; hash = refl; over = refl; transactions = refl; pending = refl })
          k

    dropped-Owned : (t : Bytes) (m : LookupManager) → Owned m → Owned (drop_transaction t m)
    unfolding drop_transaction
    dropped-Owned t m o = record {
      owned = λ u h e. o.owned u h (find-without-some t u h m.transactions e).1;
      named = o.named;
      running = o.running;
    }

    Keeps-Heard : Heard node_filter inet ipv6_address Keeps Owned
    Keeps-Heard = record {
      settled = Keeps-Settled;
      on_shortlisted = add_to_shortlist-Keeps;
      on_hint_answer = count_hint_answer-Keeps;
      on_values = count_values-Keeps;
      on_peers = take_peers-Keeps;
      on_hint = remember_hint-Keeps;
      on_dropped = dropped-Owned;
      on_begun = λ h seeds d m o absent room.
          let w : Work =
            add_to_shortlist node_filter seeds (record { lookup = new_lookup h d; manager = m }) in
          let f = shortlisted_fresh node_filter h seeds d m in
          let manager =
            add_to_shortlist-manager node_filter seeds
              (record { lookup = new_lookup h d; manager = m }) in
          begin-Keeps h w f.2 f.3 (rw manager o) (ap (λ n. contains h n.active) manager ∙ absent);
    }

    new_manager-Owned :
        (limits : LookupLimits) (reports : Bool) (start : ℕ)
        → Owned (new_manager limits reports start)
    unfolding new_manager find
    new_manager-Owned limits reports start = record {
      owned = λ t h e. absurd (cc e);
      named = tt;
      running = tt;
    }

    -- Whatever calls the crawler makes: a transaction that is open belongs to the active lookup of the hash that
    -- it is filed under, and that lookup waits for it. The active lookups are not finished.
    pub Reachable-Owned :
        (limits : LookupLimits) (reports : Bool) (start : ℕ) (m : LookupManager)
        → Reachable node_filter inet ipv6_address limits reports start m
        → Owned m
    Reachable-Owned limits reports start m r =
        Reachable-J node_filter inet ipv6_address Keeps-Heard limits reports start m
          (new_manager-Owned limits reports start) r
