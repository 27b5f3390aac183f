-- ===== src/Lookup/Shortlist.antt =====
-- The fields of a lookup under add_to_shortlist.
use lif.Common.{
  ℕ, List, [], ◌∷◌, Bool, false, not, ◌&&◌, Bytes, ltb, length, if◌then◌else◌, byte_string_eq,
  nat_eq, pair_eq, ◌≡◌, refl, ◌∙◌,
}
use lif.Lookup.Maps.{if-either}
use lif.Catalog.State.{member}
use lif.Krpc.Addresses.{Node}
use lif.Lookup.State.{assign, PeerLookup, new_lookup, LookupManager, Work}
use lif.Lookup.Operations.{trim, address_of}
use lif.Lookup.Handlers.{is_usable_node, shortlist_nodes, add_to_shortlist}

-- What a change of the shortlist leaves alone.
pub record SameQueries (l l' : PeerLookup) : Type 0 where
  pub hash : l'.info_hash ≡ l.info_hash
  pub queries : l'.queries_sent ≡ l.queries_sent
  pub waiting : l'.pending ≡ l.pending
  pub peers : l'.found_peers ≡ l.found_peers
  pub over : l'.finished ≡ l.finished

pub trim-SameQueries : (size : ℕ) (l : PeerLookup) → SameQueries l (trim size l)
unfolding trim
trim-SameQueries size l =
    if-either (SameQueries l) (ltb size (length l.shortlist)) _ l
      (λ h. record { hash = refl; queries = refl; waiting = refl; peers = refl; over = refl })
      (λ h. record { hash = refl; queries = refl; waiting = refl; peers = refl; over = refl })

trans-SameQueries : (k l m : PeerLookup) → SameQueries k l → SameQueries l m → SameQueries k m
trans-SameQueries k l m a b = record {
  hash = b.hash ∙ a.hash;
  queries = b.queries ∙ a.queries;
  waiting = b.waiting ∙ a.waiting;
  peers = b.peers ∙ a.peers;
  over = b.over ∙ a.over;
}

module _ (node_filter : Node → Bool) where
  pub shortlist_nodes-SameQueries :
      (nodes : List Node) (l : PeerLookup) → SameQueries l (shortlist_nodes node_filter nodes l)
  unfolding shortlist_nodes
  shortlist_nodes-SameQueries [] l = record {
    hash = refl;
    queries = refl;
    waiting = refl;
    peers = refl;
    over = refl;
  }
  shortlist_nodes-SameQueries (node ∷ nodes) l =
      let taken : Bool =
        is_usable_node node_filter node && not (member (address_of node) l.queried) in
      let next : PeerLookup =
        if taken then record l { shortlist = assign node.0 node l.shortlist } else l in
      trans-SameQueries l next (shortlist_nodes node_filter nodes next)
        (if-either (SameQueries l) taken _ l
          (λ h. record { hash = refl; queries = refl; waiting = refl; peers = refl; over = refl })
          (λ h. record { hash = refl; queries = refl; waiting = refl; peers = refl; over = refl }))
        (shortlist_nodes-SameQueries nodes next)

  new_lookup_empty :
      (h : Bytes) (d : ℕ)
      → ((new_lookup h d).queries_sent ≡ 0)
        × ((new_lookup h d).pending ≡ [])
        × ((new_lookup h d).info_hash ≡ h)
        × ((new_lookup h d).finished ≡ false)
  unfolding new_lookup
  new_lookup_empty h d = (refl, refl, refl, refl)

  pub add_to_shortlist-SameQueries :
      (nodes : List Node) (w : Work)
      → SameQueries w.lookup (add_to_shortlist node_filter nodes w).lookup
  unfolding add_to_shortlist
  add_to_shortlist-SameQueries nodes w =
      let next : PeerLookup = shortlist_nodes node_filter nodes w.lookup in
      trans-SameQueries w.lookup next (trim w.manager.limits.shortlist_size next)
        (shortlist_nodes-SameQueries nodes w.lookup)
        (trim-SameQueries w.manager.limits.shortlist_size next)

  -- The lookup that seed nodes make has asked nobody.
  pub shortlisted_fresh :
      (h : Bytes) (seeds : List Node) (d : ℕ) (m : LookupManager)
      → ((add_to_shortlist node_filter seeds
            (record { lookup = new_lookup h d; manager = m })).lookup.queries_sent
          ≡ 0)
        × ((add_to_shortlist node_filter seeds
              (record { lookup = new_lookup h d; manager = m })).lookup.pending
            ≡ [])
        × ((add_to_shortlist node_filter seeds
              (record { lookup = new_lookup h d; manager = m })).lookup.info_hash
            ≡ h)
        × ((add_to_shortlist node_filter seeds
              (record { lookup = new_lookup h d; manager = m })).lookup.finished
            ≡ false)
  shortlisted_fresh h seeds d m =
      let s =
        add_to_shortlist-SameQueries seeds (record { lookup = new_lookup h d; manager = m }) in
      let e = new_lookup_empty h d in (s.queries ∙ e.0, s.waiting ∙ e.1, s.hash ∙ e.2, s.over ∙ e.3)

  pub add_to_shortlist-manager :
      (nodes : List Node) (w : Work) → (add_to_shortlist node_filter nodes w).manager ≡ w.manager
  unfolding add_to_shortlist
  add_to_shortlist-manager nodes w = refl
