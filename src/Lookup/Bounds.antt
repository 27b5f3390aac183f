-- ===== src/Lookup/Bounds.antt =====
-- The limits of LookupLimits, on a lookup and on the manager.
use lif.Common.{
  ℕ, suc, ◌+◌, ◌*◌, ◌-◌, ◌≤◌, ◌<◌, max, List, [], ◌∷◌, map, true, Option, none, some, Bytes, ltb,
  length, byte_string_eq, nat_eq, pair_eq, All, Bool-cases, inl, inr, ◌⊎◌, ◌≡◌, refl, sym, ◌∙◌, ap,
  arith,
}
use lif.RecentMap.{find, contains}
use lif.Lookup.Maps.{
  length-assign, length-assign_known, length-without, assign-All, without-All, if-either,
}
use lif.Catalog.Entries.{Peer}
use lif.Krpc.Addresses.{Node, lookup_transaction_id}
use lif.Lookup.Closest.{sort, address_before}
use lif.Lookup.State.{
  assign, LookupLimits, PeerLookup, LookupManager, Work, put_active, settle, load,
}
use lif.Lookup.Operations.{
  open_transaction, ask, send_to, release_address, drop_transaction, forget, release_known,
  release_transaction, release_all, report, finish, address_of,
}

-- A lookup within the limits.
pub record Within (limits : LookupLimits) (l : PeerLookup) : Type 0 where
  pub queries : l.queries_sent ≤ max 1 limits.max_queries
  pub waiting : length l.pending ≤ max 1 limits.alpha
  pub short : length l.shortlist ≤ limits.shortlist_size
  pub found : length l.found_peers ≤ limits.max_peers

-- Every active lookup is filed under its hash.
abbrev pub IsNamed : Bytes × PeerLookup → Type 0
IsNamed (h, l) = l.info_hash ≡ h

pub assign-IsNamed :
    (l : PeerLookup) (m : List (Bytes × PeerLookup))
    → All IsNamed m
    → All IsNamed (assign l.info_hash l m)
unfolding assign
assign-IsNamed l [] a = (refl, tt)
assign-IsNamed l ((j, v) ∷ m) a = elim (Bool-cases (byte_string_eq.beq j l.info_hash)) [
  | inl f ↦ rw f (sym (byte_string_eq.beq→eq j l.info_hash f), a.1)
  | inr f ↦ rw f (a.0, assign-IsNamed l m a.1)
]

pub find-IsNamed :
    (h : Bytes) (l : PeerLookup) (m : List (Bytes × PeerLookup))
    → All IsNamed m
    → find h m ≡ some l
    → l.info_hash ≡ h
unfolding find
find-IsNamed h l [] a e = cc
find-IsNamed h l ((j, v) ∷ m) a e = elim (Bool-cases (byte_string_eq.beq j h)) [
  | inl f ↦
      let found : some v ≡ some l = rw f at e in
      let same : v ≡ l = cc in ap (λ x. x.info_hash) (sym same) ∙ a.0 ∙ byte_string_eq.beq→eq j h f
  | inr f ↦ find-IsNamed h l m a.1 (rw f at e)
]

pub record Limited (m : LookupManager) : Type 0 where
  pub each : All (λ x. Within m.limits x.1) m.active
  pub named : All IsNamed m.active
  pub few : length m.active ≤ m.limits.max_active
  pub budget : m.tokens ≤ 1000 * m.limits.queries_per_second

-- A lookup at hand and its manager; the lookup is active until it is finished.
pub record Fits (w : Work) : Type 0 where
  pub own : Within w.manager.limits w.lookup
  pub rest : Limited w.manager
  pub listed : (w.lookup.finished ≡ true) ⊎ (contains w.lookup.info_hash w.manager.active ≡ true)

pub settle-Limited : (w : Work) → Fits w → Limited (settle w)
unfolding settle put_active
settle-Limited w f =
    if-either Limited w.lookup.finished w.manager (put_active w.lookup w.manager) (λ h. f.rest)
      (λ h. written (elim f.listed [ inl k ↦ absurd (cc (h, k)) | inr k ↦ k ]))
  where
    written :
        contains w.lookup.info_hash w.manager.active ≡ true
        → Limited (put_active w.lookup w.manager)
    written k = record {
      each =
          assign-All (Within w.manager.limits) w.lookup.info_hash w.lookup w.manager.active f.own
            f.rest.each;
      named = assign-IsNamed w.lookup w.manager.active f.rest.named;
      few =
          omega
            (arith, length-assign_known w.lookup.info_hash w.lookup w.manager.active k, f.rest.few);
      budget = f.rest.budget;
    }

-- What does not touch the limits, the active lookups, or the tokens except to spend them.
pub record Spends (m m' : LookupManager) : Type 0 where
  pub limits : m'.limits ≡ m.limits
  pub active : m'.active ≡ m.active
  pub tokens : m'.tokens ≤ m.tokens

pub Spends-Fits :
    (w w' : Work)
    → Spends w.manager w'.manager
    → Within w.manager.limits w'.lookup
    → w'.lookup.info_hash ≡ w.lookup.info_hash
    → w'.lookup.finished ≡ w.lookup.finished
    → Fits w
    → Fits w'
Spends-Fits w w' s own hash finished f = record {
  own = rw s.limits own;
  rest = record {
    each = rw (s.limits, s.active) f.rest.each;
    named = rw s.active f.rest.named;
    few = rw (s.limits, s.active) f.rest.few;
    budget = rw s.limits (omega (arith, s.tokens, f.rest.budget));
  };
  listed = rw (finished, hash, s.active) f.listed;
}

release_address-Spends : (a : Peer) (m : LookupManager) → Spends m (release_address a m)
unfolding release_address
release_address-Spends a m =
    if-either (Spends m) (ltb 0 (load a m - 1)) _ _
      (λ h. record { limits = refl; active = refl; tokens = omega arith })
      (λ h. record { limits = refl; active = refl; tokens = omega arith })

forget-Within :
    (limits : LookupLimits) (t : Bytes) (l : PeerLookup)
    → Within limits l
    → Within limits (forget t l)
unfolding forget
forget-Within limits t l w = record {
  queries = w.queries;
  waiting = omega (arith, w.waiting, length-without t l.pending);
  short = w.short;
  found = w.found;
}

forgotten :
    (t : Bytes) (l : PeerLookup)
    → ((forget t l).info_hash ≡ l.info_hash) × ((forget t l).finished ≡ l.finished)
unfolding forget
forgotten t l = (refl, refl)

dropped-Spends :
    (t : Bytes) (a : Peer) (m : LookupManager) → Spends m (release_address a (drop_transaction t m))
unfolding drop_transaction
dropped-Spends t a m =
    let s = release_address-Spends a (drop_transaction t m) in
    record { limits = s.limits; active = s.active; tokens = s.tokens }

release_known-Fits :
    (o : Option (Peer × ℕ)) (t : Bytes) (w : Work) → Fits w → Fits (release_known o t w)
release_known-Fits none t w f = f
release_known-Fits (some (a, expiry)) t w f =
    Spends-Fits w _ (dropped-Spends t a w.manager) (forget-Within w.manager.limits t w.lookup f.own)
      (forgotten t w.lookup).0 (forgotten t w.lookup).1 f

release_known-finished :
    (o : Option (Peer × ℕ)) (t : Bytes) (w : Work)
    → (release_known o t w).lookup.finished ≡ w.lookup.finished
release_known-finished none t w = refl
release_known-finished (some (a, expiry)) t w = (forgotten t w.lookup).1

pub release_transaction-Fits : (t : Bytes) (w : Work) → Fits w → Fits (release_transaction t w)
unfolding release_transaction
release_transaction-Fits t w f = release_known-Fits (find t w.lookup.pending) t w f

pub release_all-Fits :
    (ts : List Bytes) (w : Work)
    → Fits w
    → Fits (release_all ts w) × ((release_all ts w).lookup.finished ≡ w.lookup.finished)
unfolding release_all release_transaction
release_all-Fits [] w f = (f, refl)
release_all-Fits (t ∷ ts) w f =
    let o = find t w.lookup.pending in
    let more = release_all-Fits ts (release_known o t w) (release_known-Fits o t w f) in
    (more.0, more.1 ∙ release_known-finished o t w)

-- A finished lookup leaves the active ones.
report-Fits :
    (info_hash : Bytes) (peers : List Peer) (w : Work)
    → Fits w
    → w.lookup.finished ≡ true
    → Fits (record w { manager = report info_hash peers w.manager })
unfolding report
report-Fits info_hash peers w f h = record {
  own = f.own;
  rest = record {
    each = without-All (λ x. Within w.manager.limits x.1) info_hash w.manager.active f.rest.each;
    named = without-All IsNamed info_hash w.manager.active f.rest.named;
    few = omega (arith, f.rest.few, length-without info_hash w.manager.active);
    budget = f.rest.budget;
  };
  listed = inl h;
}

pub finish-Fits : (w : Work) → Fits w → Fits (finish w)
unfolding finish
finish-Fits w f =
    let over : Work = record w { lookup = record w.lookup { finished = true } } in
    let begun : Fits over = record {
      own = record {
        queries = f.own.queries;
        waiting = f.own.waiting;
        short = f.own.short;
        found = f.own.found;
      };
      rest = f.rest;
      listed = inl refl;
    } in
    let (released, still) = release_all-Fits (map (λ x. x.0) w.lookup.pending) over begun in
    report-Fits w.lookup.info_hash (sort address_before w.lookup.found_peers)
      (release_all (map (λ x. x.0) w.lookup.pending) over) released still

-- A query, while there is room for it.
ask-Within :
    (limits : LookupLimits) (t : Bytes) (node : Node) (expiry : ℕ) (l : PeerLookup)
    → l.queries_sent < max 1 limits.max_queries
    → length l.pending < max 1 limits.alpha
    → Within limits l
    → Within limits (ask t node expiry l)
unfolding ask
ask-Within limits t node expiry l q p w = record {
  queries = omega (arith, q);
  waiting = omega (arith, p, length-assign t (address_of node, expiry) l.pending);
  short = w.short;
  found = w.found;
}

open_transaction-Spends :
    (t : Bytes) (node : Node) (h : Bytes) (m : LookupManager)
    → Spends m (open_transaction t node h m)
unfolding open_transaction
open_transaction-Spends t node h m = record { limits = refl; active = refl; tokens = omega arith }

asked :
    (t : Bytes) (node : Node) (expiry : ℕ) (l : PeerLookup)
    → ((ask t node expiry l).info_hash ≡ l.info_hash)
      × ((ask t node expiry l).finished ≡ l.finished)
      × ((ask t node expiry l).queries_sent ≡ suc l.queries_sent)
      × (length (ask t node expiry l).pending ≤ suc (length l.pending))
unfolding ask
asked t node expiry l = (refl, refl, refl, length-assign t (address_of node, expiry) l.pending)

pub send_to-Fits :
    (node : Node) (now timeout : ℕ) (w : Work)
    → Fits w
    → w.lookup.queries_sent < max 1 w.manager.limits.max_queries
    → length w.lookup.pending < max 1 w.manager.limits.alpha
    → Fits (send_to node now timeout w)
unfolding send_to
send_to-Fits node now timeout w f q p =
    let t = lookup_transaction_id w.manager.sequence in
    let a = asked t node (now + timeout) w.lookup in
    Spends-Fits w _ (open_transaction-Spends t node w.lookup.info_hash w.manager)
      (ask-Within w.manager.limits t node (now + timeout) w.lookup q p f.own) a.0 a.1 f

pub send_to_grows :
    (node : Node) (now timeout : ℕ) (w : Work)
    → ((send_to node now timeout w).manager.limits ≡ w.manager.limits)
      × ((send_to node now timeout w).lookup.queries_sent ≡ suc w.lookup.queries_sent)
      × (length (send_to node now timeout w).lookup.pending ≤ suc (length w.lookup.pending))
      × ((send_to node now timeout w).lookup.finished ≡ w.lookup.finished)
unfolding send_to
send_to_grows node now timeout w =
    let t = lookup_transaction_id w.manager.sequence in
    let a = asked t node (now + timeout) w.lookup in
    ((open_transaction-Spends t node w.lookup.info_hash w.manager).limits, a.2, a.3, a.1)
