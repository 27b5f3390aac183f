-- ===== src/Lookup/Owned.antt =====
-- Which lookup a transaction belongs to.
use lif.Common.{
  ℕ, ◌+◌, List, [], ◌∷◌, true, false, Option, none, some, Bytes, byte_string_eq, pair_eq, nat_eq,
  All, Bool-cases, inl, inr, ◌⊎◌, ◌≡◌, refl, sym, ◌∙◌,
}
use lif.RecentMap.{find, contains, without}
use lif.RecentMap.Bound.{find-without, contains-without_self}
use lif.Catalog.Entries.{Peer}
use lif.Krpc.Addresses.{Node, lookup_transaction_id}
use lif.Lookup.Maps.{
  if-either, contains-assign, find-assign, find-assign_ne, contains-assign_kept,
  contains-without_ne, find-without_self, contains-find-none,
}
use lif.Lookup.State.{assign, PeerLookup, LookupManager, Work}
use lif.Lookup.Operations.{
  address_of, open_transaction, ask, send_to, release_address, drop_transaction, forget,
  release_known, release_transaction, release_all,
}
use lif.Lookup.Bounds.{IsNamed}

-- The lookup of a hash is active and waits for a transaction.
pub record Waits (active : List (Bytes × PeerLookup)) (t h : Bytes) : Type 0 where
  pub lookup : PeerLookup
  pub found : find h active ≡ some lookup
  pub waits : contains t lookup.pending ≡ true

abbrev pub IsRunning : PeerLookup → Type 0
IsRunning l = l.finished ≡ false

pub record Owned (m : LookupManager) : Type 0 where
  pub owned : (t h : Bytes) → find t m.transactions ≡ some h → Waits m.active t h
  pub named : All IsNamed m.active
  pub running : All (λ x. IsRunning x.1) m.active

-- The same while a lookup is at hand, whose object in `active` may lag behind.
abbrev pub HasOwner : Work → Bytes → Bytes → Type 0
HasOwner w t h =
    ((w.lookup.info_hash ≡ h) × (contains t w.lookup.pending ≡ true))
    ⊎ ((byte_string_eq.beq w.lookup.info_hash h ≡ false) × Waits w.manager.active t h)

pub record Owns (w : Work) : Type 0 where
  pub owns : (t h : Bytes) → find t w.manager.transactions ≡ some h → HasOwner w t h
  pub named : All IsNamed w.manager.active
  pub running : All (λ x. IsRunning x.1) w.manager.active

-- A finished lookup has no transactions.
pub record Keeps (w : Work) : Type 0 where
  pub all : Owns w
  pub over :
      w.lookup.finished ≡ true
      → (t h : Bytes) → find t w.manager.transactions ≡ some h
      → byte_string_eq.beq w.lookup.info_hash h ≡ false

-- A step that leaves the active lookups alone: a transaction is new and waited for, or it was there and is
-- still waited for.
pub record Moves (w w' : Work) : Type 0 where
  pub active : w'.manager.active ≡ w.manager.active
  pub hash : w'.lookup.info_hash ≡ w.lookup.info_hash
  pub moved :
      (t h : Bytes)
      → find t w'.manager.transactions ≡ some h
      → ((w.lookup.info_hash ≡ h) × (contains t w'.lookup.pending ≡ true))
        ⊎ ((find t w.manager.transactions ≡ some h)
            × (contains t w.lookup.pending ≡ true → contains t w'.lookup.pending ≡ true))

pub Moves-Owns : (w w' : Work) → Moves w w' → Owns w → Owns w'
Moves-Owns w w' s o = record {
  owns = λ t h e. elim (s.moved t h e) [
    | inl p ↦ inl (s.hash ∙ p.0, p.1)
    | inr p ↦ elim (o.owns t h p.0) [
      | inl q ↦ inl (s.hash ∙ q.0, p.1 q.1)
      | inr q ↦ inr (rw s.hash (q.0), rw s.active (q.1))
    ]
  ];
  named = rw s.active o.named;
  running = rw s.active o.running;
}

open_transaction-same :
    (t : Bytes) (node : Node) (h : Bytes) (m : LookupManager)
    → ((open_transaction t node h m).active ≡ m.active)
      × ((open_transaction t node h m).transactions ≡ assign t h m.transactions)
unfolding open_transaction
open_transaction-same t node h m = (refl, refl)

ask-same :
    (t : Bytes) (node : Node) (expiry : ℕ) (l : PeerLookup)
    → ((ask t node expiry l).info_hash ≡ l.info_hash)
      × ((ask t node expiry l).finished ≡ l.finished)
      × ((ask t node expiry l).pending ≡ assign t (address_of node, expiry) l.pending)
unfolding ask
ask-same t node expiry l = (refl, refl, refl)

asked-or-kept :
    (t u h : Bytes) (node : Node) (expiry : ℕ) (w : Work)
    → find u (assign t w.lookup.info_hash w.manager.transactions) ≡ some h
    → ((w.lookup.info_hash ≡ h) × (contains u (ask t node expiry w.lookup).pending ≡ true))
      ⊎ ((find u w.manager.transactions ≡ some h)
          × (contains u w.lookup.pending ≡ true
              → contains u (ask t node expiry w.lookup).pending ≡ true))
asked-or-kept t u h node expiry w e =
    let a = ask-same t node expiry w.lookup in
    let entry : Peer × ℕ = (address_of node, expiry) in
    elim (Bool-cases (byte_string_eq.beq t u)) [
      | inl f ↦
          let same : t ≡ u = byte_string_eq.beq→eq t u f in
          let here : find t (assign t w.lookup.info_hash w.manager.transactions) ≡ some h =
            rw (← same) at e in
          let found : some w.lookup.info_hash ≡ some h =
            sym (find-assign t w.lookup.info_hash w.manager.transactions) ∙ here in
          inl (cc, rw (a.2, ← same) (contains-assign t entry w.lookup.pending))
      | inr f ↦ inr (
        sym (find-assign_ne t u w.lookup.info_hash w.manager.transactions f) ∙ e,
        λ k. rw a.2 (contains-assign_kept t u entry w.lookup.pending k),
      )
    ]

pub send_to-Moves :
    (node : Node) (now timeout : ℕ) (w : Work) → Moves w (send_to node now timeout w)
unfolding send_to
send_to-Moves node now timeout w =
    let t = lookup_transaction_id w.manager.sequence in
    let m = open_transaction-same t node w.lookup.info_hash w.manager in
    let a = ask-same t node (now + timeout) w.lookup in
    record {
      active = m.0;
      hash = a.0;
      moved = λ u h e. asked-or-kept t u h node (now + timeout) w (rw m.1 at e);
    }

release_address-same :
    (a : Peer) (m : LookupManager)
    → ((release_address a m).active ≡ m.active)
      × ((release_address a m).transactions ≡ m.transactions)
unfolding release_address
release_address-same a m =
    if-either (λ (n : LookupManager). (n.active ≡ m.active) × (n.transactions ≡ m.transactions)) _ _
      _ (λ h. (refl, refl)) (λ h. (refl, refl))

forget-same :
    (t : Bytes) (l : PeerLookup)
    → ((forget t l).info_hash ≡ l.info_hash)
      × ((forget t l).finished ≡ l.finished)
      × ((forget t l).pending ≡ without t l.pending)
unfolding forget
forget-same t l = (refl, refl, refl)

pub dropped-same :
    (t : Bytes) (m : LookupManager)
    → ((drop_transaction t m).active ≡ m.active)
      × ((drop_transaction t m).transactions ≡ without t m.transactions)
unfolding drop_transaction
dropped-same t m = (refl, refl)

-- What is found without a key is found under another.
pub find-without-some :
    (t u h : Bytes) (m : List (Bytes × Bytes))
    → find u (without t m) ≡ some h
    → (byte_string_eq.beq t u ≡ false) × (find u m ≡ some h)
find-without-some t u h m e = elim (Bool-cases (byte_string_eq.beq t u)) [
  | inl f ↦
      let same : t ≡ u = byte_string_eq.beq→eq t u f in
      let here : find t (without t m) ≡ some h = rw (← same) at e in
      absurd (cc (here, find-without_self t m))
  | inr f ↦ (f, sym (find-without t u m f) ∙ e)
]

pub release_known-Moves :
    (o : Option (Peer × ℕ)) (t : Bytes) (w : Work) → Moves w (release_known o t w)
release_known-Moves none t w = record {
  active = refl;
  hash = refl;
  moved = λ u h e. inr (e, λ k. k);
}
release_known-Moves (some (a, expiry)) t w =
    let d = dropped-same t w.manager in
    let r = release_address-same a (drop_transaction t w.manager) in
    let f = forget-same t w.lookup in
    record {
      active = r.0 ∙ d.0;
      hash = f.0;
      moved = λ u h e.
          let kept = find-without-some t u h w.manager.transactions (rw (r.1, d.1) at e) in
          inr (kept.1, λ k. rw f.2 (contains-without_ne t u w.lookup.pending kept.0 ∙ k));
    }

pub release_known_finished :
    (o : Option (Peer × ℕ)) (t : Bytes) (w : Work)
    → (release_known o t w).lookup.finished ≡ w.lookup.finished
release_known_finished none t w = refl
release_known_finished (some (a, expiry)) t w = (forget-same t w.lookup).1

pub release_known_gone :
    (o : Option (Peer × ℕ)) (t : Bytes) (w : Work)
    → find t w.lookup.pending ≡ o
    → contains t (release_known o t w).lookup.pending ≡ false
release_known_gone none t w e = contains-find-none t w.lookup.pending e
release_known_gone (some (a, expiry)) t w e =
    rw (forget-same t w.lookup).2 (contains-without_self t w.lookup.pending)

pub release_known_still :
    (o : Option (Peer × ℕ)) (t u : Bytes) (w : Work)
    → contains u w.lookup.pending ≡ false
    → contains u (release_known o t w).lookup.pending ≡ false
release_known_still none t u w e = e
release_known_still (some (a, expiry)) t u w e =
    rw (forget-same t w.lookup).2 (elim (Bool-cases (byte_string_eq.beq t u)) [
      | inl f ↦ rw (← byte_string_eq.beq→eq t u f) (contains-without_self t w.lookup.pending)
      | inr f ↦ contains-without_ne t u w.lookup.pending f ∙ e
    ])

pub release-Owns : (t : Bytes) (w : Work) → Owns w → Owns (release_transaction t w)
unfolding release_transaction
release-Owns t w o = Moves-Owns w _ (release_known-Moves (find t w.lookup.pending) t w) o

release_known_there :
    (o : Option (Peer × ℕ)) (t u h : Bytes) (w : Work)
    → find u (release_known o t w).manager.transactions ≡ some h
    → find u w.manager.transactions ≡ some h
release_known_there none t u h w e = e
release_known_there (some (a, expiry)) t u h w e =
    let d = dropped-same t w.manager in
    let r = release_address-same a (drop_transaction t w.manager) in
    (find-without-some t u h w.manager.transactions (rw (r.1, d.1) at e)).1

pub release-Keeps : (t : Bytes) (w : Work) → Keeps w → Keeps (release_transaction t w)
unfolding release_transaction
release-Keeps t w k =
    let o = find t w.lookup.pending in
    let s = release_known-Moves o t w in
    record {
      all = Moves-Owns w _ s k.all;
      over = λ f u h e.
          rw s.hash
            (k.over (sym (release_known_finished o t w) ∙ f) u h (release_known_there o t u h w e));
    }

pub release_all-Owns : (ts : List Bytes) (w : Work) → Owns w → Owns (release_all ts w)
unfolding release_all
release_all-Owns [] w o = o
release_all-Owns (t ∷ ts) w o = release_all-Owns ts (release_transaction t w) (release-Owns t w o)
