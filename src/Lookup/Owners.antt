-- ===== src/Lookup/Owners.antt =====
-- The owners of transactions when a lookup finishes, and through the parts of the handlers.
use lif.Common.{
  ℕ, List, [], ◌∷◌, map, true, false, some, Bytes, byte_string_eq, pair_eq, nat_eq, Bool-cases, inl,
  inr, ◌≡◌, refl, sym, ◌∙◌, ap,
}
use lif.RecentMap.{find, contains, without}
use lif.RecentMap.Bound.{find-without}
use lif.Catalog.Entries.{Peer}
use lif.Krpc.Addresses.{Node}
use lif.Lookup.Closest.{sort, address_before}
use lif.Lookup.Maps.{if-either, assign-All, without-All, find-All, find-assign, find-assign_ne}
use lif.Lookup.State.{PeerLookup, LookupManager, Work, put_active, settle, refill}
use lif.Lookup.Operations.{
  ask, send_to, release_known, release_transaction, release_all, refilled, report, finish,
}
use lif.Lookup.Bounds.{IsNamed, assign-IsNamed, find-IsNamed}
use lif.Lookup.Rounds.{Settled}
use lif.Lookup.Owned.{
  Waits, Owned, IsRunning, HasOwner, Owns, Keeps, Moves-Owns, send_to-Moves, release_known-Moves,
  release-Keeps, release_all-Owns, release_known_finished, release_known_gone, release_known_still,
}

release_all_same :
    (ts : List Bytes) (w : Work)
    → ((release_all ts w).lookup.info_hash ≡ w.lookup.info_hash)
      × ((release_all ts w).lookup.finished ≡ w.lookup.finished)
unfolding release_all release_transaction
release_all_same [] w = (refl, refl)
release_all_same (t ∷ ts) w =
    let o = find t w.lookup.pending in
    let rest = release_all_same ts (release_known o t w) in
    (rest.0 ∙ (release_known-Moves o t w).hash, rest.1 ∙ release_known_finished o t w)

release_all_still :
    (ts : List Bytes) (u : Bytes) (w : Work)
    → contains u w.lookup.pending ≡ false
    → contains u (release_all ts w).lookup.pending ≡ false
unfolding release_all release_transaction
release_all_still [] u w e = e
release_all_still (t ∷ ts) u w e =
    let o = find t w.lookup.pending in
    release_all_still ts u (release_known o t w) (release_known_still o t u w e)

-- What is a key of `m` is not pending once all keys of `m` are released.
release_all_gone :
    (m : List (Bytes × (Peer × ℕ))) (u : Bytes) (w : Work)
    → contains u m ≡ true
    → contains u (release_all (map (λ x. x.0) m) w).lookup.pending ≡ false
unfolding release_all release_transaction contains
release_all_gone [] u w h = cc
release_all_gone ((t, v) ∷ m) u w h =
    let o = find t w.lookup.pending in
    elim (Bool-cases (byte_string_eq.beq t u)) [
      | inl f ↦
          let gone = release_known_gone o t w refl in
          let same : t ≡ u = byte_string_eq.beq→eq t u f in
          release_all_still (map (λ x. x.0) m) u (release_known o t w) (rw (← same) gone)
      | inr f ↦ release_all_gone m u (release_known o t w) (rw f at h)
    ]

-- A lookup whose transactions are all released has none.
released_over :
    (w : Work) (t h : Bytes)
    → Owns (release_all (map (λ x. x.0) w.lookup.pending) w)
    → find t (release_all (map (λ x. x.0) w.lookup.pending) w).manager.transactions ≡ some h
    → (byte_string_eq.beq w.lookup.info_hash h ≡ false)
      × Waits (release_all (map (λ x. x.0) w.lookup.pending) w).manager.active t h
released_over w t h o e =
    let ts = map (λ x. x.0) w.lookup.pending in
    let hash = (release_all_same ts w).0 in
    elim (o.owns t h e) [
      | inl p ↦ absurd (elim (Bool-cases (contains t w.lookup.pending)) [
        | inl k ↦ cc (p.1, release_all_gone w.lookup.pending t w k)
        | inr k ↦ cc (p.1, release_all_still ts t w k)
      ])
      | inr p ↦ (rw (← hash) (p.0), p.1)
    ]

report-same :
    (h : Bytes) (peers : List Peer) (m : LookupManager)
    → ((report h peers m).active ≡ without h m.active)
      × ((report h peers m).transactions ≡ m.transactions)
unfolding report
report-same h peers m = (refl, refl)

Waits-without :
    (h t k : Bytes) (active : List (Bytes × PeerLookup))
    → byte_string_eq.beq h k ≡ false
    → Waits active t k
    → Waits (without h active) t k
Waits-without h t k active f w = record {
  lookup = w.lookup;
  found = find-without h k active f ∙ w.found;
  waits = w.waits;
}

finish-Keeps : (w : Work) → Keeps w → Keeps (finish w)
unfolding finish
finish-Keeps w k =
    let over : Work = record w { lookup = record w.lookup { finished = true } } in
    let ts = map (λ x. x.0) w.lookup.pending in
    let peers = sort address_before w.lookup.found_peers in
    let begun : Owns over = record {
      owns = k.all.owns;
      named = k.all.named;
      running = k.all.running;
    } in
    let released : Owns (release_all ts over) = release_all-Owns ts over begun in
    let same = release_all_same ts over in
    let r = report-same w.lookup.info_hash peers (release_all ts over).manager in
    record {
      all = record {
        owns = λ t h e.
            let p = released_over over t h released (rw r.1 at e) in
            inr (rw same.0 (p.0), rw r.0 (Waits-without w.lookup.info_hash t h _ p.0 p.1));
        named = rw r.0 (
            without-All IsNamed w.lookup.info_hash (release_all ts over).manager.active
              released.named);
        running = rw r.0 (
            without-All (λ x. IsRunning x.1) w.lookup.info_hash (release_all ts over).manager.active
              released.running);
      };
      over = λ f t h e. rw same.0 (released_over over t h released (rw r.1 at e)).0;
    }

-- A step that changes neither transactions nor what is pending.
pub record Calm (w w' : Work) : Type 0 where
  pub active : w'.manager.active ≡ w.manager.active
  pub hash : w'.lookup.info_hash ≡ w.lookup.info_hash
  pub over : w'.lookup.finished ≡ w.lookup.finished
  pub transactions : w'.manager.transactions ≡ w.manager.transactions
  pub pending : w'.lookup.pending ≡ w.lookup.pending

pub Calm-Keeps : (w w' : Work) → Calm w w' → Keeps w → Keeps w'
Calm-Keeps w w' c k = record {
  all =
      Moves-Owns w w'
        (record {
          active = c.active;
          hash = c.hash;
          moved = λ t h e. inr (rw c.transactions at e, λ p. rw c.pending p);
        })
        k.all;
  over = λ f t h e. rw c.hash (k.over (sym c.over ∙ f) t h (rw c.transactions at e));
}

put_active-Owned :
    (w : Work) → Owns w → w.lookup.finished ≡ false → Owned (put_active w.lookup w.manager)
unfolding put_active
put_active-Owned w o r = record {
  owned = λ t h e. elim (o.owns t h e) [
    | inl p ↦ record {
      lookup = w.lookup;
      found = rw (← p.0) (find-assign w.lookup.info_hash w.lookup w.manager.active);
      waits = p.1;
    }
    | inr p ↦ record {
      lookup = p.1.lookup;
      found = find-assign_ne w.lookup.info_hash h w.lookup w.manager.active p.0 ∙ p.1.found;
      waits = p.1.waits;
    }
  ];
  named = assign-IsNamed w.lookup w.manager.active o.named;
  running = assign-All IsRunning w.lookup.info_hash w.lookup w.manager.active r o.running;
}

settle-Owned : (w : Work) → Keeps w → Owned (settle w)
unfolding settle
settle-Owned w k =
    if-either Owned w.lookup.finished w.manager (put_active w.lookup w.manager)
      (λ f. record {
        owned = λ t h e. others f t h e (k.all.owns t h e);
        named = k.all.named;
        running = k.all.running;
      })
      (λ f. put_active-Owned w k.all f)
  where
    others :
        w.lookup.finished ≡ true
        → (t h : Bytes) → find t w.manager.transactions ≡ some h
        → HasOwner w t h
        → Waits w.manager.active t h
    others f t h e (inl p) =
        let other : byte_string_eq.beq w.lookup.info_hash h ≡ false = k.over f t h e in
        absurd (cc (rw p.0 at other, byte_string_eq.beq_self h))
    others f t h e (inr p) = p.1

find-Keeps :
    (h : Bytes) (l : PeerLookup) (m : LookupManager)
    → Owned m
    → find h m.active ≡ some l
    → Keeps (record { lookup = l; manager = m })
find-Keeps h l m o e = record {
  all = record { owns = λ t k f. owner t k (o.owned t k f); named = o.named; running = o.running };
  over = λ f. absurd (cc (f, find-All IsRunning h l m.active o.running e));
}
  where
    owner : (t k : Bytes) → Waits m.active t k → HasOwner (record { lookup = l; manager = m }) t k
    owner t k w = elim (Bool-cases (byte_string_eq.beq l.info_hash k)) [
      | inl f ↦
          let name : l.info_hash ≡ h = find-IsNamed h l m.active o.named e in
          let same : k ≡ h = sym (byte_string_eq.beq→eq l.info_hash k f) ∙ name in
          let here : some w.lookup ≡ some l = sym w.found ∙ ap (λ x. find x m.active) same ∙ e in
          let it : w.lookup ≡ l = cc in
          inl (
            byte_string_eq.beq→eq l.info_hash k f,
            ap (λ x. contains t x.pending) (sym it) ∙ w.waits,
          )
      | inr f ↦ inr (f, w)
    ]

refill-Owned : (now : ℕ) (m : LookupManager) → Owned m → Owned (refill now m)
unfolding refill
refill-Owned now m o = record { owned = o.owned; named = o.named; running = o.running }

refilled-Keeps : (now : ℕ) (w : Work) → Keeps w → Keeps (refilled now w)
unfolding refilled refill
refilled-Keeps now w k =
    Calm-Keeps w _
      (record { active = refl; hash = refl; over = refl; transactions = refl; pending = refl }) k

send_to_running :
    (node : Node) (now timeout : ℕ) (w : Work)
    → (send_to node now timeout w).lookup.finished ≡ w.lookup.finished
unfolding send_to ask
send_to_running node now timeout w = refl

send_to-Keeps :
    (node : Node) (now timeout : ℕ) (w : Work)
    → Keeps w
    → w.lookup.finished ≡ false
    → Keeps (send_to node now timeout w)
send_to-Keeps node now timeout w k r = record {
  all = Moves-Owns w (send_to node now timeout w) (send_to-Moves node now timeout w) k.all;
  over = λ f. absurd (cc (f, send_to_running node now timeout w, r));
}

pub Keeps-Settled : Settled Keeps Owned
Keeps-Settled = record {
  closed = record {
    on_refilled = refilled-Keeps;
    on_sent = λ node now timeout w k q p r. send_to-Keeps node now timeout w k r;
    on_released = release-Keeps;
    on_finished = finish-Keeps;
  };
  settled = settle-Owned;
  taken_up = find-Keeps;
  on_refill = refill-Owned;
}
