-- ===== src/Lookup/Rounds.antt =====
-- A predicate through the rounds of a lookup and the manager's methods, from their steps.
use lif.Common.{
  ℕ, ◌+◌, ◌≤◌, ◌<◌, max, List, [], ◌∷◌, map, not, ◌&&◌, Option, none, some, Bytes, ◌==◌, length,
  if◌then◌else◌, byte_string_eq, ◌≡◌, refl, sym, ◌∙◌, false, arith, length-take,
}
use lif.RecentMap.{find}
use lif.Lookup.Maps.{if-either}
use lif.Krpc.Addresses.{Node}
use lif.Lookup.Closest.{sort, nearer, select_closest_nodes}
use lif.Lookup.State.{PeerLookup, LookupManager, Work, settle, refill, is_broke}
use lif.Lookup.Operations.{
  send_to, release_transaction, release_all, send_each, candidates, refilled, free_queries,
  send_round, top_up, can_query_more, finish, finish_if_idle, is_over, waits_for_hint, advance,
  expired, expire_pending, tick_each, tick, abort_each, abort_all, nodes_of,
}
use lif.Lookup.Bounds.{send_to_grows}

-- A predicate on a lookup at hand and its manager that the steps keep; a query is sent only with room for it.
pub record Closed (I : Work → Type 0) : Type 0 where
  pub on_refilled : (now : ℕ) (w : Work) → I w → I (refilled now w)
  pub on_sent :
      (node : Node) (now timeout : ℕ) (w : Work)
      → I w
      → w.lookup.queries_sent < max 1 w.manager.limits.max_queries
      → length w.lookup.pending < max 1 w.manager.limits.alpha
      → w.lookup.finished ≡ false
      → I (send_to node now timeout w)
  pub on_released : (t : Bytes) (w : Work) → I w → I (release_transaction t w)
  pub on_finished : (w : Work) → I w → I (finish w)

-- A predicate on the manager between methods that goes with it.
pub record Settled (I : Work → Type 0) (J : LookupManager → Type 0) : Type 0 where
  pub closed : Closed I
  pub settled : (w : Work) → I w → J (settle w)
  pub taken_up :
      (h : Bytes) (l : PeerLookup) (m : LookupManager)
      → J m
      → find h m.active ≡ some l
      → I (record { lookup = l; manager = m })
  pub on_refill : (now : ℕ) (m : LookupManager) → J m → J (refill now m)

pub length-select_closest_nodes :
    (nodes : List Node) (target : Bytes) (count : ℕ)
    → length (select_closest_nodes nodes target count) ≤ count
unfolding select_closest_nodes
length-select_closest_nodes nodes target count =
    omega (arith, length-take count (sort (nearer target) nodes))

refilled_same :
    (now : ℕ) (w : Work)
    → (free_queries (refilled now w) ≡ free_queries w)
      × ((refilled now w).lookup.finished ≡ w.lookup.finished)
unfolding refilled refill
refilled_same now w = (refl, refl)

module _ {I : Work → Type 0} (c : Closed I) where
  send_each-I :
      (nodes : List Node) (now : ℕ) (w : Work)
      → I w
      → w.lookup.queries_sent + length nodes ≤ max 1 w.manager.limits.max_queries
      → length w.lookup.pending + length nodes ≤ max 1 w.manager.limits.alpha
      → w.lookup.finished ≡ false
      → I (send_each nodes now w)
  unfolding send_each
  send_each-I [] now w f q p r = f
  send_each-I (node ∷ nodes) now w f q p r =
      let timeout = w.manager.limits.query_timeout in
      let sent : Work = send_to node now timeout w in
      let (same, queries, waiting, running) = send_to_grows node now timeout w in
      if-either I (is_broke w.manager) w (send_each nodes now sent) (λ h. f)
        (λ h.
          send_each-I nodes now sent
            (c.on_sent node now timeout w f (omega (arith, q)) (omega (arith, p)) r)
            (rw same (omega (arith, q, queries))) (rw same (omega (arith, p, waiting)))
            (running ∙ r))

  send_round-I :
      (free now : ℕ) (w : Work)
      → free ≡ free_queries w
      → 0 < free
      → w.lookup.finished ≡ false
      → I w
      → I (send_round free now w)
  unfolding send_round
  send_round-I free now w e h r f =
      let some_nodes = candidates (nodes_of w.lookup.shortlist) w.lookup w.manager in
      let chosen = select_closest_nodes some_nodes w.lookup.info_hash free in
      let few = length-select_closest_nodes some_nodes w.lookup.info_hash free in
      if-either I (is_broke w.manager) w (send_each chosen now w) (λ b. f)
        (λ b. send_each-I chosen now w f (omega (arith, few, e, h)) (omega (arith, few, e, h)) r)

  pub top_up-I : (now : ℕ) (w : Work) → w.lookup.finished ≡ false → I w → I (top_up now w)
  unfolding top_up
  top_up-I now w r f =
      if-either I (free_queries w == 0) w (send_round (free_queries w) now (refilled now w))
        (λ h. f)
        (λ h.
          send_round-I (free_queries w) now (refilled now w) (sym (refilled_same now w).0)
            (ground arith) ((refilled_same now w).1 ∙ r) (c.on_refilled now w f))

  finish_if_idle-I : (w : Work) → I w → I (finish_if_idle w)
  unfolding finish_if_idle
  finish_if_idle-I w f =
      if-either I ((length w.lookup.pending == 0) && not (can_query_more w)) (finish w) w
        (λ h. c.on_finished w f) (λ h. f)

  pub advance-I : (now : ℕ) (w : Work) → I w → I (advance now w)
  unfolding advance
  advance-I now w f =
      let idle : Work = finish_if_idle (top_up now w) in
      let waits : Work = if waits_for_hint w.lookup.hint_transaction then w else idle in
      if-either I w.lookup.finished w (if is_over now w then finish w else waits) (λ h. f)
        (λ h.
          if-either I (is_over now w) (finish w) waits (λ k. c.on_finished w f)
            (λ k.
              if-either I (waits_for_hint w.lookup.hint_transaction) w idle (λ l. f)
                (λ l. finish_if_idle-I (top_up now w) (top_up-I now w h f))))

  pub release_all-I : (ts : List Bytes) (w : Work) → I w → I (release_all ts w)
  unfolding release_all
  release_all-I [] w f = f
  release_all-I (t ∷ ts) w f = release_all-I ts (release_transaction t w) (c.on_released t w f)

  expire_pending-I : (now : ℕ) (w : Work) → I w → I (expire_pending now w)
  unfolding expire_pending
  expire_pending-I now w f = release_all-I (expired w.lookup.pending now) w f

module _ {I : Work → Type 0} {J : LookupManager → Type 0} (s : Settled I J) where
  -- A step on the lookup under a hash, if it is still active.
  step-J :
      (h : Bytes) (f : Work → Work) (m : LookupManager)
      → ((w : Work) → I w → I (f w))
      → J m
      → J (elim (find h m.active) [
        | none ↦ m
        | some l ↦ settle (f (record { lookup = l; manager = m }))
      ])
  step-J h f m keeps j = go (find h m.active) refl
    where
      go :
          (o : Option PeerLookup)
          → find h m.active ≡ o
          → J (elim o [ none ↦ m | some l ↦ settle (f (record { lookup = l; manager = m })) ])
      go none e = j
      go (some l) e =
          let w : Work = record { lookup = l; manager = m } in
          s.settled (f w) (keeps w (s.taken_up h l m j e))

  tick_each-J :
      (hashes : List Bytes) (now : ℕ) (m : LookupManager) → J m → J (tick_each hashes now m)
  unfolding tick_each
  tick_each-J [] now m j = j
  tick_each-J (h ∷ hashes) now m j = tick_each-J hashes now _ (
      step-J h (λ w. advance now (expire_pending now w)) m
        (λ w f. advance-I s.closed now (expire_pending now w) (expire_pending-I s.closed now w f))
        j)

  pub tick-J : (now : ℕ) (m : LookupManager) → J m → J (tick now m)
  unfolding tick
  tick-J now m j =
      tick_each-J (map (λ x. x.0) (refill now m).active) now (refill now m) (s.on_refill now m j)

  abort_each-J : (hashes : List Bytes) (m : LookupManager) → J m → J (abort_each hashes m)
  unfolding abort_each
  abort_each-J [] m j = j
  abort_each-J (h ∷ hashes) m j = abort_each-J hashes _ (step-J h finish m s.closed.on_finished j)

  pub abort_all-J : (m : LookupManager) → J m → J (abort_all m)
  unfolding abort_all
  abort_all-J m j = abort_each-J (map (λ x. x.0) m.active) m j
