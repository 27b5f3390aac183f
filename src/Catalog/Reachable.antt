-- ===== src/Catalog/Reachable.antt =====
-- The catalogs that the public methods of dht_scraper/torrent_catalog.py reach from an empty one, in any
-- order of calls.
use lif.Common.{ℕ, ◌+◌, List, [], ◌∷◌, Bool, Option, Bytes, length, ◌≡◌, refl, arith, if◌then◌else◌}
use lif.Catalog.Entries.{
  Peer, Metadata, FetchState, pending, in_progress, done, failed, is_state, Source, IndexBase,
}
use lif.Catalog.Store.{Objects, Heap}
use lif.Catalog.State.{Settings, Catalog, new_catalog}
use lif.Catalog.Operations.{
  record_hash, record_hashes, add_peers, hashes_needing_peers, release_lookup_claim,
  add_lookup_result, next_fetch_candidates, store_metadata, mark_fetch_failed, release_fetch_claim,
}
use lif.Catalog.Indexing.{
  IndexSnapshot, enable_index_tracking, drain_index_documents, drain_index_counters,
  requeue_index_documents, requeue_index_counters, mark_counters_written, set_index_base,
  mark_index_written, set_database_check, apply_database_checks, reset_index_base,
}
use lif.Catalog.Tally.{tally}
use lif.Catalog.Counts.{in_state}
use lif.Catalog.Keeps.{Consistent}
use lif.Catalog.Invariant.{
  record_hash-Consistent, record_hashes-Consistent, add_peers-Consistent,
  hashes_needing_peers-Consistent, release_lookup_claim-Consistent, add_lookup_result-Consistent,
  next_fetch_candidates-Consistent, store_metadata-Consistent, mark_fetch_failed-Consistent,
  release_fetch_claim-Consistent,
}
use lif.Catalog.Indexed.{
  enable_index_tracking-Keeps, drain_index_documents-Keeps, drain_index_counters-Keeps,
  requeue_index_documents-Keeps, requeue_index_counters-Keeps, mark_counters_written-Keeps,
  set_index_base-Consistent, mark_index_written-Keeps, set_database_check-Consistent,
  apply_database_checks-Consistent, reset_index_base-Consistent,
}

-- One call of a public method that changes the catalog.
pub data Call : Catalog → Catalog → Type 0 where
  recorded :
      {c : Catalog} (k : Bytes) (source : Source) (peer : Option Peer) (moment : ℕ)
      → Call c (record_hash k source peer moment c).0
  recorded_all :
      {c : Catalog} (hashes : List Bytes) (source : Source) (moment : ℕ)
      → Call c (record_hashes hashes source moment c).0
  peers_added : {c : Catalog} (k : Bytes) (peers : List Peer) → Call c (add_peers k peers c).0
  lookups_claimed :
      {c : Catalog} (limit moment : ℕ) → Call c (hashes_needing_peers limit moment c).0
  lookup_released : {c : Catalog} (k : Bytes) → Call c (release_lookup_claim k c)
  lookup_ended :
      {c : Catalog} (k : Bytes) (peers : List Peer) (moment : ℕ)
      → Call c (add_lookup_result k peers moment c)
  fetches_claimed : {c : Catalog} (limit : ℕ) → Call c (next_fetch_candidates limit c).0
  metadata_stored :
      {c : Catalog} (metadata : Metadata) (moment : ℕ) → Call c (store_metadata metadata moment c).0
  fetch_failed :
      {c : Catalog} (k : Bytes) (tried : List Peer) (reason : Bytes) (moment : ℕ)
      → Call c (mark_fetch_failed k tried reason moment c).0
  fetch_released : {c : Catalog} (k : Bytes) → Call c (release_fetch_claim k c)
  tracking_enabled :
      {c : Catalog} (max_pending : ℕ) (check : Bool)
      → Call c (enable_index_tracking max_pending check c)
  documents_drained : {c : Catalog} (limit : ℕ) → Call c (drain_index_documents limit c).0
  counters_drained : {c : Catalog} (limit : ℕ) → Call c (drain_index_counters limit c).0
  documents_requeued : {c : Catalog} (l : List IndexSnapshot) → Call c (requeue_index_documents l c)
  counters_requeued : {c : Catalog} (l : List IndexSnapshot) → Call c (requeue_index_counters l c)
  counters_written : {c : Catalog} (l : List IndexSnapshot) → Call c (mark_counters_written l c)
  base_set : {c : Catalog} (k : Bytes) (base : IndexBase) → Call c (set_index_base k base c)
  index_written :
      {c : Catalog} (x : IndexSnapshot) (base : IndexBase) → Call c (mark_index_written x base c)
  check_switched : {c : Catalog} (enabled : Bool) → Call c (set_database_check enabled c)
  checks_applied :
      {c : Catalog} (hashes : List Bytes) (found : List (Bytes × IndexBase))
      → Call c (apply_database_checks hashes found c)
  base_reset : {c : Catalog} (k : Bytes) → Call c (reset_index_base k c)

-- A catalog after any calls, from an empty one.
pub data Reachable : Catalog → Type 0 where
  empty : (settings : Settings) → Reachable (new_catalog settings)
  next : {c c' : Catalog} → Reachable c → Call c c' → Reachable c'

Call-Consistent : {c c' : Catalog} → Call c c' → Consistent c → Consistent c'
Call-Consistent {c} (recorded k source peer moment) w =
    record_hash-Consistent k source peer moment c w
Call-Consistent {c} (recorded_all hashes source moment) w =
    record_hashes-Consistent hashes source moment c w
Call-Consistent {c} (peers_added k peers) w = add_peers-Consistent k peers c w
Call-Consistent {c} (lookups_claimed limit moment) w =
    hashes_needing_peers-Consistent limit moment c w
Call-Consistent {c} (lookup_released k) w = release_lookup_claim-Consistent k c w
Call-Consistent {c} (lookup_ended k peers moment) w =
    add_lookup_result-Consistent k peers moment c w
Call-Consistent {c} (fetches_claimed limit) w = next_fetch_candidates-Consistent limit c w
Call-Consistent {c} (metadata_stored metadata moment) w =
    store_metadata-Consistent metadata moment c w
Call-Consistent {c} (fetch_failed k tried reason moment) w =
    mark_fetch_failed-Consistent k tried reason moment c w
Call-Consistent {c} (fetch_released k) w = release_fetch_claim-Consistent k c w
Call-Consistent {c} (tracking_enabled n check) w = (enable_index_tracking-Keeps n check c).still w
Call-Consistent {c} (documents_drained limit) w = (drain_index_documents-Keeps limit c).still w
Call-Consistent {c} (counters_drained limit) w = (drain_index_counters-Keeps limit c).still w
Call-Consistent {c} (documents_requeued l) w = (requeue_index_documents-Keeps l c).still w
Call-Consistent {c} (counters_requeued l) w = (requeue_index_counters-Keeps l c).still w
Call-Consistent {c} (counters_written l) w = (mark_counters_written-Keeps l c).still w
Call-Consistent {c} (base_set k base) w = set_index_base-Consistent k base c w
Call-Consistent {c} (index_written x base) w = (mark_index_written-Keeps x base c).still w
Call-Consistent {c} (check_switched enabled) w = set_database_check-Consistent enabled c w
Call-Consistent {c} (checks_applied hashes found) w =
    apply_database_checks-Consistent hashes found c w
Call-Consistent {c} (base_reset k) w = reset_index_base-Consistent k c w

empty-Consistent : (settings : Settings) → Consistent (new_catalog settings)
unfolding new_catalog tally
empty-Consistent settings = record {
  store_ok = record { distinct = tt; named = tt; below = tt; counted = λ t. refl };
  fetch_ok = tt;
  lookup_ok = tt;
  check_ok = tt;
}

-- After any calls of the public methods, in any order: each hash has one entry, which bears it; the
-- count of every fetch state is the number of entries in it; and what the indexes of work list for
-- fetches, lookups and database checks are entries of the catalog.
pub Reachable-Consistent : {c : Catalog} → Reachable c → Consistent c
Reachable-Consistent (empty settings) = empty-Consistent settings
Reachable-Consistent (next r step) = Call-Consistent step (Reachable-Consistent r)

one_state :
    (s : FetchState)
    → (if is_state pending s then 1 else 0)
        + (if is_state in_progress s then 1 else 0)
        + (if is_state done s then 1 else 0)
        + (if is_state failed s then 1 else 0)
      ≡ 1
unfolding is_state
one_state pending = refl
one_state in_progress = refl
one_state done = refl
one_state failed = refl

tally_total :
    (heap : Heap) (m : Objects)
    → tally (in_state pending) heap m
        + tally (in_state in_progress) heap m
        + tally (in_state done) heap m
        + tally (in_state failed) heap m
      ≡ length m
unfolding tally in_state
tally_total heap [] = refl
tally_total heap ((k, o) ∷ m) = omega (arith, tally_total heap m, one_state (heap o).fetch_state)

-- After any calls of the public methods, in any order, the counts of the four fetch states add up to
-- the number of entries.
pub Reachable-state_counts :
    {c : Catalog}
    → Reachable c
    → let n = c.store.state_counts in
      n pending + n in_progress + n done + n failed ≡ length c.store.entries
Reachable-state_counts {c} r =
    let w = (Reachable-Consistent r).store_ok in
    omega (
      arith,
      tally_total c.store.heap c.store.entries,
      w.counted pending,
      w.counted in_progress,
      w.counted done,
      w.counted failed,
    )
