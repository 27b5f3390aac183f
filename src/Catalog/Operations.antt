-- ===== src/Catalog/Operations.antt =====
-- The public methods of TorrentCatalog that sightings, lookups and fetches call.
use lif.Common.{
  ℕ, suc, ◌+◌, ◌-◌, ◌*◌, List, [], ◌∷◌, ◌++◌, Bool, true, false, not, ◌&&◌, ◌||◌, Option, none,
  some, Bytes, ltb, leb, length, take, map, max, if◌then◌else◌, byte_string_eq,
}
use lif.RecentMap.{without}
use lif.Catalog.Entries.{
  Peer, Metadata, FetchState, pending, in_progress, done, failed, is_state, Source,
  from_announce_peer, no_error, no_peers, fetch_error, TorrentEntry, any_peers, is_some, rank_key,
  tuple_leq,
}
use lif.Catalog.Store.{Objects, Heap, assign, setdefault}
use lif.Catalog.State.{
  Catalog, entry_at, object_of, change_entry, move_to, peers_or_empty, add_peer, forget_peers,
  index_entry, forget_known, queue_document, get_or_create,
}
use lif.Catalog.Eviction.{sorted, select, evict}

unfoldable pub add_known_peers : ℕ → List Peer → Catalog → Catalog × ℕ
add_known_peers object [] c = (c, 0)
add_known_peers object (peer ∷ peers) c =
    let (more, is_new) = add_peer object peer c in
    let (all, added) = add_known_peers object peers more in (all, (if is_new then 1 else 0) + added)

abbrev is_announce : Source → Bool
is_announce from_announce_peer = true
is_announce _ = false

-- A torrent whose metadata is known needs no peers.
unfoldable pub add_sender : ℕ → Option Peer → Catalog → Catalog
add_sender object none c = c
add_sender object (some peer) c =
    if is_state (entry_at object c).fetch_state done then c else (add_peer object peer c).0

unfoldable pub count_sighting : ℕ → Source → ℕ → Catalog → Catalog
count_sighting object source moment c =
    change_entry object
      (λ e. record e {
        seen_count = suc e.seen_count;
        last_seen = max e.last_seen moment;
        announce_count = (if is_announce source then suc e.announce_count else e.announce_count);
      })
      c

-- self._needs_lookup.pop(info_hash, None): the hash goes to the end of the index if it is listed again.
unfoldable pub unlist_lookup : ℕ → Catalog → Catalog
unlist_lookup object c = record c {
  needs_lookup = without (entry_at object c).info_hash c.needs_lookup;
}

unfoldable pub track_counters : ℕ → Catalog → Catalog
track_counters object c =
    let e = entry_at object c in
    if c.index_tracking && (is_some e.metadata || e.in_database)
    then record c { index_counters = setdefault e.info_hash object c.index_counters }
    else c

unfoldable pub count_observation : Catalog → Catalog
count_observation c = record c { observations = suc c.observations }

-- `_record_locked` up to the eviction, for an object that is there.
unfoldable pub record_sighting : ℕ → Source → Option Peer → ℕ → Catalog → Catalog
record_sighting object source peer moment c = count_observation (
    track_counters object (
      index_entry object
        (unlist_lookup object (add_sender object peer (count_sighting object source moment c)))))

unfoldable pub evict_if_full : Catalog → Catalog
evict_if_full c = if ltb c.settings.max_entries (length c.store.entries) then evict c else c

unfoldable pub record_hash : Bytes → Source → Option Peer → ℕ → Catalog → Catalog × Bool
record_hash info_hash source peer moment c =
    let (object, created, there) = get_or_create info_hash moment c in
    (evict_if_full (record_sighting object source peer moment there), created)

unfoldable pub record_hashes : List Bytes → Source → ℕ → Catalog → Catalog × ℕ
record_hashes [] source moment c = (c, 0)
record_hashes (info_hash ∷ hashes) source moment c =
    let (one, created) = record_hash info_hash source none moment c in
    let (all, count) = record_hashes hashes source moment one in
    (all, (if created then 1 else 0) + count)

unfoldable pub add_peers : Bytes → List Peer → Catalog → Catalog × ℕ
add_peers info_hash peers c = elim (object_of info_hash c) [
  | none ↦ (c, 0)
  | some object ↦
      let (more, added) = add_known_peers object peers c in (index_entry object more, added)
]

-- entry.next_lookup_time <= moment
abbrev pub is_due : ℕ → TorrentEntry → Bool
is_due moment e = leb e.next_lookup_time moment

unfoldable pub reverse_objects : Objects → Objects
reverse_objects [] = []
reverse_objects (x ∷ m) = reverse_objects m ++ x ∷ []

unfoldable pub claim_lookups : Objects → Catalog → Catalog
claim_lookups [] c = c
claim_lookups ((key, object) ∷ chosen) c = claim_lookups chosen (
    index_entry object (
      change_entry object (λ e. record e { lookup_in_progress = true })
        (record c { lookups_in_progress = suc c.lookups_in_progress })))

abbrev pub hashes_of : Heap → Objects → List Bytes
hashes_of heap m = map (λ x. (heap x.1).info_hash) m

unfoldable pub hashes_needing_peers : ℕ → ℕ → Catalog → Catalog × List Bytes
hashes_needing_peers limit moment c =
    let chosen =
      take limit (select (is_due moment) c.store.heap (reverse_objects c.needs_lookup)) in
    (claim_lookups chosen c, hashes_of c.store.heap chosen)

-- The end of a lookup, if one was in progress.
unfoldable pub end_lookup : ℕ → Catalog → Catalog
end_lookup object c =
    if (entry_at object c).lookup_in_progress
    then change_entry object (λ e. record e { lookup_in_progress = false })
        (record c { lookups_in_progress = c.lookups_in_progress - 1 })
    else c

unfoldable pub release_lookup_claim : Bytes → Catalog → Catalog
release_lookup_claim info_hash c = elim (object_of info_hash c) [
  | none ↦ c
  | some object ↦
      if (entry_at object c).lookup_in_progress then index_entry object (end_lookup object c) else c
]

-- The entry after a lookup that found no peer for it.
unfoldable pub retry_lookup : ℕ → ℕ → Catalog → Catalog
retry_lookup object moment c =
    let later =
      change_entry object
        (λ e. record e { next_lookup_time = moment + c.settings.lookup_retry * e.lookups_started })
        c in
    let e = entry_at object later in
    if leb c.settings.max_lookups e.lookups_started && is_state e.fetch_state pending
    then move_to failed object (change_entry object (λ e. record e { last_error = no_peers }) later)
    else later

unfoldable pub add_lookup_result : Bytes → List Peer → ℕ → Catalog → Catalog
add_lookup_result info_hash peers moment c = elim (object_of info_hash c) [
  | none ↦ c
  | some object ↦
      let ended =
        change_entry object (λ e. record e { lookups_started = suc e.lookups_started })
          (end_lookup object c) in
      let met = (add_known_peers object peers ended).0 in
      index_entry object
        (if any_peers (entry_at object met).peers then met else retry_lookup object moment met)
]

-- Each candidate is claimed for the fetch engine.
unfoldable pub claim_fetches : Objects → Catalog → Catalog × List (Bytes × List (Peer × Unit {0}))
claim_fetches [] c = (c, [])
claim_fetches ((key, object) ∷ chosen) c =
    let claimed = index_entry object (move_to in_progress object c) in
    let e = entry_at object claimed in
    let (all, candidates) = claim_fetches chosen claimed in
    (all, (e.info_hash, peers_or_empty e.peers) ∷ candidates)

-- heapq.nlargest is sorted with the largest first, stable.
unfoldable pub next_fetch_candidates : ℕ → Catalog → Catalog × List (Bytes × List (Peer × Unit {0}))
next_fetch_candidates limit c =
    claim_fetches
      (take limit (
        sorted (λ i j. tuple_leq (rank_key (c.store.heap j)) (rank_key (c.store.heap i)))
          c.fetchable))
      c

unfoldable pub count_metadata : ℕ → Metadata → Catalog → Catalog
count_metadata object metadata c =
    let e = entry_at object c in
    if not (is_state e.fetch_state done) || e.known_from_database
    then record c { metadata_bytes = c.metadata_bytes + metadata.total_size }
    else c

unfoldable pub list_fetched : ℕ → Catalog → Catalog
list_fetched object c = record c { fetched = assign (entry_at object c).info_hash object c.fetched }

unfoldable pub queue_if_tracking : ℕ → Catalog → Catalog
queue_if_tracking object c = if c.index_tracking then queue_document object c else c

-- `store_metadata` for an object that is there.
unfoldable pub store_at : ℕ → Metadata → Catalog → Catalog
store_at object metadata c = queue_if_tracking object (
    index_entry object (
      list_fetched object (
        move_to done object (
          change_entry object (λ e. record e { metadata = some metadata; last_error = no_error })
            (forget_known object (count_metadata object metadata c))))))

unfoldable pub store_metadata : Metadata → ℕ → Catalog → Catalog × Bool
store_metadata metadata moment c =
    let (object, created, there) = get_or_create metadata.info_hash moment c in
    (store_at object metadata there, created)

-- Where a failed fetch leaves the entry.
unfoldable pub after_failure : ℕ → ℕ → Catalog → Catalog
after_failure object moment c =
    let e = entry_at object c in
    if leb c.settings.max_fetch_attempts e.fetch_attempts
    then move_to failed object c
    else if not (any_peers e.peers)
        && leb c.settings.max_lookups e.lookups_started
        && not e.lookup_in_progress
    then move_to failed object (change_entry object (λ e. record e { last_error = no_peers }) c)
    else if any_peers e.peers
    then move_to pending object c
    else change_entry object (λ e. record e { next_lookup_time = moment })
        (move_to pending object c)

-- Without `_assert_invariants_locked` at its end, which refuses to fail a torrent that was fetched and
-- whose metadata is there.
unfoldable pub mark_fetch_failed : Bytes → List Peer → Bytes → ℕ → Catalog → Catalog × FetchState
mark_fetch_failed info_hash tried reason moment c = elim (object_of info_hash c) [
  | none ↦ (c, failed)
  | some object ↦
      let noted =
        change_entry object
          (λ e. record (forget_peers tried e) {
            fetch_attempts = suc e.fetch_attempts;
            last_error = fetch_error reason;
          })
          c in
      let settled = index_entry object (after_failure object moment noted) in
      (settled, (entry_at object settled).fetch_state)
]

unfoldable pub release_fetch_claim : Bytes → Catalog → Catalog
release_fetch_claim info_hash c = elim (object_of info_hash c) [
  | none ↦ c
  | some object ↦
      if is_state (entry_at object c).fetch_state in_progress
      then index_entry object (move_to pending object c)
      else c
]
