-- ===== src/Catalog/Indexing.antt =====
-- The public methods of TorrentCatalog that the search indexer calls: the queues of documents and
-- counters, what was written, and the checks against the database.
use lif.Common.{
  ℕ, zero, suc, ◌+◌, ◌-◌, List, [], ◌∷◌, ◌++◌, Bool, true, false, not, ◌&&◌, ◌||◌, Option, none,
  some, Bytes, ltb, ◌==◌, length, take, map, if◌then◌else◌, byte_string_eq,
}
use lif.RecentMap.{find, contains, without}
use lif.Catalog.Entries.{Metadata, pending, done, is_state, IndexBase, TorrentEntry, is_some}
use lif.Catalog.Store.{Objects, setdefault}
use lif.Catalog.State.{
  Catalog, entry_at, object_of, change_entry, move_to, index_entry, add_orphan, forget_known,
  queue_document, release_metadata,
}

-- IndexSnapshot: a copy of the counters, and the object they were copied from.
pub record IndexSnapshot : Type 0 where
  pub info_hash : Bytes
  pub metadata : Option Metadata
  pub seen_count : ℕ
  pub announce_count : ℕ
  pub first_seen : ℕ
  pub last_seen : ℕ
  pub index_base : Option IndexBase
  pub object : ℕ
  pub seen_delta : ℕ
  pub announce_delta : ℕ

unfoldable pub index_snapshot : ℕ → Catalog → IndexSnapshot
index_snapshot object c =
    let e = entry_at object c in
    record {
      info_hash = e.info_hash;
      metadata = e.metadata;
      seen_count = e.seen_count;
      announce_count = e.announce_count;
      first_seen = e.first_seen;
      last_seen = e.last_seen;
      index_base = e.index_base;
      object = object;
      seen_delta = e.seen_count - e.flushed_seen;
      announce_delta = e.announce_count - e.flushed_announce;
    }

unfoldable pub enable_index_tracking : ℕ → Bool → Catalog → Catalog
enable_index_tracking max_pending check_database c = record c {
  index_tracking = true;
  index_max_pending = max_pending;
  check_database = check_database;
}

-- Takes the first documents of the queue, `limit` at most.
unfoldable pub drain_index_documents : ℕ → Catalog → Catalog × List IndexSnapshot
unfolding index_snapshot
drain_index_documents limit c = (
  record c { index_documents = rest limit c.index_documents },
  map (λ x. index_snapshot x.1 c) (take limit c.index_documents),
)
  where
    rest : ℕ → Objects → Objects
    rest zero m = m
    rest (suc n) [] = []
    rest (suc n) (x ∷ m) = rest n m

-- Has the entry sightings that were not written?
unfoldable pub has_unwritten : TorrentEntry → Bool
has_unwritten e = ltb e.flushed_seen e.seen_count || ltb e.flushed_announce e.announce_count

-- while self._orphan_counters and len(result) < limit: each round takes one out.
unfoldable pub drain_orphans : List ℕ → ℕ → Catalog → Catalog × List IndexSnapshot
unfolding index_snapshot
drain_orphans [] limit c = (record c { orphan_counters = [] }, [])
drain_orphans (object ∷ orphans) zero c = (record c { orphan_counters = object ∷ orphans }, [])
drain_orphans (object ∷ orphans) (suc limit) c =
    let snapshot = index_snapshot object c in
    let (used, more) = drain_orphans orphans limit c in
    let skipped = drain_orphans orphans (suc limit) c in
    if (snapshot.seen_delta == 0) && (snapshot.announce_delta == 0)
    then skipped
    else (used, snapshot ∷ more)

-- What a round does with the object that it takes out: sent in full, sent as counts, nothing to send.
pub data Round : Type 0 where
  queue_empty in_full as_counts nothing : Round

unfoldable pub round_for : Objects → Catalog → Round
unfolding has_unwritten
round_for [] c = queue_empty
round_for (first ∷ rest) c =
    let e = entry_at first.1 c in
    if not (is_some e.index_base)
    then if is_some e.metadata then in_full else nothing
    else if has_unwritten e
    then as_counts
    else nothing

abbrev pub first_object : Objects → ℕ
first_object [] = 0
first_object (first ∷ rest) = first.1

abbrev all_but_first : Objects → Objects
all_but_first [] = []
all_but_first (first ∷ rest) = rest

unfoldable pub take_counters : Catalog → Catalog
take_counters c = record c { index_counters = all_but_first c.index_counters }

-- while self._index_counters and len(result) < limit: each round takes one out, which is what the fuel
-- counts.
unfoldable pub drain_counters : ℕ → ℕ → Catalog → Catalog × List IndexSnapshot
drain_counters zero limit c = (c, [])
drain_counters (suc fuel) zero c = (c, [])
drain_counters (suc fuel) (suc limit) c =
    let object = first_object c.index_counters in
    let (used, more) = drain_counters fuel limit (take_counters c) in
    let skipped = drain_counters fuel (suc limit) (take_counters c) in
    let queued = drain_counters fuel (suc limit) (queue_document object (take_counters c)) in
    elim (round_for c.index_counters c) [
      | queue_empty ↦ (c, [])
      | in_full ↦ queued
      | as_counts ↦ (used, index_snapshot object c ∷ more)
      | nothing ↦ skipped
    ]

unfoldable pub drain_index_counters : ℕ → Catalog → Catalog × List IndexSnapshot
drain_index_counters limit c =
    let (without_orphans, orphans) = drain_orphans c.orphan_counters limit c in
    let (drained, counters) =
      drain_counters (length c.index_counters) (limit - length orphans) without_orphans in
    (drained, orphans ++ counters)

-- for snapshot in reversed(snapshots): the last one is put in front first.
unfoldable pub requeue_index_documents : List IndexSnapshot → Catalog → Catalog
requeue_index_documents [] c = c
requeue_index_documents (snapshot ∷ snapshots) c =
    let later = requeue_index_documents snapshots c in
    if contains snapshot.info_hash later.index_documents then later else record later {
      index_documents = (snapshot.info_hash, snapshot.object) ∷ later.index_documents;
    }

-- self._entries.get(snapshot.info_hash) is snapshot.entry
unfoldable pub is_entry_of : IndexSnapshot → Catalog → Bool
is_entry_of snapshot c = elim (object_of snapshot.info_hash c) [
  | none ↦ false
  | some o ↦ o == snapshot.object
]

unfoldable pub requeue_index_counters : List IndexSnapshot → Catalog → Catalog
requeue_index_counters [] c = c
requeue_index_counters (snapshot ∷ snapshots) c = requeue_index_counters snapshots (
    if is_entry_of snapshot c
    then record c {
      index_counters = setdefault snapshot.info_hash snapshot.object c.index_counters;
    }
    else add_orphan snapshot.object c)

-- The counts that a snapshot carried are written, whether its entry is still in the catalog or not.
unfoldable pub add_flushed : IndexSnapshot → Catalog → Catalog
add_flushed snapshot c =
    change_entry snapshot.object
      (λ e. record e {
        flushed_seen = e.flushed_seen + snapshot.seen_delta;
        flushed_announce = e.flushed_announce + snapshot.announce_delta;
      })
      c

unfoldable pub mark_counters_written : List IndexSnapshot → Catalog → Catalog
mark_counters_written [] c = c
mark_counters_written (snapshot ∷ snapshots) c =
    mark_counters_written snapshots (add_flushed snapshot c)

unfoldable pub set_index_base : Bytes → IndexBase → Catalog → Catalog
set_index_base info_hash base c = elim (object_of info_hash c) [
  | none ↦ c
  | some object ↦ change_entry object (λ e. record e { index_base = some base }) c
]

-- entry.metadata is snapshot.metadata, for a snapshot that has metadata.
unfoldable pub same_metadata : Option Metadata → Option Metadata → Bool
same_metadata none b = false
same_metadata (some a) none = false
same_metadata (some a) (some b) = a.reference == b.reference

unfoldable pub mark_index_written : IndexSnapshot → IndexBase → Catalog → Catalog
mark_index_written snapshot base c =
    let flushed = add_flushed snapshot c in
    let object = snapshot.object in
    let based = change_entry object (λ e. record e { index_base = some base }) flushed in
    let e = entry_at object based in
    let taken =
      (if contains e.info_hash based.index_documents
        then record based {
          index_documents = without e.info_hash based.index_documents;
          index_counters = setdefault e.info_hash object based.index_counters;
        }
        else based) in
    if is_entry_of snapshot flushed
    then if same_metadata e.metadata snapshot.metadata then release_metadata object taken else based
    else flushed

unfoldable pub check_all : Objects → Catalog → Catalog
check_all [] c = c
check_all ((key, object) ∷ m) c =
    check_all m
      (index_entry object (change_entry object (λ e. record e { database_checked = true }) c))

unfoldable pub set_database_check : Bool → Catalog → Catalog
set_database_check enabled c =
    let switched = record c { check_database = enabled } in
    if enabled then switched else check_all c.needs_check switched

unfoldable pub pending_database_checks : ℕ → Catalog → List Bytes
pending_database_checks limit c = map (λ x. x.0) (take limit c.needs_check)

-- The entry of a pending torrent that the database has: nothing is left to fetch.
unfoldable pub know_from_database : ℕ → IndexBase → Catalog → Catalog
know_from_database object base c = move_to done object (
    change_entry object
      (λ e. record e {
        index_base = some base;
        in_database = true;
        peers = none;
        failed_peers = none;
        known_from_database = true;
      })
      (record c { known_done = suc c.known_done }))

unfoldable pub count_if_tracking : ℕ → Catalog → Catalog
count_if_tracking object c =
    if c.index_tracking
    then record c {
      index_counters = setdefault (entry_at object c).info_hash object c.index_counters;
    }
    else c

unfoldable pub adopt_from_database : ℕ → IndexBase → Catalog → Catalog
adopt_from_database object base c = count_if_tracking object (know_from_database object base c)

unfoldable pub apply_check : ℕ → Option IndexBase → Catalog → Catalog
apply_check object none c = index_entry object c
apply_check object (some base) c = index_entry object (
    if is_state (entry_at object c).fetch_state pending
    then adopt_from_database object base c
    else c)

-- One hash of `apply_database_checks`.
unfoldable pub apply_database_check : Bytes → List (Bytes × IndexBase) → Catalog → Catalog
apply_database_check info_hash found c =
    let popped = record c { needs_check = without info_hash c.needs_check } in
    elim (find info_hash c.needs_check) [
      | none ↦ popped
      | some object ↦
          let checked = change_entry object (λ e. record e { database_checked = true }) popped in
          if (entry_at object c).database_checked
          then popped
          else apply_check object (find info_hash found) checked
    ]

unfoldable pub apply_database_checks : List Bytes → List (Bytes × IndexBase) → Catalog → Catalog
apply_database_checks [] found c = c
apply_database_checks (info_hash ∷ hashes) found c =
    apply_database_checks hashes found (apply_database_check info_hash found c)

unfoldable pub reset_counts : Bytes → ℕ → Catalog → Catalog
reset_counts info_hash object c =
    change_entry object
      (λ e. record e { index_base = none; flushed_seen = 0; flushed_announce = 0 })
      (record c { index_counters = without info_hash c.index_counters })

unfoldable pub fetch_again : ℕ → Catalog → Catalog
fetch_again object c =
    let missing =
      forget_known object
        (change_entry object (λ e. record e { in_database = false; database_checked = true }) c) in
    index_entry object (
      if is_state (entry_at object missing).fetch_state done
      then move_to pending object missing
      else missing)

-- The index lost the entry: its document is sent again, or its metadata is fetched again.
unfoldable pub reset_index_base : Bytes → Catalog → Catalog
reset_index_base info_hash c = elim (object_of info_hash c) [
  | none ↦ c
  | some object ↦
      let reset = reset_counts info_hash object c in
      let e = entry_at object reset in
      if is_some e.metadata
      then queue_document object reset
      else if e.in_database
      then fetch_again object reset
      else reset
]
