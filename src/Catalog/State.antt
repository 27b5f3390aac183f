-- ===== src/Catalog/State.antt =====
-- TorrentCatalog: its fields, and the helpers that its public methods share (`_add_peer_locked`,
-- `_forget_peer_locked`, `_index_entry_locked`, `_queue_document_locked` and so on). The lock is held
-- through every public method, so a method is one step on this state.
use lif.Common.{
  ℕ, suc, ◌-◌, List, [], ◌∷◌, ◌++◌, Bool, true, false, not, ◌&&◌, ◌||◌, Option, none, some, Bytes,
  ltb, ◌==◌, length, if◌then◌else◌, byte_string_eq, nat_eq, pair_eq,
}
use lif.RecentMap.{find, contains, without, remember}
use lif.Catalog.Entries.{
  Peer, Metadata, FetchState, pending, done, is_state, TorrentEntry, new_entry, any_peers, is_some,
}
use lif.Catalog.Store.{Objects, setdefault, assign, Store, modify, set_state, create}

pub record Settings : Type 0 where
  pub max_entries : ℕ
  pub max_peers_per_hash : ℕ
  pub max_fetch_attempts : ℕ
  pub max_lookups : ℕ
  pub lookup_retry : ℕ

abbrev pub max_orphan_counters : ℕ
max_orphan_counters = 100_000

abbrev pub max_index_pending : ℕ
max_index_pending = 100_000

pub record Catalog : Type 0 where
  pub settings : Settings
  pub store : Store
  pub fetched : Objects
  pub fetchable : Objects
  pub needs_lookup : Objects
  pub needs_check : Objects
  pub observations : ℕ
  pub discovered : ℕ
  pub evicted : ℕ
  pub lookups_in_progress : ℕ
  pub index_tracking : Bool
  pub index_max_pending : ℕ
  pub index_documents : Objects
  pub index_counters : Objects
  pub orphan_counters : List ℕ
  pub index_dropped : ℕ
  pub check_database : Bool
  pub metadata_bytes : ℕ
  pub known_done : ℕ

unfoldable pub new_catalog : Settings → Catalog
new_catalog settings = record {
  settings = settings;
  store = record {
    heap = λ object. new_entry [] 0;
    allocated = 0;
    entries = [];
    state_counts = λ state. 0;
  };
  fetched = [];
  fetchable = [];
  needs_lookup = [];
  needs_check = [];
  observations = 0;
  discovered = 0;
  evicted = 0;
  lookups_in_progress = 0;
  index_tracking = false;
  index_max_pending = max_index_pending;
  index_documents = [];
  index_counters = [];
  orphan_counters = [];
  index_dropped = 0;
  check_database = false;
  metadata_bytes = 0;
  known_done = 0;
}

abbrev pub entry_at : ℕ → Catalog → TorrentEntry
entry_at object c = c.store.heap object

-- self._entries.get(info_hash)
abbrev pub object_of : Bytes → Catalog → Option ℕ
object_of info_hash c = find info_hash c.store.entries

unfoldable pub change_entry : ℕ → (TorrentEntry → TorrentEntry) → Catalog → Catalog
unfolding modify
change_entry object change c = record c { store = modify object change c.store }

unfoldable pub move_to : FetchState → ℕ → Catalog → Catalog
move_to state object c = record c { store = set_state state object c.store }

abbrev pub peers_or_empty : Option (List (Peer × Unit {0})) → List (Peer × Unit {0})
peers_or_empty none = []
peers_or_empty (some peers) = peers

unfoldable pub member : Peer → List Peer → Bool
member p [] = false
member p (q ∷ qs) = (pair_eq ⦃f = nat_eq⦄).beq p q || member p qs

abbrev pub set_or_empty : Option (List Peer) → List Peer
set_or_empty none = []
set_or_empty (some peers) = peers

-- The catalog, and whether the peer is new.
unfoldable pub add_peer : ℕ → Peer → Catalog → Catalog × Bool
add_peer object peer c =
    let entry = entry_at object c in
    let (peers, is_new) =
      remember (peers_or_empty entry.peers) peer tt c.settings.max_peers_per_hash in
    if member peer (set_or_empty entry.failed_peers)
    then (c, false)
    else (change_entry object (λ e. record e { peers = some peers }) c, is_new)

unfoldable pub forget_peer : Peer → TorrentEntry → TorrentEntry
forget_peer peer entry =
    let tried = set_or_empty entry.failed_peers in
    record entry {
      peers = elim entry.peers [ none ↦ none | some peers ↦ some (without peer peers) ];
      failed_peers = some (if member peer tried then tried else peer ∷ tried);
    }

unfoldable pub forget_peers : List Peer → TorrentEntry → TorrentEntry
forget_peers [] entry = entry
forget_peers (peer ∷ tried) entry = forget_peers tried (forget_peer peer entry)

-- Where an entry belongs: among those to check against the database, to fetch, and to look up.
unfoldable pub wants_check : TorrentEntry → Bool
wants_check e = is_state e.fetch_state pending && not e.database_checked

unfoldable pub wants_fetch : TorrentEntry → Bool
wants_fetch e = is_state e.fetch_state pending && e.database_checked && any_peers e.peers

unfoldable pub wants_lookup : ℕ → TorrentEntry → Bool
wants_lookup max_lookups e =
    is_state e.fetch_state pending
    && e.database_checked
    && not (any_peers e.peers)
    && not e.lookup_in_progress
    && ltb e.lookups_started max_lookups

unfoldable pub index_entry : ℕ → Catalog → Catalog
index_entry object c =
    let e = entry_at object c in
    let key = e.info_hash in
    record c {
      needs_check =
          if wants_check e then setdefault key object c.needs_check else without key c.needs_check;
      fetchable = if wants_fetch e then assign key object c.fetchable else without key c.fetchable;
      needs_lookup =
          if wants_lookup c.settings.max_lookups e
          then setdefault key object c.needs_lookup
          else without key c.needs_lookup;
    }

unfoldable pub add_orphan : ℕ → Catalog → Catalog
add_orphan object c =
    let queue = c.orphan_counters ++ object ∷ [] in
    if ltb max_orphan_counters (length queue)
    then record c {
      orphan_counters = elim queue [ [] ↦ [] | oldest ∷ rest ↦ rest ];
      index_dropped = suc c.index_dropped;
    }
    else record c { orphan_counters = queue }

unfoldable pub forget_known : ℕ → Catalog → Catalog
forget_known object c =
    if (entry_at object c).known_from_database
    then change_entry object (λ e. record e { known_from_database = false })
        (record c { known_done = c.known_done - 1 })
    else c

-- self._entries.get(entry.info_hash) is entry
unfoldable pub is_current : ℕ → Catalog → Bool
is_current object c = elim (object_of (entry_at object c).info_hash c) [
  | none ↦ false
  | some o ↦ o == object
]

abbrev pub size_of : Option Metadata → ℕ
size_of none = 0
size_of (some metadata) = metadata.total_size

unfoldable pub drop_unwritten_metadata : ℕ → Catalog → Catalog
drop_unwritten_metadata object c =
    let e = entry_at object c in
    let dropped =
      change_entry object (λ e. record e { metadata = none; database_checked = true })
        (record c {
          metadata_bytes = c.metadata_bytes - size_of e.metadata;
          fetched = without e.info_hash c.fetched;
        }) in
    if is_current object c && is_some e.metadata && is_state e.fetch_state done
    then index_entry object (move_to pending object dropped)
    else c

-- The document queue forgets its oldest entry when it is over its bound.
unfoldable pub queue_document : ℕ → Catalog → Catalog
queue_document object c =
    let key = (entry_at object c).info_hash in
    let queue = c.index_documents ++ (key, object) ∷ [] in
    let cleared = record c { index_counters = without key c.index_counters } in
    if contains key c.index_documents
    then cleared
    else if ltb c.index_max_pending (length queue)
    then elim queue [
      | [] ↦ cleared
      | oldest ∷ rest ↦
          drop_unwritten_metadata oldest.1
            (record cleared { index_documents = rest; index_dropped = suc c.index_dropped })
    ]
    else record cleared { index_documents = queue }

unfoldable pub release_metadata : ℕ → Catalog → Catalog
release_metadata object c =
    change_entry object
      (λ e. record e { metadata = none; in_database = true; peers = none; failed_peers = none })
      (record c { fetched = without (entry_at object c).info_hash c.fetched })

-- The object of a hash, whether it is new, and the catalog that has it.
unfoldable pub get_or_create : Bytes → ℕ → Catalog → ℕ × Bool × Catalog
get_or_create info_hash now c = elim (object_of info_hash c) [
  | some object ↦ (object, false, c)
  | none ↦ (
    c.store.allocated,
    true,
    record c {
      store = create info_hash now (not c.check_database) c.store;
      discovered = suc c.discovered;
    },
  )
]
