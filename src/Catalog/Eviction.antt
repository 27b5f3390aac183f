-- ===== src/Catalog/Eviction.antt =====
-- `_evict_locked`: which entries leave a full catalog, and what is forgotten with them.
use lif.Common.{
  ℕ, ◌+◌, ◌-◌, ◌/◌, [], ◌∷◌, ◌++◌, Bool, not, ◌&&◌, ◌||◌, Bytes, ltb, leb, length, take, max,
  if◌then◌else◌, byte_string_eq,
}
use lif.RecentMap.{contains, without}
use lif.Catalog.Entries.{
  done, is_state, TorrentEntry, any_peers, is_some, is_evictable, eviction_key, tuple_leq,
}
use lif.Catalog.Store.{Objects, Heap, Store, less_one}
use lif.Catalog.State.{Settings, Catalog, entry_at, size_of, add_orphan, forget_known}

-- sorted(...), stable, and heapq.nsmallest / heapq.nlargest, which are its documented equivalents.
module _ (before : ℕ → ℕ → Bool) where
  unfoldable pub insert : Bytes × ℕ → Objects → Objects
  insert x [] = x ∷ []
  insert x (y ∷ ys) = let rest = insert x ys in if before x.1 y.1 then x ∷ y ∷ ys else y ∷ rest

  unfoldable pub sorted : Objects → Objects
  sorted [] = []
  sorted (x ∷ xs) = insert x (sorted xs)

abbrev pub eviction_divisor : ℕ
eviction_divisor = 20

-- max(1, self.max_entries // EVICTION_DIVISOR)
unfoldable pub victims_wanted : Settings → ℕ
victims_wanted s = max 1 (s.max_entries / eviction_divisor)

unfoldable pub is_worthless : TorrentEntry → Bool
is_worthless e =
    not (is_some e.metadata) && leb e.seen_count 1 && not (any_peers e.peers) && is_evictable e

-- The entries that pass the test.
unfoldable pub select : (TorrentEntry → Bool) → Heap → Objects → Objects
select test heap [] = []
select test heap ((k, o) ∷ m) =
    let rest = select test heap m in if test (heap o) then (k, o) ∷ rest else rest

-- [entry for entry in entries if entry.info_hash not in taken]
unfoldable pub except : Objects → Objects → Objects
except taken [] = []
except taken ((k, o) ∷ m) =
    let rest = except taken m in if contains k taken then rest else (k, o) ∷ rest

-- The first loop stops at `wanted` victims; the rest are the smallest by the eviction key.
unfoldable pub choose_victims : ℕ → Heap → Objects → Objects
choose_victims wanted heap entries =
    let worthless = take wanted (select is_worthless heap entries) in
    let remaining = except worthless (select is_evictable heap entries) in
    worthless
    ++ take (wanted - length worthless)
        (sorted (λ i j. tuple_leq (eviction_key (heap i)) (eviction_key (heap j))) remaining)

-- Forgets one entry.
unfoldable pub remove_from_store : Bytes → ℕ → Store → Store
remove_from_store key object s = record s {
  entries = without key s.entries;
  state_counts = less_one (s.heap object).fetch_state s.state_counts;
}

unfoldable pub unlist : Bytes → Catalog → Catalog
unlist key c = record c {
  fetched = without key c.fetched;
  fetchable = without key c.fetchable;
  needs_lookup = without key c.needs_lookup;
  needs_check = without key c.needs_check;
  index_counters = without key c.index_counters;
}

-- Counts that were not written yet outlive the entry.
unfoldable pub save_counters : ℕ → Catalog → Catalog
save_counters object c =
    let e = entry_at object c in
    if is_some e.index_base
      && (ltb e.flushed_seen e.seen_count || ltb e.flushed_announce e.announce_count)
    then add_orphan object c
    else c

unfoldable pub uncount_metadata : ℕ → Catalog → Catalog
uncount_metadata object c =
    let e = entry_at object c in
    if is_state e.fetch_state done && is_some e.metadata
    then record c { metadata_bytes = c.metadata_bytes - size_of e.metadata }
    else c

-- What the rest of the catalog forgets of one entry.
unfoldable pub forget_entry : Bytes → ℕ → Catalog → Catalog
forget_entry key object c =
    forget_known object (uncount_metadata object (save_counters object (unlist key c)))

unfoldable pub remove_entry : Bytes → ℕ → Catalog → Catalog
remove_entry key object c = record c { store = remove_from_store key object c.store }

unfoldable pub remove_victim : Bytes → ℕ → Catalog → Catalog
remove_victim key object c = remove_entry key object (forget_entry key object c)

unfoldable pub remove_victims : Objects → Catalog → Catalog
remove_victims [] c = c
remove_victims ((key, object) ∷ victims) c = remove_victims victims (remove_victim key object c)

unfoldable pub count_evicted : ℕ → Catalog → Catalog
count_evicted n c = record c { evicted = c.evicted + n }

unfoldable pub evict : Catalog → Catalog
evict c =
    let victims = choose_victims (victims_wanted c.settings) c.store.heap c.store.entries in
    count_evicted (length victims) (remove_victims victims c)
