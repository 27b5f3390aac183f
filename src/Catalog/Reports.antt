-- ===== src/Catalog/Reports.antt =====
-- The reports of TorrentCatalog that count: `fetchable_count`, `snapshot_counts` and `index_backlog`.
use lif.Common.{ℕ, ◌+◌, ◌-◌, length, ◌≡◌}
use lif.Catalog.Entries.{pending, in_progress, done, failed}
use lif.Catalog.State.{Catalog}
use lif.Catalog.Reachable.{Reachable, Reachable-state_counts}

unfoldable pub fetchable_count : Catalog → ℕ
fetchable_count c = length c.fetchable

pub record CatalogCounts : Type 0 where
  pub hashes_seen : ℕ
  pub hashes_discovered : ℕ
  pub observations : ℕ
  pub with_metadata : ℕ
  pub known_from_database : ℕ
  pub metadata_in_memory : ℕ
  pub metadata_bytes : ℕ
  pub fetch_pending : ℕ
  pub fetch_in_progress : ℕ
  pub fetch_done : ℕ
  pub fetch_failed : ℕ
  pub fetchable : ℕ
  pub lookups_in_progress : ℕ
  pub evicted : ℕ
  pub capacity : ℕ

unfoldable pub snapshot_counts : Catalog → CatalogCounts
snapshot_counts c = record {
  hashes_seen = length c.store.entries;
  hashes_discovered = c.discovered;
  observations = c.observations;
  with_metadata = c.store.state_counts done - c.known_done;
  known_from_database = c.known_done;
  metadata_in_memory = length c.fetched;
  metadata_bytes = c.metadata_bytes;
  fetch_pending = c.store.state_counts pending;
  fetch_in_progress = c.store.state_counts in_progress;
  fetch_done = c.store.state_counts done;
  fetch_failed = c.store.state_counts failed;
  fetchable = length c.fetchable;
  lookups_in_progress = c.lookups_in_progress;
  evicted = c.evicted;
  capacity = c.settings.max_entries;
}

-- What the search indexer has still to write: documents, counters, and how many were dropped.
unfoldable pub index_backlog : Catalog → ℕ × ℕ × ℕ
index_backlog c =
    (length c.index_documents, length c.index_counters + length c.orphan_counters, c.index_dropped)

-- After any calls of the public methods, in any order, the snapshot's counts of the four fetch states add
-- up to the hashes that it reports as seen.
pub snapshot_counts_total :
    {c : Catalog}
    → Reachable c
    → let r = snapshot_counts c in
      r.fetch_pending + r.fetch_in_progress + r.fetch_done + r.fetch_failed ≡ r.hashes_seen
unfolding snapshot_counts
snapshot_counts_total r = Reachable-state_counts r
