-- ===== src/Catalog/Tests.antt =====
-- Runs of the catalog (tests/catalog), and the theorems at inputs.
use lif.Common.{◌+◌, [], ◌∷◌, some, ascii, ◌≡◌, refl, bytes_eq, byte_string_eq}
use lif.RecentMap.{find, contains, without, remember}
use lif.Catalog.Entries.{Peer, from_announce_peer, new_entry, is_state, any_peers}
use lif.Catalog.Store.{update, create, setdefault, assign}
use lif.Catalog.State.{
  Settings, Catalog, new_catalog, object_of, change_entry, add_peer, index_entry, get_or_create,
  member,
}
use lif.Catalog.Eviction.{choose_victims}
use lif.Catalog.Operations.{
  record_hash, record_sighting, count_sighting, add_sender, unlist_lookup, track_counters,
  count_observation, evict_if_full, next_fetch_candidates,
}
use lif.Catalog.Keeps.{Consistent}
use lif.Catalog.Victims.{AreVictims, choose_victims-AreVictims}
use lif.Catalog.Reachable.{Reachable, empty, next, recorded, fetches_claimed, Reachable-Consistent}
use lif.Catalog.Reports.{snapshot_counts, snapshot_counts_total}

abbrev settings : Settings
settings = record {
  max_entries = 2;
  max_peers_per_hash = 2;
  max_fetch_attempts = 1;
  max_lookups = 1;
  lookup_retry = 30;
}

abbrev peer : Peer
peer = (ascii "1.2.3.4", 6881)

abbrev one_seen : Catalog
one_seen = (record_hash (ascii "a") from_announce_peer (some peer) 5 (new_catalog settings)).0

one_seen-Reachable : Reachable one_seen
one_seen-Reachable = next (empty settings) (recorded (ascii "a") from_announce_peer (some peer) 5)

abbrev claimed : Catalog
claimed = (next_fetch_candidates 3 one_seen).0

claimed-Reachable : Reachable claimed
claimed-Reachable = next one_seen-Reachable (fetches_claimed 3)

Reachable-Consistent_example : Consistent claimed
Reachable-Consistent_example = Reachable-Consistent claimed-Reachable

snapshot_counts_total_example :
    let r = snapshot_counts claimed in
    r.fetch_pending + r.fetch_in_progress + r.fetch_done + r.fetch_failed ≡ r.hashes_seen
snapshot_counts_total_example = snapshot_counts_total claimed-Reachable

choose_victims-AreVictims_example :
    AreVictims 1
      (λ o. new_entry [] o)
      ((ascii "a", 0) ∷ (ascii "b", 1) ∷ [])
      (choose_victims 1 (λ o. new_entry [] o) ((ascii "a", 0) ∷ (ascii "b", 1) ∷ []))
unfolding contains bytes_eq
choose_victims-AreVictims_example =
    choose_victims-AreVictims 1 (λ o. new_entry [] o) ((ascii "a", 0) ∷ (ascii "b", 1) ∷ [])
      (refl, (refl, tt))

one_entry : object_of (ascii "a") one_seen ≡ some 0
unfolding find record_hash record_sighting evict_if_full count_observation track_counters
    index_entry unlist_lookup add_sender count_sighting change_entry add_peer get_or_create create
    update new_entry new_catalog is_state remember contains without setdefault assign bytes_eq
    any_peers member
one_entry = refl
