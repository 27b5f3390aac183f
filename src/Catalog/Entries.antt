-- ===== src/Catalog/Entries.antt =====
-- TorrentEntry and the keys by which the catalog ranks and evicts entries. Times are whole units of one clock.
use lif.Common.{
  ℕ, ◌+◌, List, [], ◌∷◌, Bool, true, false, not, ◌&&◌, ◌||◌, Option, none, some, Bytes, ltb, ◌==◌,
  min, if◌then◌else◌,
}

abbrev pub Peer : Type 0
Peer = Bytes × ℕ

-- What the catalog reads of a TorrentMetadata; `reference` tells one object from another, as `is` does.
pub record Metadata : Type 0 where
  pub reference : ℕ
  pub info_hash : Bytes
  pub total_size : ℕ

pub data FetchState : Type 0 where
  pending in_progress done failed : FetchState

unfoldable pub is_state : FetchState → FetchState → Bool
is_state pending pending = true
is_state in_progress in_progress = true
is_state done done = true
is_state failed failed = true
is_state _ _ = false

pub data Source : Type 0 where
  from_get_peers from_announce_peer from_sample : Source

-- last_error: the texts that the catalog sets itself, and those that the fetch engine passes.
pub data LastError : Type 0 where
  no_error no_peers : LastError
  fetch_error : Bytes → LastError

-- IndexBase: seen and announce counts and the first sighting of previous runs.
abbrev pub IndexBase : Type 0
IndexBase = ℕ × ℕ × Option ℕ

-- `peers` is an ordered dict of peers, oldest first, and `failed_peers` a set.
pub record TorrentEntry : Type 0 where
  pub info_hash : Bytes
  pub first_seen : ℕ
  pub last_seen : ℕ
  pub seen_count : ℕ
  pub announce_count : ℕ
  pub peers : Option (List (Peer × Unit {0}))
  pub failed_peers : Option (List Peer)
  pub fetch_state : FetchState
  pub fetch_attempts : ℕ
  pub last_error : LastError
  pub lookups_started : ℕ
  pub lookup_in_progress : Bool
  pub next_lookup_time : ℕ
  pub metadata : Option Metadata
  pub index_base : Option IndexBase
  pub in_database : Bool
  pub database_checked : Bool
  pub known_from_database : Bool
  pub flushed_seen : ℕ
  pub flushed_announce : ℕ

unfoldable pub new_entry : Bytes → ℕ → TorrentEntry
new_entry info_hash now = record {
  info_hash = info_hash;
  first_seen = now;
  last_seen = now;
  seen_count = 0;
  announce_count = 0;
  peers = none;
  failed_peers = none;
  fetch_state = pending;
  fetch_attempts = 0;
  last_error = no_error;
  lookups_started = 0;
  lookup_in_progress = false;
  next_lookup_time = 0;
  metadata = none;
  index_base = none;
  in_database = false;
  database_checked = true;
  known_from_database = false;
  flushed_seen = 0;
  flushed_announce = 0;
}

-- `bool(entry.peers)`: neither None nor empty.
unfoldable pub any_peers : Option (List (Peer × Unit {0})) → Bool
any_peers none = false
any_peers (some []) = false
any_peers (some (p ∷ ps)) = true

abbrev pub is_some {ℓ} : {A : Type ℓ} → Option A → Bool
is_some none = false
is_some (some a) = true

-- The counters of this run on top of those of the runs before.
unfoldable pub cumulative_counters : TorrentEntry → ℕ × ℕ × ℕ
cumulative_counters entry = elim entry.index_base [
  | none ↦ (entry.seen_count, entry.announce_count, entry.first_seen)
  | some base ↦ (
    base.0 + entry.seen_count,
    base.1 + entry.announce_count,
    elim base.2 [ none ↦ entry.first_seen | some earliest ↦ min earliest entry.first_seen ],
  )
]

unfoldable pub is_evictable : TorrentEntry → Bool
is_evictable entry = not (is_state entry.fetch_state in_progress) && not entry.lookup_in_progress

unfoldable pub eviction_key : TorrentEntry → List ℕ
eviction_key entry =
    (if is_some entry.metadata then 1 else 0)
    ∷ (if any_peers entry.peers then 1 else 0)
    ∷ entry.seen_count
    ∷ entry.last_seen
    ∷ []

unfoldable pub rank_key : TorrentEntry → List ℕ
rank_key entry = entry.seen_count ∷ entry.last_seen ∷ []

-- The order of tuples of numbers of one length.
unfoldable pub tuple_leq : List ℕ → List ℕ → Bool
tuple_leq [] ys = true
tuple_leq (x ∷ xs) [] = false
tuple_leq (x ∷ xs) (y ∷ ys) = let rest = tuple_leq xs ys in ltb x y || ((x == y) && rest)
