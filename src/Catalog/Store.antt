-- ===== src/Catalog/Store.antt =====
-- The entries of the catalog as shared objects: a heap, the dict from hashes to objects, and the counts
-- by state, with the primitives by which every operation of torrent_catalog.py changes an entry.
use lif.Common.{ℕ, suc, ◌-◌, List, [], ◌∷◌, ◌++◌, Bool, Bytes, ◌==◌, if◌then◌else◌, byte_string_eq}
use lif.RecentMap.{contains}
use lif.Catalog.Entries.{FetchState, is_state, TorrentEntry, pending, new_entry}

-- A dict from hashes to objects, in the order of insertion.
abbrev pub Objects : Type 0
Objects = List (Bytes × ℕ)

-- mapping.setdefault(key, object)
unfoldable pub setdefault : Bytes → ℕ → Objects → Objects
setdefault key object m = if contains key m then m else m ++ (key, object) ∷ []

-- mapping[key] = object: a key that is there keeps its place.
unfoldable pub assign : Bytes → ℕ → Objects → Objects
assign key object [] = (key, object) ∷ []
assign key object ((j, o) ∷ m) =
    let rest = assign key object m in
    if byte_string_eq.beq j key then (j, object) ∷ m else (j, o) ∷ rest

abbrev pub Heap : Type 0
Heap = ℕ → TorrentEntry

-- `allocated` is the first number that no object has.
pub record Store : Type 0 where
  pub heap : Heap
  pub allocated : ℕ
  pub entries : Objects
  pub state_counts : FetchState → ℕ

unfoldable pub update : ℕ → TorrentEntry → Heap → Heap
update object entry heap i = if i == object then entry else heap i

-- An assignment to fields of the object.
unfoldable pub modify : ℕ → (TorrentEntry → TorrentEntry) → Store → Store
modify object change s = record s { heap = update object (change (s.heap object)) s.heap }

unfoldable pub add_one : FetchState → (FetchState → ℕ) → FetchState → ℕ
add_one state counts t = if is_state t state then suc (counts t) else counts t

unfoldable pub less_one : FetchState → (FetchState → ℕ) → FetchState → ℕ
less_one state counts t = if is_state t state then counts t - 1 else counts t

unfoldable pub set_state : FetchState → ℕ → Store → Store
set_state state object s =
    let left = less_one (s.heap object).fetch_state s.state_counts in
    record (modify object (λ entry. record entry { fetch_state = state }) s) {
      state_counts = add_one state left;
    }

-- A new object under a hash that has none.
unfoldable pub create : Bytes → ℕ → Bool → Store → Store
create info_hash now checked s = record {
  heap =
      update s.allocated (record (new_entry info_hash now) { database_checked = checked }) s.heap;
  allocated = suc s.allocated;
  entries = s.entries ++ (info_hash, s.allocated) ∷ [];
  state_counts = add_one pending s.state_counts;
}
