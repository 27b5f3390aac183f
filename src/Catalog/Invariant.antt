-- ===== src/Catalog/Invariant.antt =====
-- The tallies of dht_scraper/torrent_catalog.py and the lists of hashes, through the steps of the methods.
use lif.Common.{
  ℕ, List, [], ◌∷◌, ◌++◌, Bool, false, not, Option, none, some, Bytes, ltb, All, All-take, length,
  take, byte_string_eq, Bool-cases, Option-cases, inl, inr, ◌≡◌, refl, arith,
}
use lif.RecentMap.{find, contains}
use lif.RecentMap.Bound.{find-append}
use lif.Catalog.Entries.{
  Peer, Metadata, pending, done, failed, Source, rank_key, tuple_leq, new_entry,
}
use lif.Catalog.Store.{Objects, Store, create, update}
use lif.Catalog.State.{Catalog, object_of, forget_peers, forget_peer, get_or_create}
use lif.Catalog.Operations.{
  evict_if_full, record_hash, record_hashes, add_peers, is_due, reverse_objects,
  hashes_needing_peers, release_lookup_claim, add_lookup_result, next_fetch_candidates,
  count_metadata, list_fetched, queue_if_tracking, store_at, store_metadata, mark_fetch_failed,
  release_fetch_claim,
}
use lif.Catalog.Eviction.{sorted, select}
use lif.Catalog.Tally.{find-Named}
use lif.Catalog.Counts.{Quiet, create-WellFormed, All-end}
use lif.Catalog.Keeps.{
  stays, Inside, Consistent, Keeps, Present, keep_all, then-Keeps, if-Keeps, idle-Keeps,
  then_change, then_move, then_index,
}
use lif.Catalog.Steps.{
  add_known_peers-Keeps, forget_known-Keeps, end_lookup-Keeps, queue_document-Keeps,
  record_sighting-Keeps, retry_lookup-Keeps, after_failure-Keeps, objects-Present,
  claim_lookups-Keeps, claim_fetches-Keeps,
}
use lif.Catalog.Victims.{select-All, sorted-All}
use lif.Catalog.Evicting.{evict-Consistent}

-- The object found under a hash has that hash.
pub found-Present :
    (k : Bytes) (o : ℕ) (c : Catalog) → Consistent c → object_of k c ≡ some o → Present o c
found-Present k o c w f = rw (find-Named c.store.heap k o c.store.entries w.store_ok.named f) f

-- A method that works on the entry of a hash, if there is one.
pub at_entry :
    (k : Bytes) (step : ℕ → Catalog) (c : Catalog)
    → Consistent c
    → ((o : ℕ) → Present o c → Keeps c (step o))
    → Consistent (elim (object_of k c) as (λ x. Catalog) [ none ↦ c | some object ↦ step object ])
at_entry k step c w keeps = go (object_of k c) refl
  where
    go :
        (found : Option ℕ)
        → object_of k c ≡ found
        → Consistent (elim found as (λ x. Catalog) [ none ↦ c | some object ↦ step object ])
    go none e = w
    go (some o) e = (keeps o (found-Present k o c w e)).still w

at_entry_with :
    {A : Type 0} (k : Bytes) (none_result : A) (step : ℕ → Catalog × A) (c : Catalog)
    → Consistent c
    → ((o : ℕ) → Present o c → Keeps c (step o).0)
    → Consistent
        (elim (object_of k c) as (λ x. Catalog × A) [
          | none ↦ (c, none_result)
          | some object ↦ step object
        ]).0
at_entry_with {A} k none_result step c w keeps = go (object_of k c) refl
  where
    go :
        (found : Option ℕ)
        → object_of k c ≡ found
        → Consistent
            (elim found as (λ x. Catalog × A) [
              | none ↦ (c, none_result)
              | some object ↦ step object
            ]).0
    go none e = w
    go (some o) e = (keeps o (found-Present k o c w e)).still w

pub release_fetch_claim-Consistent :
    (k : Bytes) (c : Catalog) → Consistent c → Consistent (release_fetch_claim k c)
unfolding release_fetch_claim
release_fetch_claim-Consistent k c w =
    at_entry k _ c w (λ o p. if-Keeps _ (then_index o p (then_move pending o p keep_all)) keep_all)

pub release_lookup_claim-Consistent :
    (k : Bytes) (c : Catalog) → Consistent c → Consistent (release_lookup_claim k c)
unfolding release_lookup_claim
release_lookup_claim-Consistent k c w =
    at_entry k _ c w (λ o p. if-Keeps _ (then_index o p (end_lookup-Keeps o c)) keep_all)

pub add_lookup_result-Consistent :
    (k : Bytes) (peers : List Peer) (moment : ℕ) (c : Catalog)
    → Consistent c
    → Consistent (add_lookup_result k peers moment c)
unfolding add_lookup_result
add_lookup_result-Consistent k peers moment c w = at_entry k _ c w (λ o p.
    let met =
      then-Keeps (then_change o _ (end_lookup-Keeps o c) (λ e. (refl, refl)))
        (add_known_peers-Keeps o peers _) in
    then_index o p
      (if-Keeps _ met (then-Keeps met (retry_lookup-Keeps o moment _ (stays met o p)))))

pub add_peers-Consistent :
    (k : Bytes) (peers : List Peer) (c : Catalog)
    → Consistent c
    → Consistent (add_peers k peers c).0
unfolding add_peers
add_peers-Consistent k peers c w =
    at_entry_with k 0 _ c w (λ o p. then_index o p (add_known_peers-Keeps o peers c))

forget_peers-Quiet : (tried : List Peer) → Quiet (forget_peers tried)
unfolding forget_peers forget_peer
forget_peers-Quiet [] e = (refl, refl)
forget_peers-Quiet (p ∷ tried) e = forget_peers-Quiet tried (forget_peer p e)

pub mark_fetch_failed-Consistent :
    (k : Bytes) (tried : List Peer) (reason : Bytes) (moment : ℕ) (c : Catalog)
    → Consistent c
    → Consistent (mark_fetch_failed k tried reason moment c).0
unfolding mark_fetch_failed
mark_fetch_failed-Consistent k tried reason moment c w = at_entry_with k failed _ c w (λ o p.
    let noted = then_change o _ keep_all (forget_peers-Quiet tried) in
    then_index o p (then-Keeps noted (after_failure-Keeps o moment _ (stays noted o p))))

reverse-All : (P : Bytes × ℕ → Type 0) (m : Objects) → All P m → All P (reverse_objects m)
unfolding reverse_objects
reverse-All P [] a = tt
reverse-All P (x ∷ m) a = All-end P (reverse_objects m) x (reverse-All P m a.1) a.0

pub hashes_needing_peers-Consistent :
    (limit moment : ℕ) (c : Catalog)
    → Consistent c
    → Consistent (hashes_needing_peers limit moment c).0
unfolding hashes_needing_peers
hashes_needing_peers-Consistent limit moment c w =
    let listed = reverse_objects c.needs_lookup in
    let due = select (is_due moment) c.store.heap listed in
    let here = All-take _ limit due (
      select-All (is_due moment) c.store.heap _ listed
        (reverse-All _ c.needs_lookup w.lookup_ok)) in
    (claim_lookups-Keeps (take limit due) c (objects-Present c _ w here)).still w

pub next_fetch_candidates-Consistent :
    (limit : ℕ) (c : Catalog) → Consistent c → Consistent (next_fetch_candidates limit c).0
unfolding next_fetch_candidates
next_fetch_candidates-Consistent limit c w =
    let before : ℕ → ℕ → Bool =
      λ i j. tuple_leq (rank_key (c.store.heap j)) (rank_key (c.store.heap i)) in
    let ranked = sorted before c.fetchable in
    let here = All-take _ limit ranked (sorted-All before _ c.fetchable w.fetch_ok) in
    (claim_fetches-Keeps (take limit ranked) c (objects-Present c _ w here)).still w

find-append_old : (k : Bytes) (o : ℕ) (m n : Objects) → find k m ≡ some o → find k (m ++ n) ≡ some o
unfolding find
find-append_old k o [] n h = cc
find-append_old k o (x ∷ m) n h = ground (arith, find-append_old k o m n)

append-Inside : (m n l : Objects) → Inside m l → Inside (m ++ n) l
append-Inside m n [] a = tt
append-Inside m n (x ∷ l) a = (find-append_old x.0 x.1 m n a.0, append-Inside m n l a.1)

absent : (k : Bytes) (m : Objects) → find k m ≡ none → contains k m ≡ false
unfolding find contains
absent k [] h = refl
absent k (x ∷ m) h = ground (arith, absent k m)

created_hash :
    (k : Bytes) (now : ℕ) (checked : Bool) (s : Store)
    → ((create k now checked s).heap s.allocated).info_hash ≡ k
unfolding create update new_entry
created_hash k now checked s = ground arith

create-entries :
    (k : Bytes) (now : ℕ) (checked : Bool) (s : Store)
    → (create k now checked s).entries ≡ s.entries ++ (k, s.allocated) ∷ []
unfolding create
create-entries k now checked s = refl

-- What `get_or_create` returns is a catalog of the invariant, with the object as the entry of the hash.
pub get_or_create-Consistent :
    (k : Bytes) (now : ℕ) (c : Catalog)
    → Consistent c
    → Consistent (get_or_create k now c).2
      × Present (get_or_create k now c).0 (get_or_create k now c).2
unfolding get_or_create
get_or_create-Consistent k now c w = elim (Option-cases (object_of k c)) [
  | inr (o, e) ↦ rw (e, get_or_create) (w, found-Present k o c w e)
  | inl e ↦
      let checked = not c.check_database in
      let new = create-entries k now checked c.store in
      let more : Objects = (k, c.store.allocated) ∷ [] in
      rw (e, get_or_create)
        (
          record {
            store_ok =
                create-WellFormed k now checked c.store (absent k c.store.entries e) w.store_ok;
            fetch_ok = rw new (append-Inside c.store.entries more c.fetchable w.fetch_ok);
            lookup_ok = rw new (append-Inside c.store.entries more c.needs_lookup w.lookup_ok);
            check_ok = rw new (append-Inside c.store.entries more c.needs_check w.check_ok);
          },
          rw (new, created_hash k now checked c.store)
              (find-append k c.store.allocated c.store.entries (absent k c.store.entries e)),
        )
]

pub evict_if_full-Consistent : (c : Catalog) → Consistent c → Consistent (evict_if_full c)
unfolding evict_if_full
evict_if_full-Consistent c w =
    elim (Bool-cases (ltb c.settings.max_entries (length c.store.entries))) [
      | inl h ↦ rw h (evict-Consistent c w)
      | inr h ↦ rw h w
    ]

pub record_hash-Consistent :
    (k : Bytes) (source : Source) (peer : Option Peer) (moment : ℕ) (c : Catalog)
    → Consistent c
    → Consistent (record_hash k source peer moment c).0
unfolding record_hash
record_hash-Consistent k source peer moment c w =
    let (v, p) = get_or_create-Consistent k moment c w in
    evict_if_full-Consistent _ ((record_sighting-Keeps _ source peer moment _ p).still v)

pub record_hashes-Consistent :
    (hashes : List Bytes) (source : Source) (moment : ℕ) (c : Catalog)
    → Consistent c
    → Consistent (record_hashes hashes source moment c).0
unfolding record_hashes
record_hashes-Consistent [] source moment c w = w
record_hashes-Consistent (k ∷ hashes) source moment c w =
    record_hashes-Consistent hashes source moment _
      (record_hash-Consistent k source none moment c w)

pub count_metadata-Keeps :
    (o : ℕ) (metadata : Metadata) (c : Catalog) → Keeps c (count_metadata o metadata c)
unfolding count_metadata
count_metadata-Keeps o metadata c = if-Keeps _ (idle-Keeps refl refl refl refl refl) keep_all

pub list_fetched-Keeps : (o : ℕ) (c : Catalog) → Keeps c (list_fetched o c)
unfolding list_fetched
list_fetched-Keeps o c = idle-Keeps refl refl refl refl refl

pub store_at-Keeps :
    (o : ℕ) (metadata : Metadata) (c : Catalog) → Present o c → Keeps c (store_at o metadata c)
unfolding store_at queue_if_tracking
store_at-Keeps o metadata c p =
    let counted = then-Keeps (count_metadata-Keeps o metadata c) (forget_known-Keeps o _) in
    let stored = then_move done o p (then_change o _ counted (λ e. (refl, refl))) in
    let listed = then_index o p (then-Keeps stored (list_fetched-Keeps o _)) in
    then-Keeps listed (if-Keeps _ (queue_document-Keeps o _) keep_all)

pub store_metadata-Consistent :
    (metadata : Metadata) (moment : ℕ) (c : Catalog)
    → Consistent c
    → Consistent (store_metadata metadata moment c).0
unfolding store_metadata
store_metadata-Consistent metadata moment c w =
    let (v, p) = get_or_create-Consistent metadata.info_hash moment c w in
    (store_at-Keeps _ metadata _ p).still v
