-- ===== src/Catalog/Indexed.antt =====
-- The invariant of the catalog through the public methods that the search indexer calls.
use lif.Common.{
  ℕ, zero, suc, ◌==◌, List, [], ◌∷◌, Bool, true, ◌&&◌, Option, none, some, Bytes, All, length,
  if◌then◌else◌, byte_string_eq, Bool-cases, inl, inr, ◌≡◌, refl, ◌∙◌,
}
use lif.RecentMap.{find, without}
use lif.Catalog.Entries.{pending, done, IndexBase}
use lif.Catalog.Store.{Objects}
use lif.Catalog.State.{Catalog, entry_at, change_entry, queue_document, release_metadata}
use lif.Catalog.Indexing.{
  IndexSnapshot, index_snapshot, enable_index_tracking, drain_index_documents, drain_orphans, Round,
  first_object, queue_empty, in_full, as_counts, nothing, round_for, take_counters, drain_counters,
  drain_index_counters, requeue_index_documents, requeue_index_counters, is_entry_of, add_flushed,
  mark_counters_written, set_index_base, mark_index_written, check_all, set_database_check,
  know_from_database, count_if_tracking, adopt_from_database, reset_counts, fetch_again,
  apply_check, apply_database_check, apply_database_checks, reset_index_base,
}
use lif.Catalog.Counts.{All-without}
use lif.Catalog.Keeps.{
  stays, Inside, Consistent, Keeps, Present, keep_all, then-Keeps, if-Keeps, idle-Keeps,
  then_change, then_move, then_index,
}
use lif.Catalog.Steps.{forget_known-Keeps, queue_document-Keeps, objects-Present, stays_each}
use lif.Catalog.Evicting.{add_orphan-Keeps}
use lif.Catalog.Invariant.{at_entry, found-Present}

pub enable_index_tracking-Keeps :
    (n : ℕ) (check : Bool) (c : Catalog) → Keeps c (enable_index_tracking n check c)
unfolding enable_index_tracking
enable_index_tracking-Keeps n check c = idle-Keeps refl refl refl refl refl

pub drain_index_documents-Keeps :
    (limit : ℕ) (c : Catalog) → Keeps c (drain_index_documents limit c).0
unfolding drain_index_documents
drain_index_documents-Keeps limit c = idle-Keeps refl refl refl refl refl

pub drain_orphans-Keeps :
    (orphans : List ℕ) (limit : ℕ) (c : Catalog) → Keeps c (drain_orphans orphans limit c).0
unfolding drain_orphans
drain_orphans-Keeps [] limit c = idle-Keeps refl refl refl refl refl
drain_orphans-Keeps (o ∷ orphans) zero c = idle-Keeps refl refl refl refl refl
drain_orphans-Keeps (o ∷ orphans) (suc limit) c =
    let s = index_snapshot o c in
    elim (Bool-cases ((s.seen_delta == 0) && (s.announce_delta == 0))) [
      | inl h ↦ rw (h, drain_orphans) (drain_orphans-Keeps orphans (suc limit) c)
      | inr h ↦ rw (h, drain_orphans) (drain_orphans-Keeps orphans limit c)
    ]

pub requeue_index_documents-Keeps :
    (l : List IndexSnapshot) (c : Catalog) → Keeps c (requeue_index_documents l c)
unfolding requeue_index_documents
requeue_index_documents-Keeps [] c = keep_all
requeue_index_documents-Keeps (x ∷ l) c =
    let later = requeue_index_documents-Keeps l c in
    if-Keeps _ later (then-Keeps later (idle-Keeps refl refl refl refl refl))

pub requeue_index_counters-Keeps :
    (l : List IndexSnapshot) (c : Catalog) → Keeps c (requeue_index_counters l c)
unfolding requeue_index_counters
requeue_index_counters-Keeps [] c = keep_all
requeue_index_counters-Keeps (x ∷ l) c =
    then-Keeps
      (if-Keeps (is_entry_of x c) (idle-Keeps refl refl refl refl refl)
        (add_orphan-Keeps x.object c))
      (requeue_index_counters-Keeps l _)

pub add_flushed-Keeps : (x : IndexSnapshot) (c : Catalog) → Keeps c (add_flushed x c)
unfolding add_flushed
add_flushed-Keeps x c = then_change x.object _ keep_all (λ e. (refl, refl))

pub mark_counters_written-Keeps :
    (l : List IndexSnapshot) (c : Catalog) → Keeps c (mark_counters_written l c)
unfolding mark_counters_written
mark_counters_written-Keeps [] c = keep_all
mark_counters_written-Keeps (x ∷ l) c =
    then-Keeps (add_flushed-Keeps x c) (mark_counters_written-Keeps l _)

pub set_index_base-Consistent :
    (k : Bytes) (base : IndexBase) (c : Catalog)
    → Consistent c
    → Consistent (set_index_base k base c)
unfolding set_index_base
set_index_base-Consistent k base c w =
    at_entry k _ c w (λ o p. then_change o _ keep_all (λ e. (refl, refl)))

pub release_metadata-Keeps : (o : ℕ) (c : Catalog) → Keeps c (release_metadata o c)
unfolding release_metadata
release_metadata-Keeps o c =
    then_change o _ (idle-Keeps refl refl refl refl refl) (λ e. (refl, refl))

pub mark_index_written-Keeps :
    (x : IndexSnapshot) (base : IndexBase) (c : Catalog) → Keeps c (mark_index_written x base c)
unfolding mark_index_written
mark_index_written-Keeps x base c =
    let flushed = add_flushed-Keeps x c in
    let based = then_change x.object _ flushed (λ e. (refl, refl)) in
    if-Keeps (is_entry_of x (add_flushed x c))
      (if-Keeps _
        (then-Keeps (then-Keeps based (if-Keeps _ (idle-Keeps refl refl refl refl refl) keep_all))
          (release_metadata-Keeps x.object _))
        based)
      flushed

pub check_all-Keeps :
    (m : Objects) (c : Catalog) → All (λ x. Present x.1 c) m → Keeps c (check_all m c)
unfolding check_all
check_all-Keeps [] c a = keep_all
check_all-Keeps (x ∷ m) c a =
    let one = then_index x.1 a.0 (then_change x.1 _ keep_all (λ e. (refl, refl))) in
    then-Keeps one (check_all-Keeps m _ (stays_each m one a.1))

pub set_database_check-Consistent :
    (enabled : Bool) (c : Catalog) → Consistent c → Consistent (set_database_check enabled c)
unfolding set_database_check
set_database_check-Consistent enabled c w =
    let switched : Keeps c (record c { check_database = enabled }) =
      idle-Keeps refl refl refl refl refl in
    let v = switched.still w in
    (if-Keeps enabled switched (
        then-Keeps switched
          (check_all-Keeps c.needs_check _ (objects-Present _ c.needs_check v w.check_ok)))).still
      w

pub know_from_database-Keeps :
    (o : ℕ) (base : IndexBase) (c : Catalog) → Present o c → Keeps c (know_from_database o base c)
unfolding know_from_database
know_from_database-Keeps o base c p =
    then_move done o p (then_change o _ (idle-Keeps refl refl refl refl refl) (λ e. (refl, refl)))

pub count_if_tracking-Keeps : (o : ℕ) (c : Catalog) → Keeps c (count_if_tracking o c)
unfolding count_if_tracking
count_if_tracking-Keeps o c = if-Keeps _ (idle-Keeps refl refl refl refl refl) keep_all

pub apply_check-Keeps :
    (o : ℕ) (found : Option IndexBase) (c : Catalog) → Present o c → Keeps c (apply_check o found c)
unfolding apply_check adopt_from_database
apply_check-Keeps o none c p = then_index o p keep_all
apply_check-Keeps o (some base) c p = then_index o p (
    if-Keeps _ (then-Keeps (know_from_database-Keeps o base c p) (count_if_tracking-Keeps o _))
      keep_all)

pub unlist_check-Keeps :
    (k : Bytes) (c : Catalog) → Keeps c (record c { needs_check = without k c.needs_check })
unlist_check-Keeps k c = record {
  entries_same = refl;
  names_same = λ i. refl;
  settings_same = refl;
  still = λ w. record {
    store_ok = w.store_ok;
    fetch_ok = w.fetch_ok;
    lookup_ok = w.lookup_ok;
    check_ok = All-without _ k c.needs_check w.check_ok;
  };
}

find-Inside :
    (k : Bytes) (o : ℕ) (entries m : Objects)
    → Inside entries m
    → find k m ≡ some o
    → find k entries ≡ some o
unfolding find
find-Inside k o entries [] a h = cc
find-Inside k o entries ((j, i) ∷ m) a h = elim (Bool-cases (byte_string_eq.beq j k)) [
  | inl f ↦
      let found : some i ≡ some o = rw f at h in rw (← byte_string_eq.beq→eq j k f) (a.0 ∙ found)
  | inr f ↦ find-Inside k o entries m a.1 (rw f at h)
]

pub apply_database_check-Consistent :
    (k : Bytes) (found : List (Bytes × IndexBase)) (c : Catalog)
    → Consistent c
    → Consistent (apply_database_check k found c)
unfolding apply_database_check
apply_database_check-Consistent k found c w = go (find k c.needs_check) refl
  where
    popped : Catalog
    popped = record c { needs_check = without k c.needs_check }

    go :
        (listed : Option ℕ)
        → find k c.needs_check ≡ listed
        → Consistent (elim listed as (λ x. Catalog) [
          | none ↦ popped
          | some object ↦
              if (entry_at object c).database_checked
              then popped
              else apply_check object
                  (find k found)
                  (change_entry object (λ e. record e { database_checked = true }) popped)
        ])
    go none e = (unlist_check-Keeps k c).still w
    go (some o) e =
        let p =
          found-Present k o c w (find-Inside k o c.store.entries c.needs_check w.check_ok e) in
        let checked = then_change o _ (unlist_check-Keeps k c) (λ e. (refl, refl)) in
        (if-Keeps _ (unlist_check-Keeps k c)
            (then-Keeps checked (apply_check-Keeps o (find k found) _ (stays checked o p)))).still
          w

pub apply_database_checks-Consistent :
    (hashes : List Bytes) (found : List (Bytes × IndexBase)) (c : Catalog)
    → Consistent c
    → Consistent (apply_database_checks hashes found c)
unfolding apply_database_checks
apply_database_checks-Consistent [] found c w = w
apply_database_checks-Consistent (k ∷ hashes) found c w =
    apply_database_checks-Consistent hashes found _ (apply_database_check-Consistent k found c w)

pub fetch_again-Keeps : (o : ℕ) (c : Catalog) → Present o c → Keeps c (fetch_again o c)
unfolding fetch_again
fetch_again-Keeps o c p =
    let missing =
      then-Keeps (then_change o _ keep_all (λ e. (refl, refl))) (forget_known-Keeps o _) in
    then_index o p (if-Keeps _ (then_move pending o p missing) missing)

pub reset_counts-Keeps : (k : Bytes) (o : ℕ) (c : Catalog) → Keeps c (reset_counts k o c)
unfolding reset_counts
reset_counts-Keeps k o c = then_change o _ (idle-Keeps refl refl refl refl refl) (λ e. (refl, refl))

pub reset_index_base-Consistent :
    (k : Bytes) (c : Catalog) → Consistent c → Consistent (reset_index_base k c)
unfolding reset_index_base
reset_index_base-Consistent k c w = at_entry k _ c w (λ o p.
    let reset = reset_counts-Keeps k o c in
    if-Keeps _ (then-Keeps reset (queue_document-Keeps o _))
      (if-Keeps _ (then-Keeps reset (fetch_again-Keeps o _ (stays reset o p))) reset))

pub take_counters-Keeps : (c : Catalog) → Keeps c (take_counters c)
unfolding take_counters
take_counters-Keeps c = idle-Keeps refl refl refl refl refl

pub drain_counters-Keeps : (fuel limit : ℕ) (c : Catalog) → Keeps c (drain_counters fuel limit c).0
unfolding drain_counters
drain_counters-Keeps zero limit c = keep_all
drain_counters-Keeps (suc fuel) zero c = keep_all
drain_counters-Keeps (suc fuel) (suc limit) c =
    let taken = take_counters-Keeps c in
    go (round_for c.index_counters c) refl (then-Keeps taken (drain_counters-Keeps fuel limit _))
      (then-Keeps taken (drain_counters-Keeps fuel (suc limit) _))
      (then-Keeps (then-Keeps taken (queue_document-Keeps _ _))
        (drain_counters-Keeps fuel (suc limit) _))
  where
    go :
        (r : Round)
        → round_for c.index_counters c ≡ r
        → Keeps c (drain_counters fuel limit (take_counters c)).0
        → Keeps c (drain_counters fuel (suc limit) (take_counters c)).0
        → Keeps c
            (drain_counters fuel
              (suc limit)
              (queue_document (first_object c.index_counters) (take_counters c))).0
        → Keeps c (drain_counters (suc fuel) (suc limit) c).0
    go queue_empty e used skipped queued = rw (e, drain_counters) keep_all
    go in_full e used skipped queued = rw (e, drain_counters) queued
    go as_counts e used skipped queued = rw (e, drain_counters) used
    go nothing e used skipped queued = rw (e, drain_counters) skipped

pub drain_index_counters-Keeps :
    (limit : ℕ) (c : Catalog) → Keeps c (drain_index_counters limit c).0
unfolding drain_index_counters
drain_index_counters-Keeps limit c =
    then-Keeps (drain_orphans-Keeps c.orphan_counters limit c)
      (drain_counters-Keeps (length c.index_counters) _ _)
