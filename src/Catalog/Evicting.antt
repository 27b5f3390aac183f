-- ===== src/Catalog/Evicting.antt =====
-- The invariant of the catalog through `_evict_locked`.
use lif.Common.{
  ℕ, [], ◌∷◌, Bool, true, false, some, Bytes, length, if◌then◌else◌, byte_string_eq, ◌≡◌, refl, ◌∙◌,
  ap, arith,
}
use lif.RecentMap.{find, contains, without, Distinct}
use lif.RecentMap.Bound.{beq_sym, find-without, contains-without_self}
use lif.Catalog.Store.{Objects}
use lif.Catalog.State.{Catalog, add_orphan, forget_known, change_entry}
use lif.Catalog.Eviction.{
  unlist, save_counters, uncount_metadata, forget_entry, remove_from_store, remove_entry,
  remove_victim, remove_victims, choose_victims, victims_wanted, count_evicted, evict,
}
use lif.Catalog.Counts.{remove_from_store-WellFormed, All-without}
use lif.Catalog.Keeps.{Inside, Consistent, Keeps, keep_all, then-Keeps, if-Keeps, idle-Keeps}
use lif.Catalog.Steps.{forget_known-Keeps}
use lif.Catalog.Victims.{choose_victims-AreVictims}

-- No index of work lists the key.
record Unlisted (k : Bytes) (c : Catalog) : Type 0 where
  fetch_gone : contains k c.fetchable ≡ false
  lookup_gone : contains k c.needs_lookup ≡ false
  check_gone : contains k c.needs_check ≡ false

if_Unlisted :
    {k : Bytes} {x y : Catalog} (b : Bool)
    → Unlisted k x
    → Unlisted k y
    → Unlisted k (if b then x else y)
if_Unlisted true u v = u
if_Unlisted false u v = v

pub add_orphan-Keeps : (o : ℕ) (c : Catalog) → Keeps c (add_orphan o c)
unfolding add_orphan
add_orphan-Keeps o c =
    if-Keeps _ (idle-Keeps refl refl refl refl refl) (idle-Keeps refl refl refl refl refl)

unlist-Keeps : (k : Bytes) (c : Catalog) → Keeps c (unlist k c)
unfolding unlist
unlist-Keeps k c = record {
  entries_same = refl;
  names_same = λ i. refl;
  settings_same = refl;
  still = λ w. record {
    store_ok = w.store_ok;
    fetch_ok = All-without _ k c.fetchable w.fetch_ok;
    lookup_ok = All-without _ k c.needs_lookup w.lookup_ok;
    check_ok = All-without _ k c.needs_check w.check_ok;
  };
}

forget_entry-Keeps : (k : Bytes) (o : ℕ) (c : Catalog) → Keeps c (forget_entry k o c)
unfolding forget_entry save_counters uncount_metadata
forget_entry-Keeps k o c =
    let saved = then-Keeps (unlist-Keeps k c) (if-Keeps _ (add_orphan-Keeps o _) keep_all) in
    let counted = then-Keeps saved (if-Keeps _ (idle-Keeps refl refl refl refl refl) keep_all) in
    then-Keeps counted (forget_known-Keeps o _)

unlist-Unlisted : (k : Bytes) (c : Catalog) → Unlisted k (unlist k c)
unfolding unlist
unlist-Unlisted k c = record {
  fetch_gone = contains-without_self k c.fetchable;
  lookup_gone = contains-without_self k c.needs_lookup;
  check_gone = contains-without_self k c.needs_check;
}

copy :
    {k : Bytes} {c c' : Catalog}
    → c'.fetchable ≡ c.fetchable
    → c'.needs_lookup ≡ c.needs_lookup
    → c'.needs_check ≡ c.needs_check
    → Unlisted k c
    → Unlisted k c'
copy f l h u = record {
  fetch_gone = rw f u.fetch_gone;
  lookup_gone = rw l u.lookup_gone;
  check_gone = rw h u.check_gone;
}

module _ {k : Bytes} {c : Catalog} (o : ℕ) (u : Unlisted k c) where
  add_orphan-Unlisted : Unlisted k (add_orphan o c)
  unfolding add_orphan
  add_orphan-Unlisted = copy (ground arith) (ground arith) (ground arith) u

  save_counters-Unlisted : Unlisted k (save_counters o c)
  unfolding save_counters
  save_counters-Unlisted = if_Unlisted _ add_orphan-Unlisted u

  uncount_metadata-Unlisted : Unlisted k (uncount_metadata o c)
  unfolding uncount_metadata
  uncount_metadata-Unlisted = copy (ground arith) (ground arith) (ground arith) u

  forget_known-Unlisted : Unlisted k (forget_known o c)
  unfolding forget_known change_entry
  forget_known-Unlisted = copy (ground arith) (ground arith) (ground arith) u

forget_entry-Unlisted : (k : Bytes) (o : ℕ) (c : Catalog) → Unlisted k (forget_entry k o c)
unfolding forget_entry
forget_entry-Unlisted k o c =
    forget_known-Unlisted o
      (uncount_metadata-Unlisted o (save_counters-Unlisted o (unlist-Unlisted k c)))

without-Inside :
    (k : Bytes) (entries m : Objects)
    → contains k m ≡ false
    → Inside entries m
    → Inside (without k entries) m
unfolding contains
without-Inside k entries [] h a = tt
without-Inside k entries (x ∷ m) h a =
    let other = beq_sym x.0 k (ground arith) in
    (find-without k x.0 entries other ∙ a.0, without-Inside k entries m (ground arith) a.1)

remove_victim-Consistent :
    (k : Bytes) (o : ℕ) (c : Catalog)
    → find k c.store.entries ≡ some o
    → Consistent c
    → Consistent (remove_victim k o c)
      × ((remove_victim k o c).store.entries ≡ without k c.store.entries)
unfolding remove_victim remove_entry remove_from_store
remove_victim-Consistent k o c f w =
    let left = forget_entry k o c in
    let kept = forget_entry-Keeps k o c in
    let u = forget_entry-Unlisted k o c in
    let v = kept.still w in
    (
      record {
        store_ok = remove_from_store-WellFormed k o left.store (rw kept.entries_same f) v.store_ok;
        fetch_ok = without-Inside k left.store.entries left.fetchable u.fetch_gone v.fetch_ok;
        lookup_ok = without-Inside k left.store.entries left.needs_lookup u.lookup_gone v.lookup_ok;
        check_ok = without-Inside k left.store.entries left.needs_check u.check_gone v.check_ok;
      },
      ap (without k) kept.entries_same,
    )

remove_victims-Consistent :
    (victims : Objects) (c : Catalog)
    → Distinct victims
    → Inside c.store.entries victims
    → Consistent c
    → Consistent (remove_victims victims c)
unfolding remove_victims
remove_victims-Consistent [] c d a w = w
remove_victims-Consistent ((k, o) ∷ m) c d a w =
    let (one, entries) = remove_victim-Consistent k o c a.0 w in
    remove_victims-Consistent m (remove_victim k o c) d.1
      (rw entries (without-Inside k c.store.entries m d.0 a.1)) one

count_evicted-Keeps : (n : ℕ) (c : Catalog) → Keeps c (count_evicted n c)
unfolding count_evicted
count_evicted-Keeps n c = idle-Keeps refl refl refl refl refl

pub evict-Consistent : (c : Catalog) → Consistent c → Consistent (evict c)
unfolding evict
evict-Consistent c w =
    let victims = choose_victims (victims_wanted c.settings) c.store.heap c.store.entries in
    let v =
      choose_victims-AreVictims (victims_wanted c.settings) c.store.heap c.store.entries
        w.store_ok.distinct in
    (count_evicted-Keeps (length victims) _).still
      (remove_victims-Consistent victims c v.different v.present w)
