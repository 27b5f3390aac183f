-- ===== src/Catalog/Keeps.antt =====
-- The invariant of the catalog, and the helpers of its methods.
use lif.Common.{
  ℕ, [], ◌∷◌, Bool, true, false, some, Bytes, All, if◌then◌else◌, byte_string_eq, Bool-cases, inl,
  inr, ◌≡◌, refl, ◌∙◌, ap,
}
use lif.RecentMap.{find, contains}
use lif.Catalog.Entries.{FetchState, TorrentEntry}
use lif.Catalog.Store.{Objects, setdefault, assign, modify, set_state}
use lif.Catalog.State.{
  Catalog, entry_at, change_entry, move_to, wants_check, wants_fetch, wants_lookup, index_entry,
}
use lif.Catalog.Counts.{
  WellFormed, Quiet, modify-WellFormed, set_state-WellFormed, update_name, All-without, All-end,
}

-- Every object that an index lists is the entry of its hash.
abbrev pub Inside : Objects → Objects → Type 0
Inside entries m = All (λ x. find x.0 entries ≡ some x.1) m

-- The counts are exact, and the indexes of work list entries of the catalog.
pub record Consistent (c : Catalog) : Type 0 where
  pub store_ok : WellFormed c.store
  pub fetch_ok : Inside c.store.entries c.fetchable
  pub lookup_ok : Inside c.store.entries c.needs_lookup
  pub check_ok : Inside c.store.entries c.needs_check

-- A step that neither adds nor removes an entry, and keeps the invariant.
pub record Keeps (c c' : Catalog) : Type 0 where
  pub entries_same : c'.store.entries ≡ c.store.entries
  pub names_same : (i : ℕ) → (entry_at i c').info_hash ≡ (entry_at i c).info_hash
  pub settings_same : c'.settings ≡ c.settings
  pub still : Consistent c → Consistent c'

-- The object is the entry of its hash.
abbrev pub Present : ℕ → Catalog → Type 0
Present o c = find (entry_at o c).info_hash c.store.entries ≡ some o

module _ {c : Catalog} where
  pub keep_all : Keeps c c
  keep_all = record {
    entries_same = refl;
    names_same = λ i. refl;
    settings_same = refl;
    still = λ k. k;
  }

  module _ {c' : Catalog} (k : Keeps c c') where
    pub stays : (o : ℕ) → Present o c → Present o c'
    stays o p = rw (k.entries_same, k.names_same o) p

    pub then-Keeps : {c'' : Catalog} → Keeps c' c'' → Keeps c c''
    then-Keeps l = record {
      entries_same = l.entries_same ∙ k.entries_same;
      names_same = λ i. l.names_same i ∙ k.names_same i;
      settings_same = l.settings_same ∙ k.settings_same;
      still = λ s. l.still (k.still s);
    }

pub if-Keeps : {c x y : Catalog} (b : Bool) → Keeps c x → Keeps c y → Keeps c (if b then x else y)
if-Keeps true k l = k
if-Keeps false k l = l

-- The branch where the test holds may use that it does.
pub when-Keeps :
    {c x y : Catalog} (b : Bool) → (b ≡ true → Keeps c x) → Keeps c y → Keeps c (if b then x else y)
when-Keeps true k l = k refl
when-Keeps false k l = l

-- A step on the other fields.
pub idle-Keeps :
    {c c' : Catalog}
    → c'.store ≡ c.store
    → c'.settings ≡ c.settings
    → c'.fetchable ≡ c.fetchable
    → c'.needs_lookup ≡ c.needs_lookup
    → c'.needs_check ≡ c.needs_check
    → Keeps c c'
idle-Keeps s t f l k = record {
  entries_same = ap (λ x. x.entries) s;
  names_same = λ i. ap (λ x. (x.heap i).info_hash) s;
  settings_same = t;
  still = λ w. record {
    store_ok = rw s w.store_ok;
    fetch_ok = rw (s, f) w.fetch_ok;
    lookup_ok = rw (s, l) w.lookup_ok;
    check_ok = rw (s, k) w.check_ok;
  };
}

pub change_entry-Keeps :
    (o : ℕ) (change : TorrentEntry → TorrentEntry) (c : Catalog)
    → Quiet change
    → Keeps c (change_entry o change c)
unfolding change_entry modify
change_entry-Keeps o change c q = record {
  entries_same = refl;
  names_same = λ i. update_name o (change (entry_at o c)) c.store.heap i (q (entry_at o c)).0;
  settings_same = refl;
  still = λ w. record {
    store_ok = modify-WellFormed o change c.store q w.store_ok;
    fetch_ok = w.fetch_ok;
    lookup_ok = w.lookup_ok;
    check_ok = w.check_ok;
  };
}

pub move_to-Keeps :
    (state : FetchState) (o : ℕ) (c : Catalog) → Present o c → Keeps c (move_to state o c)
unfolding move_to set_state modify
move_to-Keeps state o c p = record {
  entries_same = refl;
  names_same =
      λ i. update_name o (record (entry_at o c) { fetch_state = state }) c.store.heap i refl;
  settings_same = refl;
  still = λ w. record {
    store_ok = set_state-WellFormed state (entry_at o c).info_hash o c.store p w.store_ok;
    fetch_ok = w.fetch_ok;
    lookup_ok = w.lookup_ok;
    check_ok = w.check_ok;
  };
}

setdefault-Inside :
    (k : Bytes) (o : ℕ) (entries m : Objects)
    → find k entries ≡ some o
    → Inside entries m
    → Inside entries (setdefault k o m)
unfolding setdefault
setdefault-Inside k o entries m f a = elim (Bool-cases (contains k m)) [
  | inl h ↦ rw h a
  | inr h ↦ rw h (All-end _ m (k, o) a f)
]

assign-Inside :
    (k : Bytes) (o : ℕ) (entries m : Objects)
    → find k entries ≡ some o
    → Inside entries m
    → Inside entries (assign k o m)
unfolding assign
assign-Inside k o entries [] f a = (f, tt)
assign-Inside k o entries ((j, i) ∷ m) f a = elim (Bool-cases (byte_string_eq.beq j k)) [
  | inl h ↦ rw (h, byte_string_eq.beq→eq j k h) (f, a.1)
  | inr h ↦ rw h (a.0, assign-Inside k o entries m f a.1)
]

either : (P : Objects → Type 0) {x y : Objects} (b : Bool) → P x → P y → P (if b then x else y)
either P true p q = p
either P false p q = q

pub index_entry-Keeps : (o : ℕ) (c : Catalog) → Present o c → Keeps c (index_entry o c)
unfolding index_entry
index_entry-Keeps o c p =
    let e = entry_at o c in
    let k = e.info_hash in
    let entries = c.store.entries in
    record {
      entries_same = refl;
      names_same = λ i. refl;
      settings_same = refl;
      still = λ w. record {
        store_ok = w.store_ok;
        fetch_ok =
            either (Inside entries) (wants_fetch e)
              (assign-Inside k o entries c.fetchable p w.fetch_ok)
              (All-without _ k c.fetchable w.fetch_ok);
        lookup_ok =
            either (Inside entries) (wants_lookup c.settings.max_lookups e)
              (setdefault-Inside k o entries c.needs_lookup p w.lookup_ok)
              (All-without _ k c.needs_lookup w.lookup_ok);
        check_ok =
            either (Inside entries) (wants_check e)
              (setdefault-Inside k o entries c.needs_check p w.check_ok)
              (All-without _ k c.needs_check w.check_ok);
      };
    }

-- A change of fields other than the hash and the state, after a step on the other fields of the catalog.
pub then_change :
    {c c' : Catalog} (o : ℕ) (change : TorrentEntry → TorrentEntry)
    → Keeps c c'
    → Quiet change
    → Keeps c (change_entry o change c')
then_change o change k q = then-Keeps k (change_entry-Keeps o _ _ q)

pub then_move :
    {c c' : Catalog} (state : FetchState) (o : ℕ)
    → Present o c
    → Keeps c c'
    → Keeps c (move_to state o c')
then_move state o p k = then-Keeps k (move_to-Keeps state o _ (stays k o p))

pub then_index : {c c' : Catalog} (o : ℕ) → Present o c → Keeps c c' → Keeps c (index_entry o c')
then_index o p k = then-Keeps k (index_entry-Keeps o _ (stays k o p))
