-- ===== src/Catalog/Counts.antt =====
-- The counts by state (`_state_counts`) under the primitives of the store.
use lif.Common.{
  ℕ, suc, ◌+◌, ◌<◌, [], ◌∷◌, ◌++◌, Bool, false, some, Bytes, ◌==◌, ==_iff, All, if◌then◌else◌,
  byte_string_eq, Bool-cases, inl, inr, ◌≡◌, refl, sym, ◌∙◌, ap, arith,
}
use lif.RecentMap.{find, contains, without, Distinct}
use lif.RecentMap.Bound.{append-Distinct, without-Distinct}
use lif.Catalog.Entries.{FetchState, pending, is_state, TorrentEntry, new_entry}
use lif.Catalog.Store.{Objects, Heap, Store, update, modify, add_one, less_one, set_state, create}
use lif.Catalog.Eviction.{remove_from_store}
use lif.Catalog.Tally.{
  Named, tally, tally-update_same, tally-update, tally-without, tally-append, update_at,
  update_other,
}

unfoldable pub in_state : FetchState → TorrentEntry → ℕ
in_state t e = if is_state t e.fetch_state then 1 else 0

-- Every hash is there once, names the object under it, and the counts by state are those of the entries.
pub record WellFormed (s : Store) : Type 0 where
  pub distinct : Distinct s.entries
  pub named : Named s.heap s.entries
  pub below : All (λ x. x.1 < s.allocated) s.entries
  pub counted : (t : FetchState) → s.state_counts t ≡ tally (in_state t) s.heap s.entries

-- A change of the object leaves its name and its state.
abbrev pub Quiet : (TorrentEntry → TorrentEntry) → Type 0
Quiet change =
    (e : TorrentEntry)
    → ((change e).info_hash ≡ e.info_hash) × ((change e).fetch_state ≡ e.fetch_state)

pub update_name :
    (o : ℕ) (e : TorrentEntry) (heap : Heap) (i : ℕ)
    → e.info_hash ≡ (heap o).info_hash
    → (update o e heap i).info_hash ≡ (heap i).info_hash
update_name o e heap i h = elim (Bool-cases (i == o)) [
  | inl f ↦ let same = (==_iff i o).0 f in rw (same, update_at o e heap) h
  | inr f ↦ rw (update_other o i e heap f) refl
]

update-Named :
    (o : ℕ) (e : TorrentEntry) (heap : Heap) (m : Objects)
    → e.info_hash ≡ (heap o).info_hash
    → Named heap m
    → Named (update o e heap) m
update-Named o e heap [] h a = tt
update-Named o e heap ((k, i) ∷ m) h a =
    (update_name o e heap i h ∙ a.0, update-Named o e heap m h a.1)

pub modify-WellFormed :
    (o : ℕ) (change : TorrentEntry → TorrentEntry) (s : Store)
    → Quiet change
    → WellFormed s
    → WellFormed (modify o change s)
unfolding modify in_state
modify-WellFormed o change s q w = record {
  distinct = w.distinct;
  named = update-Named o (change (s.heap o)) s.heap s.entries (q (s.heap o)).0 w.named;
  below = w.below;
  counted = λ t.
      w.counted t
      ∙ sym (tally-update_same (in_state t) s.heap o (change (s.heap o)) s.entries (same t));
}
  where
    same : (t : FetchState) → in_state t (change (s.heap o)) ≡ in_state t (s.heap o)
    same t = rw (q (s.heap o)).1 refl

-- The counts after a move from `old` to `state`; `others` is the tally of the other entries.
counted_move :
    (old state t : FetchState) (counts : FetchState → ℕ) (others before after : ℕ)
    → counts t ≡ before
    → after + (if is_state t old then 1 else 0) ≡ before + (if is_state t state then 1 else 0)
    → others + (if is_state t old then 1 else 0) ≡ before
    → add_one state (less_one old counts) t ≡ after
unfolding add_one less_one
counted_move old state t counts others before after h k l = ground arith

pub set_state-WellFormed :
    (state : FetchState) (k : Bytes) (o : ℕ) (s : Store)
    → find k s.entries ≡ some o
    → WellFormed s
    → WellFormed (set_state state o s)
unfolding set_state modify in_state
set_state-WellFormed state k o s f w =
    let moved = record (s.heap o) { fetch_state = state } in
    record {
      distinct = w.distinct;
      named = update-Named o moved s.heap s.entries refl w.named;
      below = w.below;
      counted = λ t.
          counted_move (s.heap o).fetch_state state t s.state_counts
            (tally (in_state t) s.heap (without k s.entries)) (tally (in_state t) s.heap s.entries)
            (tally (in_state t) (update o moved s.heap) s.entries) (w.counted t)
            (tally-update (in_state t) s.heap k o moved s.entries w.named w.distinct f)
            (tally-without (in_state t) s.heap k o s.entries w.distinct f);
    }

update-above :
    (o : ℕ) (e : TorrentEntry) (heap : Heap) (m : Objects)
    → All (λ x. x.1 < o) m
    → (Named heap m → Named (update o e heap) m)
      × ((measure : TorrentEntry → ℕ) → tally measure (update o e heap) m ≡ tally measure heap m)
unfolding tally
update-above o e heap [] b = (λ a. tt, λ measure. refl)
update-above o e heap ((k, i) ∷ m) b =
    let other : (i == o) ≡ false = ground arith in
    let (name, sum) = update-above o e heap m b.1 in
    rw (update_other o i e heap other) (λ a. (a.0, name a.1), λ measure. rw (sum measure) refl)

All-above : (o : ℕ) (m : Objects) → All (λ x. x.1 < o) m → All (λ x. x.1 < suc o) m
All-above o [] a = tt
All-above o (x ∷ m) a = (omega (arith, a.0), All-above o m a.1)

pub All-end :
    (P : Bytes × ℕ → Type 0) (m : Objects) (x : Bytes × ℕ) → All P m → P x → All P (m ++ x ∷ [])
All-end P [] x a p = (p, tt)
All-end P (y ∷ m) x a p = (a.0, All-end P m x a.1 p)

created_name : (k : Bytes) (now : ℕ) → (new_entry k now).info_hash ≡ k
unfolding new_entry
created_name k now = refl

created_state : (k : Bytes) (now : ℕ) → (new_entry k now).fetch_state ≡ pending
unfolding new_entry
created_state k now = refl

created_count :
    (t : FetchState) (e : TorrentEntry) (counts : FetchState → ℕ) (before : ℕ)
    → e.fetch_state ≡ pending
    → counts t ≡ before
    → add_one pending counts t ≡ before + in_state t e
unfolding add_one in_state
created_count t e counts before h k = rw h (ground arith)

pub create-WellFormed :
    (k : Bytes) (now : ℕ) (checked : Bool) (s : Store)
    → contains k s.entries ≡ false
    → WellFormed s
    → WellFormed (create k now checked s)
unfolding create
create-WellFormed k now checked s h w =
    let e = record (new_entry k now) { database_checked = checked } in
    let (name, sum) = update-above s.allocated e s.heap s.entries w.below in
    record {
      distinct = append-Distinct k s.allocated s.entries h w.distinct;
      named =
          All-end _ s.entries (k, s.allocated) (name w.named)
            (ap (λ x. x.info_hash) (update_at s.allocated e s.heap) ∙ created_name k now);
      below =
          All-end _ s.entries (k, s.allocated) (All-above s.allocated s.entries w.below)
            (omega arith);
      counted = λ t.
          rw
            (
              tally-append (in_state t) (update s.allocated e s.heap) k s.allocated s.entries,
              sum (in_state t),
              update_at s.allocated e s.heap,
            )
            (created_count t e s.state_counts _ (created_state k now) (w.counted t));
    }

pub All-without : (P : Bytes × ℕ → Type 0) (k : Bytes) (m : Objects) → All P m → All P (without k m)
unfolding without
All-without P k [] a = tt
All-without P k ((j, i) ∷ m) a = elim (Bool-cases (byte_string_eq.beq j k)) [
  | inl f ↦ rw f (All-without P k m a.1)
  | inr f ↦ rw f (a.0, All-without P k m a.1)
]

pub remove_from_store-WellFormed :
    (k : Bytes) (o : ℕ) (s : Store)
    → find k s.entries ≡ some o
    → WellFormed s
    → WellFormed (remove_from_store k o s)
unfolding remove_from_store less_one in_state
remove_from_store-WellFormed k o s f w = record {
  distinct = without-Distinct k s.entries w.distinct;
  named = All-without _ k s.entries w.named;
  below = All-without _ k s.entries w.below;
  counted = λ t.
      ground (arith, w.counted t, tally-without (in_state t) s.heap k o s.entries w.distinct f);
}
