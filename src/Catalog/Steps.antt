-- ===== src/Catalog/Steps.antt =====
-- The invariant of the catalog through the steps of its public methods.
use lif.Common.{
  ℕ, suc, List, [], ◌∷◌, ◌++◌, true, ◌&&◌, Option, none, some, Bytes, ==_iff, All, byte_string_eq,
  Bool-cases, Option-cases, inl, inr, ◌≡◌, refl, ◌∙◌, ap, arith,
}
use lif.RecentMap.{without}
use lif.Catalog.Entries.{Peer, pending, in_progress, done, failed, Source, is_state, is_some}
use lif.Catalog.Store.{Objects}
use lif.Catalog.State.{
  Catalog, entry_at, object_of, add_peer, forget_known, is_current, drop_unwritten_metadata,
  queue_document, member, set_or_empty,
}
use lif.Catalog.Operations.{
  add_known_peers, add_sender, count_sighting, unlist_lookup, track_counters, count_observation,
  record_sighting, end_lookup, retry_lookup, claim_lookups, claim_fetches, after_failure,
}
use lif.Catalog.Counts.{All-without}
use lif.Catalog.Keeps.{
  Inside, Consistent, Keeps, Present, keep_all, then-Keeps, stays, if-Keeps, idle-Keeps, when-Keeps,
  then_change, then_move, then_index,
}
use lif.Catalog.Tally.{find-Named}

pub add_peer-Keeps : (o : ℕ) (p : Peer) (c : Catalog) → Keeps c (add_peer o p c).0
unfolding add_peer
add_peer-Keeps o p c = elim (Bool-cases (member p (set_or_empty (entry_at o c).failed_peers))) [
  | inl h ↦ rw h keep_all
  | inr h ↦ rw h (then_change o _ keep_all (λ e. (refl, refl)))
]

pub add_known_peers-Keeps :
    (o : ℕ) (ps : List Peer) (c : Catalog) → Keeps c (add_known_peers o ps c).0
unfolding add_known_peers
add_known_peers-Keeps o [] c = keep_all
add_known_peers-Keeps o (p ∷ ps) c =
    then-Keeps (add_peer-Keeps o p c) (add_known_peers-Keeps o ps _)

add_sender-Keeps : (o : ℕ) (p : Option Peer) (c : Catalog) → Keeps c (add_sender o p c)
unfolding add_sender
add_sender-Keeps o none c = keep_all
add_sender-Keeps o (some p) c = if-Keeps _ keep_all (add_peer-Keeps o p c)

pub forget_known-Keeps : (o : ℕ) (c : Catalog) → Keeps c (forget_known o c)
unfolding forget_known
forget_known-Keeps o c =
    if-Keeps _ (then_change o _ (idle-Keeps refl refl refl refl refl) (λ e. (refl, refl))) keep_all

pub end_lookup-Keeps : (o : ℕ) (c : Catalog) → Keeps c (end_lookup o c)
unfolding end_lookup
end_lookup-Keeps o c =
    if-Keeps _ (then_change o _ (idle-Keeps refl refl refl refl refl) (λ e. (refl, refl))) keep_all

current-Present : (o : ℕ) (c : Catalog) → is_current o c ≡ true → Present o c
unfolding is_current
current-Present o c h = elim (Option-cases (object_of (entry_at o c).info_hash c)) [
  | inl e ↦ absurd (cc (rw (e, is_current) at h))
  | inr (i, e) ↦ e ∙ ap some ((==_iff i o).0 (rw (e, is_current) at h))
]

drop_unwritten_metadata-Keeps : (o : ℕ) (c : Catalog) → Keeps c (drop_unwritten_metadata o c)
unfolding drop_unwritten_metadata
drop_unwritten_metadata-Keeps o c =
    when-Keeps
      (is_current o c
        && is_some (entry_at o c).metadata
        && is_state (entry_at o c).fetch_state done)
      (λ h.
        let p = current-Present o c (ground arith) in
        then_index o p (
          then_move pending o p
            (then_change o _ (idle-Keeps refl refl refl refl refl) (λ e. (refl, refl)))))
      keep_all

pub queue_document-Keeps : (o : ℕ) (c : Catalog) → Keeps c (queue_document o c)
unfolding queue_document
queue_document-Keeps o c = if-Keeps _ idle (
    if-Keeps _ (first (c.index_documents ++ ((entry_at o c).info_hash, o) ∷ []))
      (idle-Keeps refl refl refl refl refl))
  where
    key : Bytes
    key = (entry_at o c).info_hash

    cleared : Catalog
    cleared = record c { index_counters = without key c.index_counters }

    idle : Keeps c cleared
    idle = idle-Keeps refl refl refl refl refl

    first :
        (queue : Objects)
        → Keeps c (elim queue [
          | [] ↦ cleared
          | oldest ∷ rest ↦
              drop_unwritten_metadata oldest.1
                (record cleared { index_documents = rest; index_dropped = suc c.index_dropped })
        ])
    first [] = idle
    first (x ∷ rest) =
        then-Keeps (idle-Keeps refl refl refl refl refl) (drop_unwritten_metadata-Keeps x.1 _)

count_sighting-Keeps :
    (o : ℕ) (source : Source) (moment : ℕ) (c : Catalog)
    → Keeps c (count_sighting o source moment c)
unfolding count_sighting
count_sighting-Keeps o source moment c = then_change o _ keep_all (λ e. (refl, refl))

unlist_lookup-Keeps : (o : ℕ) (c : Catalog) → Keeps c (unlist_lookup o c)
unfolding unlist_lookup
unlist_lookup-Keeps o c = record {
  entries_same = refl;
  names_same = λ i. refl;
  settings_same = refl;
  still = λ w. record {
    store_ok = w.store_ok;
    fetch_ok = w.fetch_ok;
    lookup_ok = All-without _ (entry_at o c).info_hash c.needs_lookup w.lookup_ok;
    check_ok = w.check_ok;
  };
}

track_counters-Keeps : (o : ℕ) (c : Catalog) → Keeps c (track_counters o c)
unfolding track_counters
track_counters-Keeps o c = if-Keeps _ (idle-Keeps refl refl refl refl refl) keep_all

count_observation-Keeps : (c : Catalog) → Keeps c (count_observation c)
unfolding count_observation
count_observation-Keeps c = idle-Keeps refl refl refl refl refl

pub record_sighting-Keeps :
    (o : ℕ) (source : Source) (p : Option Peer) (moment : ℕ) (c : Catalog)
    → Present o c
    → Keeps c (record_sighting o source p moment c)
unfolding record_sighting
record_sighting-Keeps o source p moment c h =
    let met = then-Keeps (count_sighting-Keeps o source moment c) (add_sender-Keeps o p _) in
    let listed = then_index o h (then-Keeps met (unlist_lookup-Keeps o _)) in
    then-Keeps (then-Keeps listed (track_counters-Keeps o _)) (count_observation-Keeps _)

pub retry_lookup-Keeps :
    (o moment : ℕ) (c : Catalog) → Present o c → Keeps c (retry_lookup o moment c)
unfolding retry_lookup
retry_lookup-Keeps o moment c h =
    let later = then_change o _ keep_all (λ e. (refl, refl)) in
    if-Keeps _ (then_move failed o h (then_change o _ later (λ e. (refl, refl)))) later

pub after_failure-Keeps :
    (o moment : ℕ) (c : Catalog) → Present o c → Keeps c (after_failure o moment c)
unfolding after_failure
after_failure-Keeps o moment c h = if-Keeps _ (then_move failed o h keep_all) (
    if-Keeps _ (then_move failed o h (then_change o _ keep_all (λ e. (refl, refl)))) (
      if-Keeps _ (then_move pending o h keep_all)
        (then_change o _ (then_move pending o h keep_all) (λ e. (refl, refl)))))

-- The objects of an index are entries.
pub objects-Present :
    (c : Catalog) (m : Objects)
    → Consistent c
    → Inside c.store.entries m
    → All (λ x. Present x.1 c) m
objects-Present c [] w a = tt
objects-Present c (x ∷ m) w a = (
  rw (find-Named c.store.heap x.0 x.1 c.store.entries w.store_ok.named a.0) a.0,
  objects-Present c m w a.1,
)

pub stays_each :
    {c c' : Catalog} (m : Objects)
    → Keeps c c'
    → All (λ x. Present x.1 c) m
    → All (λ x. Present x.1 c') m
stays_each [] k a = tt
stays_each (x ∷ m) k a = (stays k x.1 a.0, stays_each m k a.1)

pub claim_lookups-Keeps :
    (m : Objects) (c : Catalog) → All (λ x. Present x.1 c) m → Keeps c (claim_lookups m c)
unfolding claim_lookups
claim_lookups-Keeps [] c a = keep_all
claim_lookups-Keeps (x ∷ m) c a =
    let one =
      then_index x.1 a.0
        (then_change x.1 _ (idle-Keeps refl refl refl refl refl) (λ e. (refl, refl))) in
    then-Keeps one (claim_lookups-Keeps m _ (stays_each m one a.1))

pub claim_fetches-Keeps :
    (m : Objects) (c : Catalog) → All (λ x. Present x.1 c) m → Keeps c (claim_fetches m c).0
unfolding claim_fetches
claim_fetches-Keeps [] c a = keep_all
claim_fetches-Keeps (x ∷ m) c a =
    let one = then_index x.1 a.0 (then_move in_progress x.1 a.0 keep_all) in
    then-Keeps one (claim_fetches-Keeps m _ (stays_each m one a.1))
