-- ===== src/Catalog/Victims.antt =====
-- The entries that an eviction (`_evict_locked`) chooses.
use lif.Common.{
  ℕ, suc, zero, ◌-◌, ◌≤◌, [], ◌∷◌, ◌++◌, Bool, true, false, Bytes, All, All-append, All-take,
  length, length-append, length-take, take, byte_string_eq, Bool-cases, inl, inr, ◌≡◌, refl, arith,
}
use lif.RecentMap.{find, contains, Distinct}
use lif.RecentMap.Bound.{beq_sym}
use lif.Catalog.Entries.{TorrentEntry, is_evictable, eviction_key, tuple_leq}
use lif.Catalog.Store.{Objects, Heap}
use lif.Catalog.Eviction.{insert, sorted, is_worthless, select, except, choose_victims}
use lif.Catalog.Keeps.{Inside}

-- The keys of the second list are among those of the first.
abbrev Within : Objects → Objects → Type 0
Within m n = (j : Bytes) → contains j m ≡ false → contains j n ≡ false

module _ (test : TorrentEntry → Bool) (heap : Heap) where
  select-Within : (m : Objects) → Within m (select test heap m)
  unfolding select contains
  select-Within [] j h = refl
  select-Within ((k, o) ∷ m) j h = ground (arith, select-Within m j)

  select-Distinct : (m : Objects) → Distinct m → Distinct (select test heap m)
  unfolding select
  select-Distinct [] d = tt
  select-Distinct ((k, o) ∷ m) d = elim (Bool-cases (test (heap o))) [
    | inl h ↦ rw h (select-Within m k d.0, select-Distinct m d.1)
    | inr h ↦ rw h (select-Distinct m d.1)
  ]

  pub select-All : (P : Bytes × ℕ → Type 0) (m : Objects) → All P m → All P (select test heap m)
  unfolding select
  select-All P [] a = tt
  select-All P ((k, o) ∷ m) a = elim (Bool-cases (test (heap o))) [
    | inl h ↦ rw h (a.0, select-All P m a.1)
    | inr h ↦ rw h (select-All P m a.1)
  ]

  select_passes : (m : Objects) → All (λ x. test (heap x.1) ≡ true) (select test heap m)
  unfolding select
  select_passes [] = tt
  select_passes ((k, o) ∷ m) = elim (Bool-cases (test (heap o))) [
    | inl h ↦ rw h (h, select_passes m)
    | inr h ↦ rw h (select_passes m)
  ]

module _ (taken : Objects) where
  except-Within : (m : Objects) → Within m (except taken m)
  unfolding except contains
  except-Within [] j h = refl
  except-Within ((k, o) ∷ m) j h = ground (arith, except-Within m j)

  except-Distinct : (m : Objects) → Distinct m → Distinct (except taken m)
  unfolding except
  except-Distinct [] d = tt
  except-Distinct ((k, o) ∷ m) d = elim (Bool-cases (contains k taken)) [
    | inl h ↦ rw h (except-Distinct m d.1)
    | inr h ↦ rw h (except-Within m k d.0, except-Distinct m d.1)
  ]

  except-All : (P : Bytes × ℕ → Type 0) (m : Objects) → All P m → All P (except taken m)
  unfolding except
  except-All P [] a = tt
  except-All P ((k, o) ∷ m) a = elim (Bool-cases (contains k taken)) [
    | inl h ↦ rw h (except-All P m a.1)
    | inr h ↦ rw h (a.0, except-All P m a.1)
  ]

  -- No key of `taken` is left.
  except_disjoint : (m : Objects) → All (λ x. contains x.0 taken ≡ false) (except taken m)
  unfolding except
  except_disjoint [] = tt
  except_disjoint ((k, o) ∷ m) = elim (Bool-cases (contains k taken)) [
    | inl h ↦ rw h (except_disjoint m)
    | inr h ↦ rw h (h, except_disjoint m)
  ]

module _ (before : ℕ → ℕ → Bool) where
  insert-contains :
      (x : Bytes × ℕ) (m : Objects) (j : Bytes)
      → byte_string_eq.beq x.0 j ≡ false
      → contains j m ≡ false
      → contains j (insert before x m) ≡ false
  unfolding insert contains
  insert-contains x [] j h k = ground arith
  insert-contains x (y ∷ m) j h k = ground (arith, insert-contains x m j h)

  insert-Distinct :
      (x : Bytes × ℕ) (m : Objects)
      → contains x.0 m ≡ false
      → Distinct m
      → Distinct (insert before x m)
  unfolding insert contains
  insert-Distinct x [] h d = (refl, tt)
  insert-Distinct x (y ∷ m) h d = elim (Bool-cases (before x.1 y.1)) [
    | inl e ↦ rw e (h, d)
    | inr e ↦
        let other = beq_sym y.0 x.0 (ground arith) in
        rw e (insert-contains x m y.0 other d.0, insert-Distinct x m (ground arith) d.1)
  ]

  insert-All :
      (P : Bytes × ℕ → Type 0) (x : Bytes × ℕ) (m : Objects)
      → P x
      → All P m
      → All P (insert before x m)
  unfolding insert
  insert-All P x [] p a = (p, tt)
  insert-All P x (y ∷ m) p a = elim (Bool-cases (before x.1 y.1)) [
    | inl e ↦ rw e (p, a)
    | inr e ↦ rw e (a.0, insert-All P x m p a.1)
  ]

  sorted-Within : (m : Objects) → Within m (sorted before m)
  unfolding sorted contains
  sorted-Within [] j h = refl
  sorted-Within (x ∷ m) j h =
      insert-contains x (sorted before m) j (ground arith) (sorted-Within m j (ground arith))

  sorted-Distinct : (m : Objects) → Distinct m → Distinct (sorted before m)
  unfolding sorted
  sorted-Distinct [] d = tt
  sorted-Distinct (x ∷ m) d =
      insert-Distinct x (sorted before m) (sorted-Within m x.0 d.0) (sorted-Distinct m d.1)

  pub sorted-All : (P : Bytes × ℕ → Type 0) (m : Objects) → All P m → All P (sorted before m)
  unfolding sorted
  sorted-All P [] a = tt
  sorted-All P (x ∷ m) a = insert-All P x (sorted before m) a.0 (sorted-All P m a.1)

take-Within : (n : ℕ) (m : Objects) → Within m (take n m)
unfolding contains
take-Within zero m j h = refl
take-Within (suc n) [] j h = refl
take-Within (suc n) (x ∷ m) j h = ground (arith, take-Within n m j)

take-Distinct : (n : ℕ) (m : Objects) → Distinct m → Distinct (take n m)
take-Distinct zero m d = tt
take-Distinct (suc n) [] d = tt
take-Distinct (suc n) (x ∷ m) d = (take-Within n m x.0 d.0, take-Distinct n m d.1)

contains-append :
    (k : Bytes) (m n : Objects)
    → contains k m ≡ false
    → contains k n ≡ false
    → contains k (m ++ n) ≡ false
unfolding contains
contains-append k [] n h l = l
contains-append k (x ∷ m) n h l = ground (arith, contains-append k m n)

avoids :
    (x : Bytes × ℕ) (m n : Objects)
    → All (λ y. contains y.0 (x ∷ m) ≡ false) n
    → (contains x.0 n ≡ false) × All (λ y. contains y.0 m ≡ false) n
unfolding contains
avoids x m [] a = (refl, tt)
avoids x m (y ∷ n) a =
    let other = beq_sym x.0 y.0 (ground arith) in
    let (none_left, rest) = avoids x m n a.1 in (simp (other, none_left), (ground arith, rest))

join-Distinct :
    (m n : Objects)
    → Distinct m
    → Distinct n
    → All (λ y. contains y.0 m ≡ false) n
    → Distinct (m ++ n)
join-Distinct [] n d e a = e
join-Distinct (x ∷ m) n d e a =
    let (apart, rest) = avoids x m n a in
    (contains-append x.0 m n d.0 apart, join-Distinct m n d.1 e rest)

-- In a dict, the value found under each key is the one that stands there.
pub Inside-self : (m : Objects) → Distinct m → Inside m m
unfolding find contains
Inside-self [] d = tt
Inside-self ((j, i) ∷ m) d = (rw (byte_string_eq.beq_self j) refl, lift m m d.0 (Inside-self m d.1))
  where
    lift : (n l : Objects) → contains j l ≡ false → Inside n l → Inside ((j, i) ∷ n) l
    lift n [] h a = tt
    lift n (x ∷ l) h a =
        let other = beq_sym x.0 j (ground arith) in (simp other a.0, lift n l (ground arith) a.1)

-- The victims are different entries of the catalog, no more than wanted, none of them claimed for a
-- fetch or a lookup.
pub record AreVictims (wanted : ℕ) (heap : Heap) (entries victims : Objects) : Type 0 where
  pub different : Distinct victims
  pub present : Inside entries victims
  pub unclaimed : All (λ x. is_evictable (heap x.1) ≡ true) victims
  pub few : length victims ≤ wanted

worthless_evictable :
    (heap : Heap) (m : Objects)
    → All (λ x. is_worthless (heap x.1) ≡ true) m
    → All (λ x. is_evictable (heap x.1) ≡ true) m
unfolding is_worthless
worthless_evictable heap [] a = tt
worthless_evictable heap (x ∷ m) a = (ground arith, worthless_evictable heap m a.1)

-- An eviction chooses different entries of the catalog, no more than it wants, and none that is
-- claimed for a fetch or a lookup.
pub choose_victims-AreVictims :
    (wanted : ℕ) (heap : Heap) (entries : Objects)
    → Distinct entries
    → AreVictims wanted heap entries (choose_victims wanted heap entries)
unfolding choose_victims
choose_victims-AreVictims wanted heap entries d =
    let listed = select is_worthless heap entries in
    let worthless = take wanted listed in
    let evictable = select is_evictable heap entries in
    let remaining = except worthless evictable in
    let before : ℕ → ℕ → Bool = λ i j. tuple_leq (eviction_key (heap i)) (eviction_key (heap j)) in
    let ranked = sorted before remaining in
    let more = take (wanted - length worthless) ranked in
    let inside = Inside-self entries d in
    record {
      different =
          join-Distinct worthless more
            (take-Distinct wanted listed (select-Distinct is_worthless heap entries d))
            (take-Distinct (wanted - length worthless) ranked (
              sorted-Distinct before remaining (
                except-Distinct worthless evictable (select-Distinct is_evictable heap entries d))))
            (All-take _ (wanted - length worthless) ranked
              (sorted-All before _ remaining (except_disjoint worthless evictable)));
      present =
          All-append _ worthless more
            (All-take _ wanted listed (select-All is_worthless heap _ entries inside))
            (All-take _ (wanted - length worthless) ranked (
              sorted-All before _ remaining (
                except-All worthless _ evictable (select-All is_evictable heap _ entries inside))));
      unclaimed =
          All-append _ worthless more
            (worthless_evictable heap worthless
              (All-take _ wanted listed (select_passes is_worthless heap entries)))
            (All-take _ (wanted - length worthless) ranked (
              sorted-All before _ remaining
                (except-All worthless _ evictable (select_passes is_evictable heap entries))));
      few = omega (
        arith,
        length-append {0} worthless more,
        length-take wanted listed,
        length-take (wanted - length worthless) ranked,
      );
    }
