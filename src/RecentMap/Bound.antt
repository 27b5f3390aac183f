-- ===== src/RecentMap/Bound.antt =====
-- The mapping that `remember` of dht_scraper/bounded_recent_map.py leaves.
use lif.Common.{
  take, sym, drop-nil, ℕ, zero, suc, ◌-◌, ◌≤◌, [], ◌∷◌, ◌++◌, List, true, false, none, some, ltb,
  length, drop, ◌≡◌, ◌⊎◌, inl, inr, refl, arith, Bool-cases, Eq,
}
use lif.RecentMap.{find, contains, without, pop_oldest, remember, Distinct}

module _ {ℓ} {A : Type ℓ} where
  length-pop_oldest : (limit : ℕ) (m : List A) → length (pop_oldest limit m) ≤ limit
  unfolding pop_oldest
  length-pop_oldest limit [] = omega arith
  length-pop_oldest limit (x ∷ m) = ground (arith, length-pop_oldest limit m)

  pop_oldest-drop : (limit : ℕ) (m : List A) → pop_oldest limit m ≡ drop (length m - limit) m
  unfolding pop_oldest
  pop_oldest-drop limit [] = sym (drop-nil (0 - limit))
  pop_oldest-drop limit (x ∷ m) = elim (Bool-cases (ltb limit (length (x ∷ m)))) [
    | inl p ↦
        let n : length (x ∷ m) - limit ≡ suc (length m - limit) = ground arith in
        rw (p, n) (pop_oldest-drop limit m)
    | inr p ↦ let n : length (x ∷ m) - limit ≡ 0 = ground arith in rw (p, n)
  ]

module _ {K : Type 0} ⦃e : Eq K⦄ where
  pub beq_sym : (j k : K) → e.beq j k ≡ false → e.beq k j ≡ false
  beq_sym j k h = elim (Bool-cases (e.beq k j)) [
    | inl p ↦ cc (e.beq→eq k j p, e.beq_self j)
    | inr p ↦ p
  ]

module _ {K V : Type 0} ⦃e : Eq K⦄ where
  pub contains-without_self : (k : K) (m : List (K × V)) → contains k (without k m) ≡ false
  unfolding contains without
  contains-without_self k [] = refl
  contains-without_self k ((j, v) ∷ m) = ground (arith, contains-without_self k m)

  pub contains-without :
      (k j : K) (m : List (K × V)) → contains j m ≡ false → contains j (without k m) ≡ false
  unfolding contains without
  contains-without k j [] h = refl
  contains-without k j ((i, v) ∷ m) h = ground (arith, contains-without k j m)

  pub without-Distinct : (k : K) (m : List (K × V)) → Distinct m → Distinct (without k m)
  unfolding without
  without-Distinct k [] h = tt
  without-Distinct k ((j, v) ∷ m) h = elim (Bool-cases (e.beq j k)) [
    | inl p ↦ rw p (without-Distinct k m h.1)
    | inr p ↦ rw p (contains-without k j m h.0, without-Distinct k m h.1)
  ]

  contains-append :
      (j k : K) (v : V) (m : List (K × V))
      → contains j m ≡ false
      → e.beq k j ≡ false
      → contains j (m ++ (k, v) ∷ []) ≡ false
  unfolding contains
  contains-append j k v [] h d = rw d
  contains-append j k v ((i, w) ∷ m) h d = ground (arith, contains-append j k v m)

  pub append-Distinct :
      (k : K) (v : V) (m : List (K × V))
      → contains k m ≡ false
      → Distinct m
      → Distinct (m ++ (k, v) ∷ [])
  unfolding contains
  append-Distinct k v [] h d = (refl, tt)
  append-Distinct k v ((j, w) ∷ m) h d = (
    contains-append j k v m d.0 (beq_sym j k (ground arith)),
    append-Distinct k v m (ground arith) d.1,
  )

  contains-pop_oldest :
      (limit : ℕ) (j : K) (m : List (K × V))
      → contains j m ≡ false
      → contains j (pop_oldest limit m) ≡ false
  unfolding contains pop_oldest
  contains-pop_oldest limit j [] h = refl
  contains-pop_oldest limit j ((i, w) ∷ m) h = ground (arith, contains-pop_oldest limit j m)

  pop_oldest-Distinct : (limit : ℕ) (m : List (K × V)) → Distinct m → Distinct (pop_oldest limit m)
  unfolding pop_oldest
  pop_oldest-Distinct limit [] h = tt
  pop_oldest-Distinct limit (x ∷ m) h = elim (Bool-cases (ltb limit (length (x ∷ m)))) [
    | inl p ↦ rw p (pop_oldest-Distinct limit m h.1)
    | inr p ↦ rw p h
  ]

  pub find-append :
      (k : K) (v : V) (m : List (K × V)) → contains k m ≡ false → find k (m ++ (k, v) ∷ []) ≡ some v
  unfolding find contains
  find-append k v [] h = rw (e.beq_self k)
  find-append k v ((j, w) ∷ m) h = ground (arith, find-append k v m)

  find-pop_oldest-append :
      (limit : ℕ) (k : K) (v : V) (m : List (K × V))
      → 1 ≤ limit
      → contains k m ≡ false
      → find k (pop_oldest limit (m ++ (k, v) ∷ [])) ≡ some v
  unfolding find contains pop_oldest
  find-pop_oldest-append limit k v [] p h = ground (arith, e.beq_self k)
  find-pop_oldest-append limit k v ((j, w) ∷ m) p h =
      ground (arith, find-pop_oldest-append limit k v m p, find-append k v m)

  -- With a limit of at least 1, over distinct keys: the keys stay distinct, there are at most `limit`,
  -- the key that is remembered has its value, and the mapping is what is left, oldest first, of the
  -- other keys in their order with the key at the end, when the oldest are taken off.
  pub remember_lem :
      (m : List (K × V)) (k : K) (v : V) (limit : ℕ)
      → 1 ≤ limit
      → Distinct m
      → let kept = without k m ++ (k, v) ∷ [] in
        Distinct (remember m k v limit).0
        × (length (remember m k v limit).0 ≤ limit)
        × (find k (remember m k v limit).0 ≡ some v)
        × ((remember m k v limit).0 ≡ drop (length kept - limit) kept)
  unfolding remember
  remember_lem m k v limit p d =
      let fresh = contains-without_self k m in
      (
        pop_oldest-Distinct limit _
            (append-Distinct k v (without k m) fresh (without-Distinct k m d)),
        length-pop_oldest limit _,
        find-pop_oldest-append limit k v (without k m) p fresh,
        pop_oldest-drop limit _,
      )

  find-lacking : (j : K) (m : List (K × V)) → contains j m ≡ false → find j m ≡ none
  unfolding find contains
  find-lacking j [] h = refl
  find-lacking j ((i, v) ∷ m) h = ground (arith, find-lacking j m)

  contains-drop :
      (n : ℕ) (j : K) (m : List (K × V)) → contains j m ≡ false → contains j (drop n m) ≡ false
  unfolding contains
  contains-drop zero j m h = h
  contains-drop (suc n) j [] h = refl
  contains-drop (suc n) j ((i, w) ∷ m) h = contains-drop n j m (ground arith)

  -- Of distinct keys, one keeps its value unless it is among the first `n`.
  find-drop :
      (n : ℕ) (j : K) (m : List (K × V))
      → Distinct m
      → (find j (drop n m) ≡ find j m)
        ⊎ ((find j (drop n m) ≡ none) × (contains j (take n m) ≡ true))
  unfolding find contains
  find-drop zero j m d = inl refl
  find-drop (suc n) j [] d = inl refl
  find-drop (suc n) j ((i, v) ∷ m) d = elim (Bool-cases (e.beq i j)) [
    | inl q ↦
        inr (
          find-lacking j (drop n m) (contains-drop n j m (rw (e.beq→eq i j q) at (d.0))),
          rw q refl,
        )
    | inr q ↦ rw q (find-drop n j m d.1)
  ]

  pub find-without :
      (k j : K) (m : List (K × V)) → e.beq k j ≡ false → find j (without k m) ≡ find j m
  unfolding find without
  find-without k j [] h = refl
  find-without k j ((i, v) ∷ m) h = elim (Bool-cases (e.beq i k)) [
    | inl p ↦ rw (p, e.beq→eq i k p, h) (find-without k j m h)
    | inr p ↦ rw p (ground (arith, find-without k j m h))
  ]

  pub find-append_ne :
      (j k : K) (v : V) (m : List (K × V))
      → e.beq k j ≡ false
      → find j (m ++ (k, v) ∷ []) ≡ find j m
  unfolding find
  find-append_ne j k v [] h = rw h
  find-append_ne j k v ((i, w) ∷ m) h = ground (arith, find-append_ne j k v m h)

  -- Over distinct keys: another key keeps its value, unless it was one of the oldest that had to go for
  -- the limit: then it is gone.
  pub find-remember_ne :
      (m : List (K × V)) (k j : K) (v : V) (limit : ℕ)
      → Distinct m
      → e.beq k j ≡ false
      → let kept = without k m ++ (k, v) ∷ [] in
        (find j (remember m k v limit).0 ≡ find j m)
        ⊎ ((find j (remember m k v limit).0 ≡ none)
            × (contains j (take (length kept - limit) kept) ≡ true))
  unfolding remember
  find-remember_ne m k j v limit d h =
      let kept = without k m ++ (k, v) ∷ [] in
      rw
        (← find-without k j m h, ← find-append_ne j k v (without k m) h, pop_oldest-drop limit kept)
        (find-drop (length kept - limit) j kept
          (append-Distinct k v (without k m) (contains-without_self k m) (without-Distinct k m d)))
