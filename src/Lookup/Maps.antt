-- ===== src/Lookup/Maps.antt =====
-- Dicts under assignment and removal, and tests.
use lif.Common.{
  suc, ◌≤◌, List, [], ◌∷◌, Bool, true, false, some, none, length, if◌then◌else◌, Eq, byte_string_eq,
  nat_eq, pair_eq, All, Bool-cases, inl, inr, ◌≡◌, refl, ap, arith,
}
use lif.RecentMap.{find, contains, without}
use lif.Lookup.State.{assign}

module _ {K V : Type 0} ⦃e : Eq K⦄ where
  pub length-assign : (k : K) (v : V) (m : List (K × V)) → length (assign k v m) ≤ suc (length m)
  unfolding assign
  length-assign k v [] = omega arith
  length-assign k v ((j, w) ∷ m) = elim (Bool-cases (e.beq j k)) [
    | inl h ↦ rw h (omega arith)
    | inr h ↦ rw h (omega (arith, length-assign k v m))
  ]

  pub length-assign_known :
      (k : K) (v : V) (m : List (K × V)) → contains k m ≡ true → length (assign k v m) ≡ length m
  unfolding assign contains
  length-assign_known k v [] h = cc
  length-assign_known k v ((j, w) ∷ m) h = elim (Bool-cases (e.beq j k)) [
    | inl f ↦ rw f refl
    | inr f ↦ rw f (ap suc (length-assign_known k v m (rw f at h)))
  ]

  pub contains-assign : (k : K) (v : V) (m : List (K × V)) → contains k (assign k v m) ≡ true
  unfolding assign contains
  contains-assign k v [] = rw (e.beq_self k) refl
  contains-assign k v ((j, w) ∷ m) = elim (Bool-cases (e.beq j k)) [
    | inl f ↦ rw (f, f) refl
    | inr f ↦ rw (f, f) (contains-assign k v m)
  ]

  pub length-without : (k : K) (m : List (K × V)) → length (without k m) ≤ length m
  unfolding without
  length-without k [] = omega arith
  length-without k ((j, w) ∷ m) = elim (Bool-cases (e.beq j k)) [
    | inl f ↦ rw f (omega (arith, length-without k m))
    | inr f ↦ rw f (omega (arith, length-without k m))
  ]

  pub assign-All :
      (Q : V → Type 0) (k : K) (v : V) (m : List (K × V))
      → Q v
      → All (λ x. Q x.1) m
      → All (λ x. Q x.1) (assign k v m)
  unfolding assign
  assign-All Q k v [] p a = (p, tt)
  assign-All Q k v ((j, w) ∷ m) p a = elim (Bool-cases (e.beq j k)) [
    | inl f ↦ rw f (p, a.1)
    | inr f ↦ rw f (a.0, assign-All Q k v m p a.1)
  ]

  pub without-All : (P : K × V → Type 0) (k : K) (m : List (K × V)) → All P m → All P (without k m)
  unfolding without
  without-All P k [] a = tt
  without-All P k ((j, w) ∷ m) a = elim (Bool-cases (e.beq j k)) [
    | inl f ↦ rw f (without-All P k m a.1)
    | inr f ↦ rw f (a.0, without-All P k m a.1)
  ]

  pub find-All :
      (Q : V → Type 0) (k : K) (v : V) (m : List (K × V))
      → All (λ x. Q x.1) m
      → find k m ≡ some v
      → Q v
  unfolding find
  find-All Q k v [] a h = cc
  find-All Q k v ((j, w) ∷ m) a h = elim (Bool-cases (e.beq j k)) [
    | inl f ↦ let found : some w ≡ some v = rw f at h in let same : w ≡ v = cc in rw (← same) (a.0)
    | inr f ↦ find-All Q k v m a.1 (rw f at h)
  ]

  pub contains-find : (k : K) (v : V) (m : List (K × V)) → find k m ≡ some v → contains k m ≡ true
  unfolding find contains
  contains-find k v [] h = cc
  contains-find k v ((j, w) ∷ m) h = elim (Bool-cases (e.beq j k)) [
    | inl f ↦ rw f refl
    | inr f ↦ rw f (contains-find k v m (rw f at h))
  ]

-- Both branches, each where its test sends it.
pub if-either :
    {A : Type 0} (P : A → Type 0) (b : Bool) (x y : A)
    → (b ≡ true → P x)
    → (b ≡ false → P y)
    → P (if b then x else y)
if-either P true x y h k = h refl
if-either P false x y h k = k refl

module _ {K V : Type 0} ⦃e : Eq K⦄ where
  pub find-assign : (k : K) (v : V) (m : List (K × V)) → find k (assign k v m) ≡ some v
  unfolding find assign
  find-assign k v [] = rw (e.beq_self k) refl
  find-assign k v ((j, w) ∷ m) = elim (Bool-cases (e.beq j k)) [
    | inl f ↦ rw (f, f) refl
    | inr f ↦ rw (f, f) (find-assign k v m)
  ]

  pub find-assign_ne :
      (k j : K) (v : V) (m : List (K × V)) → e.beq k j ≡ false → find j (assign k v m) ≡ find j m
  unfolding find assign
  find-assign_ne k j v [] h = rw h refl
  find-assign_ne k j v ((i, w) ∷ m) h = elim (Bool-cases (e.beq i k)) [
    | inl f ↦ let other : e.beq i j ≡ false = rw (e.beq→eq i k f) h in rw (f, other) refl
    | inr f ↦ rw f (ap (λ o. if e.beq i j then some w else o) (find-assign_ne k j v m h))
  ]

  pub contains-assign_kept :
      (k j : K) (v : V) (m : List (K × V)) → contains j m ≡ true → contains j (assign k v m) ≡ true
  unfolding contains assign
  contains-assign_kept k j v [] h = cc
  contains-assign_kept k j v ((i, w) ∷ m) h = elim (Bool-cases (e.beq i k)) [
    | inl f ↦ rw f h
    | inr f ↦ elim (Bool-cases (e.beq i j)) [
      | inl g ↦ rw (f, g) refl
      | inr g ↦ rw (f, g) (contains-assign_kept k j v m (rw g at h))
    ]
  ]

  pub contains-without_ne :
      (k j : K) (m : List (K × V)) → e.beq k j ≡ false → contains j (without k m) ≡ contains j m
  unfolding contains without
  contains-without_ne k j [] h = refl
  contains-without_ne k j ((i, w) ∷ m) h = elim (Bool-cases (e.beq i k)) [
    | inl f ↦
        let other : e.beq i j ≡ false = rw (e.beq→eq i k f) h in
        rw (f, other) (contains-without_ne k j m h)
    | inr f ↦ rw f (ap (λ o. if e.beq i j then true else o) (contains-without_ne k j m h))
  ]

  pub find-without_self : (k : K) (m : List (K × V)) → find k (without k m) ≡ none
  unfolding find without
  find-without_self k [] = refl
  find-without_self k ((i, w) ∷ m) = elim (Bool-cases (e.beq i k)) [
    | inl f ↦ rw f (find-without_self k m)
    | inr f ↦ rw (f, f) (find-without_self k m)
  ]

  pub contains-find-none : (k : K) (m : List (K × V)) → find k m ≡ none → contains k m ≡ false
  unfolding find contains
  contains-find-none k [] h = refl
  contains-find-none k ((i, w) ∷ m) h = elim (Bool-cases (e.beq i k)) [
    | inl f ↦ absurd (cc (rw f at h))
    | inr f ↦ rw f (contains-find-none k m (rw f at h))
  ]
