-- ===== src/Catalog/Tally.antt =====
-- Sums over the entries of the catalog, and how a change of one object changes them.
use lif.Common.{
  ℕ, ◌+◌, [], ◌∷◌, ◌++◌, true, false, some, Bytes, ◌==◌, ==_iff, ==_self, All, byte_string_eq,
  Bool-cases, inl, inr, ◌≡◌, refl, sym, ◌∙◌, ap, arith,
}
use lif.RecentMap.{find, contains, without, Distinct}
use lif.Catalog.Entries.{TorrentEntry}
use lif.Catalog.Store.{Objects, Heap, update}

-- Every object has the hash under which it is found.
abbrev pub Named : Heap → Objects → Type 0
Named heap m = All (λ x. (heap x.1).info_hash ≡ x.0) m

pub update_at : (o : ℕ) (e : TorrentEntry) (heap : Heap) → update o e heap o ≡ e
unfolding update
update_at o e heap = simp (==_self o)

pub update_other :
    (o i : ℕ) (e : TorrentEntry) (heap : Heap) → (i == o) ≡ false → update o e heap i ≡ heap i
unfolding update
update_other o i e heap h = simp h

pub find-Named :
    (heap : Heap) (k : Bytes) (o : ℕ) (m : Objects)
    → Named heap m
    → find k m ≡ some o
    → (heap o).info_hash ≡ k
unfolding find
find-Named heap k o [] a h = cc
find-Named heap k o ((j, i) ∷ m) a h = elim (Bool-cases (byte_string_eq.beq j k)) [
  | inl f ↦
      let found : some i ≡ some o = rw f at h in
      let same : i ≡ o = cc in
      ap (λ x. (heap x).info_hash) (sym same) ∙ a.0 ∙ byte_string_eq.beq→eq j k f
  | inr f ↦ find-Named heap k o m a.1 (rw f at h)
]

without_absent : (k : Bytes) (m : Objects) → contains k m ≡ false → without k m ≡ m
unfolding contains without
without_absent k [] h = refl
without_absent k ((j, i) ∷ m) h = elim (Bool-cases (byte_string_eq.beq j k)) [
  | inl f ↦ absurd (cc (rw f at h))
  | inr f ↦ rw (f, without_absent k m (rw f at h)) refl
]

same_key : (k j : Bytes) → k ≡ j → byte_string_eq.beq j k ≡ true
same_key k j h = rw h (byte_string_eq.beq_self j)

module _ (measure : TorrentEntry → ℕ) where
  unfoldable pub tally : Heap → Objects → ℕ
  tally heap [] = 0
  tally heap ((k, o) ∷ m) = measure (heap o) + tally heap m

  pub tally-update_same :
      (heap : Heap) (o : ℕ) (e : TorrentEntry) (m : Objects)
      → measure e ≡ measure (heap o)
      → tally (update o e heap) m ≡ tally heap m
  unfolding tally update
  tally-update_same heap o e [] h = refl
  tally-update_same heap o e ((k, i) ∷ m) h = elim (Bool-cases (i == o)) [
    | inl f ↦ let same = (==_iff i o).0 f in rw (f, tally-update_same heap o e m h, same, h) refl
    | inr f ↦ rw (f, tally-update_same heap o e m h) refl
  ]

  tally-update_absent :
      (heap : Heap) (k : Bytes) (o : ℕ) (e : TorrentEntry) (m : Objects)
      → Named heap m
      → (heap o).info_hash ≡ k
      → contains k m ≡ false
      → tally (update o e heap) m ≡ tally heap m
  unfolding tally update contains
  tally-update_absent heap k o e [] a n h = refl
  tally-update_absent heap k o e ((j, i) ∷ m) a n h = elim (Bool-cases (byte_string_eq.beq j k)) [
    | inl f ↦ absurd (cc (rw f at h))
    | inr f ↦ elim (Bool-cases (i == o)) [
      | inl g ↦ absurd (
          cc
            (f, same_key k j (sym n ∙ ap (λ i. (heap i).info_hash) (sym ((==_iff i o).0 g)) ∙ a.0)))
      | inr g ↦ rw (g, tally-update_absent heap k o e m a.1 n (rw f at h)) refl
    ]
  ]

  pub tally-update :
      (heap : Heap) (k : Bytes) (o : ℕ) (e : TorrentEntry) (m : Objects)
      → Named heap m
      → Distinct m
      → find k m ≡ some o
      → tally (update o e heap) m + measure (heap o) ≡ tally heap m + measure e
  unfolding tally find
  tally-update heap k o e [] a d h = cc
  tally-update heap k o e ((j, i) ∷ m) a d h = elim (Bool-cases (byte_string_eq.beq j k)) [
    | inl f ↦
        let found : some i ≡ some o = rw f at h in
        let same : i ≡ o = cc in
        let named = ap (λ x. (heap x).info_hash) (sym same) ∙ a.0 in
        rw (same, update_at o e heap, tally-update_absent heap j o e m a.1 named d.0) (omega arith)
    | inr f ↦
        let named = find-Named heap k o m a.1 (rw f at h) in
        elim (Bool-cases (i == o)) [
          | inl g ↦ absurd (
              cc (
                f,
                same_key k j
                    (sym named ∙ ap (λ x. (heap x).info_hash) (sym ((==_iff i o).0 g)) ∙ a.0),
              ))
          | inr g ↦
              rw (update_other o i e heap g)
                (omega (arith, tally-update heap k o e m a.1 d.1 (rw f at h)))
        ]
  ]

  pub tally-without :
      (heap : Heap) (k : Bytes) (o : ℕ) (m : Objects)
      → Distinct m
      → find k m ≡ some o
      → tally heap (without k m) + measure (heap o) ≡ tally heap m
  unfolding tally find without
  tally-without heap k o [] d h = cc
  tally-without heap k o ((j, i) ∷ m) d h = elim (Bool-cases (byte_string_eq.beq j k)) [
    | inl f ↦
        let found : some i ≡ some o = rw f at h in
        let same : i ≡ o = cc in
        let absent : contains k m ≡ false = rw (sym (byte_string_eq.beq→eq j k f)) d.0 in
        rw (f, without_absent k m absent, same) (omega arith)
    | inr f ↦ rw f (omega (arith, tally-without heap k o m d.1 (rw f at h)))
  ]

  pub tally-append :
      (heap : Heap) (k : Bytes) (o : ℕ) (m : Objects)
      → tally heap (m ++ (k, o) ∷ []) ≡ tally heap m + measure (heap o)
  unfolding tally
  tally-append heap k o [] = omega arith
  tally-append heap k o ((j, i) ∷ m) = omega (arith, tally-append heap k o m)
