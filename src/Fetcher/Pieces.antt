-- ===== src/Fetcher/Pieces.antt =====
-- The pieces of a transfer (`request_pieces`): those requested, awaited and received.
use lif.Common.{
  ℕ, zero, suc, ◌+◌, ◌≤◌, ◌<◌, List, [], ◌∷◌, ◌++◌, true, false, some, Bytes, ltb, ◌==◌, ==_iff,
  length, if◌then◌else◌, Bool-cases, inl, inr, ◌≡◌, refl, ◌∙◌, arith, All, length-append, nat_eq,
}
use lif.RecentMap.{find}
use lif.Utp.Connection.{put}
use lif.PeerWire.Messages.{piece_count, expected_piece_length}
use lif.PeerWire.Pieces.{lengths_sum, lengths_sum-piece_count}
use lif.Fetcher.Session.{is_outstanding, Transfer, discard, received, join_pieces}

-- How often a piece is awaited, and received.
unfoldable pub times : ℕ → List ℕ → ℕ
times p [] = 0
times p (q ∷ qs) = (if q == p then 1 else 0) + times p qs

unfoldable pub keys : ℕ → List (ℕ × Bytes) → ℕ
keys p [] = 0
keys p ((q, b) ∷ m) = (if q == p then 1 else 0) + keys p m

abbrev pub HasLength : ℕ → ℕ × Bytes → Type 0
HasLength size (piece, input) = length input ≡ expected_piece_length size piece

pub record Fair (size : ℕ) (t : Transfer) : Type 0 where
  pub in_range : t.next_piece ≤ piece_count size
  pub once : (p : ℕ) → p < t.next_piece → times p t.outstanding + keys p t.pieces ≡ 1
  pub later : (p : ℕ) → t.next_piece ≤ p → times p t.outstanding + keys p t.pieces ≡ 0
  pub total : length t.outstanding + length t.pieces ≡ t.next_piece
  pub whole : All (HasLength size) t.pieces

times-append :
    (p q : ℕ) (xs : List ℕ) → times p (xs ++ q ∷ []) ≡ times p xs + (if q == p then 1 else 0)
unfolding times
times-append p q [] = omega arith
times-append p q (x ∷ xs) = omega (arith, times-append p q xs)

pub request-Fair :
    (size : ℕ) (t : Transfer)
    → Fair size t
    → t.next_piece < piece_count size
    → Fair size (record t {
      outstanding = t.outstanding ++ t.next_piece ∷ [];
      next_piece = suc t.next_piece;
    })
request-Fair size t f l = record {
  in_range = omega arith;
  once = once;
  later = λ p h. later p h;
  total = omega (arith, f.total, length-append {0} t.outstanding (t.next_piece ∷ []));
  whole = f.whole;
}
  where
    once :
        (p : ℕ)
        → p < suc t.next_piece
        → times p (t.outstanding ++ t.next_piece ∷ []) + keys p t.pieces ≡ 1
    once p h = elim (Bool-cases (t.next_piece == p)) [
      | inl e ↦ ground (arith, times-append p t.next_piece t.outstanding, f.later p)
      | inr e ↦ ground (arith, times-append p t.next_piece t.outstanding, f.once p)
    ]

    later :
        (p : ℕ)
        → suc t.next_piece ≤ p
        → times p (t.outstanding ++ t.next_piece ∷ []) + keys p t.pieces ≡ 0
    later p h = ground (arith, times-append p t.next_piece t.outstanding, f.later p)

times-is_outstanding : (p : ℕ) (xs : List ℕ) → is_outstanding p xs ≡ true → 1 ≤ times p xs
unfolding times is_outstanding
times-is_outstanding p [] h = cc
times-is_outstanding p (x ∷ xs) h = elim (Bool-cases (x == p)) [
  | inl e ↦ rw e (omega arith)
  | inr e ↦ rw e (omega (arith, times-is_outstanding p xs (rw e at h)))
]

times-discard : (p : ℕ) (xs : List ℕ) → times p (discard p xs) ≡ 0
unfolding times discard
times-discard p [] = refl
times-discard p (x ∷ xs) = elim (Bool-cases (x == p)) [
  | inl e ↦ rw e (omega (arith, times-discard p xs))
  | inr e ↦ rw (e, e) (omega (arith, times-discard p xs))
]

times-discard_ne : (p q : ℕ) (xs : List ℕ) → (p == q) ≡ false → times q (discard p xs) ≡ times q xs
unfolding times discard
times-discard_ne p q [] h = refl
times-discard_ne p q (x ∷ xs) h = elim (Bool-cases (x == p)) [
  | inl e ↦
      let other : (x == q) ≡ false = rw (← (==_iff x p).0 e) at h in
      rw (e, other) (omega (arith, times-discard_ne p q xs h))
  | inr e ↦ rw e (omega (arith, times-discard_ne p q xs h))
]

length-discard : (p : ℕ) (xs : List ℕ) → length (discard p xs) + times p xs ≡ length xs
unfolding times discard
length-discard p [] = refl
length-discard p (x ∷ xs) = elim (Bool-cases (x == p)) [
  | inl e ↦ rw e (omega (arith, length-discard p xs))
  | inr e ↦ rw e (omega (arith, length-discard p xs))
]

keys-put :
    (p q : ℕ) (b : Bytes) (m : List (ℕ × Bytes))
    → keys p m ≡ 0
    → keys q (put p b m) ≡ keys q m + (if p == q then 1 else 0)
unfolding keys put
keys-put p q b [] h = omega arith
keys-put p q b ((j, v) ∷ m) h = elim (Bool-cases (j == p)) [
  | inl e ↦ absurd (ground (arith))
  | inr e ↦ rw e (omega (arith, keys-put p q b m (ground arith)))
]

length-put :
    (p : ℕ) (b : Bytes) (m : List (ℕ × Bytes)) → keys p m ≡ 0 → length (put p b m) ≡ suc (length m)
unfolding keys put
length-put p b [] h = refl
length-put p b ((j, v) ∷ m) h = elim (Bool-cases (j == p)) [
  | inl e ↦ absurd (ground (arith))
  | inr e ↦ rw e (omega (arith, length-put p b m (ground arith)))
]

put-All :
    (P : ℕ × Bytes → Type 0) (p : ℕ) (b : Bytes) (m : List (ℕ × Bytes))
    → keys p m ≡ 0
    → P (p, b)
    → All P m
    → All P (put p b m)
unfolding keys put
put-All P p b [] h k a = (k, tt)
put-All P p b ((j, v) ∷ m) h k a = elim (Bool-cases (j == p)) [
  | inl e ↦ absurd (ground (arith))
  | inr e ↦ rw e (a.0, put-All P p b m (ground arith) k a.1)
]

-- A piece that is awaited was not received.
awaited-Fair :
    (size : ℕ) (t : Transfer) (p : ℕ)
    → Fair size t
    → is_outstanding p t.outstanding ≡ true
    → (times p t.outstanding ≡ 1) × (keys p t.pieces ≡ 0)
awaited-Fair size t p f h =
    let one : times p t.outstanding + keys p t.pieces ≡ 1 =
      ground (arith, f.once p, f.later p, times-is_outstanding p t.outstanding h) in
    let some_times : 1 ≤ times p t.outstanding = times-is_outstanding p t.outstanding h in
    (omega (arith, one, some_times), omega (arith, one, some_times))

pub length-received :
    (size : ℕ) (t : Transfer) (p : ℕ) (b : Bytes)
    → Fair size t
    → is_outstanding p t.outstanding ≡ true
    → length (received (p, b) t).pieces ≡ suc (length t.pieces)
length-received size t p b f h = length-put p b t.pieces (awaited-Fair size t p f h).1

pub received-Fair :
    (size : ℕ) (t : Transfer) (p : ℕ) (b : Bytes)
    → Fair size t
    → is_outstanding p t.outstanding ≡ true
    → HasLength size (p, b)
    → Fair size (received (p, b) t)
received-Fair size t p b f h k = record {
  in_range = f.in_range;
  once = λ q l. counted q 1 (f.once q l);
  later = λ q l. counted q 0 (f.later q l);
  total = total;
  whole = put-All (HasLength size) p b t.pieces fresh k f.whole;
}
  where
    fresh : keys p t.pieces ≡ 0
    fresh = (awaited-Fair size t p f h).1

    awaited : times p t.outstanding + keys p t.pieces ≡ 1
    awaited = omega (arith, (awaited-Fair size t p f h).0, fresh)

    total : length (discard p t.outstanding) + length (put p b t.pieces) ≡ t.next_piece
    total = omega (
      arith,
      f.total,
      length-discard p t.outstanding,
      length-put p b t.pieces fresh,
      awaited,
      fresh,
    )

    counted :
        (q n : ℕ)
        → times q t.outstanding + keys q t.pieces ≡ n
        → times q (discard p t.outstanding) + keys q (put p b t.pieces) ≡ n
    counted q n e = elim (Bool-cases (p == q)) [
      | inl g ↦
          let same : p ≡ q = (==_iff p q).0 g in
          let gone : times q (discard p t.outstanding) ≡ 0 =
            rw (← same) (times-discard p t.outstanding) in
          let one : times q t.outstanding + keys q t.pieces ≡ 1 = rw (← same) awaited in
          let none_yet : keys q t.pieces ≡ 0 = rw (← same) fresh in
          ground (arith, keys-put p q b t.pieces fresh)
      | inr g ↦ ground (arith, keys-put p q b t.pieces fresh, times-discard_ne p q t.outstanding g)
    ]

find-keys :
    (size p : ℕ) (m : List (ℕ × Bytes))
    → 1 ≤ keys p m
    → All (HasLength size) m
    → (b : Bytes) × (find p m ≡ some b) × (length b ≡ expected_piece_length size p)
unfolding keys find
find-keys size p [] h a = absurd (omega arith)
find-keys size p ((j, v) ∷ m) h a = elim (Bool-cases (j == p)) [
  | inl e ↦ (v, rw e refl, a.0 ∙ rw ((==_iff j p).0 e))
  | inr e ↦
      let (b, found, sized) = find-keys size p m (ground arith) a.1 in (b, (rw e found), sized)
]

join_pieces-keys :
    (size first n last : ℕ) (m : List (ℕ × Bytes))
    → first + n ≡ last
    → ((p : ℕ) → p < last → 1 ≤ keys p m)
    → All (HasLength size) m
    → (b : Bytes) × (join_pieces first n m ≡ some b)
      × (length b + lengths_sum size first ≡ lengths_sum size last)
unfolding join_pieces lengths_sum
join_pieces-keys size first zero last m e h a =
    let same : last ≡ first = omega arith in ([], refl, rw same (omega arith))
join_pieces-keys size first (suc n) last m e h a =
    let (b, found, sized) = find-keys size first m (h first (omega arith)) a in
    let (rest, joined, added) = join_pieces-keys size (suc first) n last m (omega (arith, e)) h a in
    (b ++ rest, rw (found, joined) refl, omega (arith, sized, added, length-append {0} b rest))

times-nil : (p : ℕ) (xs : List ℕ) → length xs ≡ 0 → times p xs ≡ 0
unfolding times
times-nil p [] e = refl
times-nil p (x ∷ xs) e = absurd (omega arith)

-- With nothing left to receive, the pieces make up the metadata.
pub join_pieces-Fair :
    (size : ℕ) (t : Transfer)
    → Fair size t
    → ltb (length t.pieces) (piece_count size) ≡ false
    → (b : Bytes) × (join_pieces 0 (piece_count size) t.pieces ≡ some b) × (length b ≡ size)
unfolding lengths_sum
join_pieces-Fair size t f h =
    let (b, joined, sized) =
      join_pieces-keys size 0 (piece_count size) (piece_count size) t.pieces (omega arith) here
        f.whole in
    (b, joined, omega (arith, sized, lengths_sum-piece_count size))
  where
    here : (p : ℕ) → p < piece_count size → 1 ≤ keys p t.pieces
    here p l =
        let all : piece_count size ≤ length t.pieces = ground arith in
        let nothing : length t.outstanding ≡ 0 = omega (arith, f.total, f.in_range, all) in
        omega (arith, f.once p (omega (arith, f.total, all)), times-nil p t.outstanding nothing)
