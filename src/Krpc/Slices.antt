-- ===== src/Krpc/Slices.antt =====
-- The slices of a byte string, and `decode_samples`.
use lif.Common.{
  ℕ, zero, suc, ◌+◌, ◌*◌, ◌≤◌, ◌<◌, List, [], ◌∷◌, ◌++◌, Bytes, length, drop, ltb, if◌then◌else◌,
  ◌≡◌, refl, ap, arith, All, Bool-cases, inl, inr, length-append, length-take, length-drop,
  take_left, drop_left, append_assoc, lt→ltb,
}
use lif.PeerWire.Messages.{node_id_length}
use lif.Krpc.Addresses.{slices, decode_samples}

unfoldable pub concat : List Bytes → Bytes
concat [] = []
concat (x ∷ xs) = x ++ concat xs

-- Slicing what was joined from pieces of n bytes gives the pieces back, with any fuel that is enough.
pub slices-concat :
    (fuel n : ℕ) (xs : List Bytes) (tail : Bytes)
    → 1 ≤ n
    → All (λ x. length x ≡ n) xs
    → length tail < n
    → length (concat xs ++ tail) ≤ fuel
    → slices fuel n (concat xs ++ tail) ≡ xs
unfolding slices concat
slices-concat zero n [] tail l a t f = refl
slices-concat zero n (x ∷ xs) tail l a t f =
    absurd
      (omega (arith, a.0, length-append {0} x (concat xs), length-append {0} (x ++ concat xs) tail))
slices-concat (suc fuel) n [] tail l a t f = rw (lt→ltb _ _ t) refl
slices-concat (suc fuel) n (x ∷ xs) tail l a t f =
    let rest = concat xs ++ tail in
    let total = length-append {0} x rest in
    let joined = append_assoc x (concat xs) tail in
    let fits = ap length joined in
    rw (joined, take_left n x rest a.0, drop_left n x rest a.0)
      (enough x (slices fuel n rest) (omega (arith, total, a.0))
        (slices-concat fuel n xs tail l a.1 t (omega (arith, total, a.0, fits))))
  where
    enough :
        (y : Bytes) (ys : List Bytes)
        → n ≤ length (x ++ (concat xs ++ tail))
        → ys ≡ xs
        → (if ltb (length (x ++ (concat xs ++ tail))) n then [] else y ∷ ys) ≡ y ∷ xs
    enough y ys h e = rw e (ground arith)

-- The slices of any input are of n bytes, and as many as fit in it.
pub slices-All :
    (fuel n : ℕ) (input : Bytes)
    → 1 ≤ n
    → length input ≤ fuel
    → All (λ x. length x ≡ n) (slices fuel n input)
      × (length (slices fuel n input) * n ≤ length input)
      × (length input < (length (slices fuel n input) + 1) * n)
unfolding slices
slices-All zero n input l f = (tt, omega arith, omega arith)
slices-All (suc fuel) n input l f = elim (Bool-cases (ltb (length input) n)) [
  | inl e ↦ rw e (tt, omega arith, ground arith)
  | inr e ↦
      let left = length-drop n input in
      let first = length-take n input in
      let long : n ≤ length input = ground arith in
      let rest = slices-All fuel n (drop n input) l (omega (arith, left)) in
      rw e
        ((omega (arith, first), rest.0), omega (arith, left, rest.1), omega (arith, left, rest.2))
]

-- From samples of 20 bytes joined by their sender, with less than a sample behind them, `decode_samples`
-- returns these samples, in order.
pub decode_samples-concat :
    (xs : List Bytes) (tail : Bytes)
    → All (λ x. length x ≡ node_id_length) xs
    → length tail < node_id_length
    → decode_samples (concat xs ++ tail) ≡ xs
unfolding decode_samples
decode_samples-concat xs tail a t =
    slices-concat (length (concat xs ++ tail)) node_id_length xs tail (omega arith) a t
      (omega arith)
