-- ===== src/PeerWire/Pieces.antt =====
-- The division of the metadata into pieces.
use native.Mathlib.Decide.{dec_lt}
use lif.Common.{◌⊎◌, inl, inr, ℕ, zero, suc, ◌+◌, ◌*◌, ◌<◌, ◌≤◌, min, ◌≡◌, arith}
use lif.PeerWire.Messages.{metadata_piece_size, piece_count, expected_piece_length}

-- The lengths of the first `n` pieces, added up.
unfoldable pub lengths_sum : ℕ → ℕ → ℕ
lengths_sum size zero = 0
lengths_sum size (suc n) = lengths_sum size n + expected_piece_length size n

-- Of a size that is not 0, each piece is from 1 byte to METADATA_PIECE_SIZE bytes long, and only the
-- last one may be shorter than that.
pub expected_piece_length_bounds :
    (size piece : ℕ)
    → 0 < size
    → piece < piece_count size
    → (0 < expected_piece_length size piece)
      × (expected_piece_length size piece ≤ metadata_piece_size)
      × ((expected_piece_length size piece ≡ metadata_piece_size) ⊎ (suc piece ≡ piece_count size))
unfolding piece_count expected_piece_length
expected_piece_length_bounds size piece h k = (
  omega arith,
  omega arith,
  elim (dec_lt (suc piece) (piece_count size)) [
    | yes inner ↦ inl (omega arith)
    | no last ↦ inr (omega arith)
  ],
)

lengths_sum-full :
    (size n : ℕ) → n ≤ piece_count size → lengths_sum size n ≡ min (n * metadata_piece_size) size
unfolding lengths_sum piece_count expected_piece_length
lengths_sum-full size zero h = omega arith
lengths_sum-full size (suc n) h = omega (arith, lengths_sum-full size n (omega arith))

piece_count-covers : (size : ℕ) → size ≤ piece_count size * metadata_piece_size
unfolding piece_count
piece_count-covers size = omega arith

-- The expected lengths of all pieces add up to the metadata's size.
pub lengths_sum-piece_count : (size : ℕ) → lengths_sum size (piece_count size) ≡ size
lengths_sum-piece_count size =
    omega (arith, lengths_sum-full size (piece_count size) (omega arith), piece_count-covers size)
