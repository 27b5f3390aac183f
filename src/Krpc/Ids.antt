-- ===== src/Krpc/Ids.antt =====
-- The transaction ids of lookups, and the ids under which the crawler answers.
use lif.Common.{ℕ, ◌+◌, ◌%◌, ◌^◌, ◌<◌, from_be, drop, ◌≡◌, ◌≢◌, sym, ◌∙◌, ap, arith}
use lif.Krpc.Addresses.{lookup_transaction_id}

counter_of : (n : ℕ) → from_be (drop 1 (lookup_transaction_id n)) ≡ n % 2 ^ 24
unfolding lookup_transaction_id from_be
counter_of n = omega arith

-- Two lookup queries less than 2^24 apart in the counter have different transaction ids.
pub lookup_transaction_id_distinct :
    (m n : ℕ) → m < n → n < m + 2 ^ 24 → lookup_transaction_id m ≢ lookup_transaction_id n
lookup_transaction_id_distinct m n l u e =
    let same = sym (counter_of m) ∙ ap (λ b. from_be (drop 1 b)) e ∙ counter_of n in
    omega (arith, same)
