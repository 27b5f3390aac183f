-- ===== src/Lookup/Closest.antt =====
-- Sorting: select_closest_nodes of dht_scraper/node_identity.py, and Python's sorted on addresses.
use lif.Common.{
  ℕ, List, [], ◌∷◌, Bool, ◌&&◌, ◌||◌, Bytes, bytes_eq, bytes_lt, leb, take, if◌then◌else◌,
}
use lif.Krpc.Addresses.{Node, xor_distance}

-- sorted(...), which keeps the order of equal elements.
module _ {A : Type 0} (before : A → A → Bool) where
  unfoldable pub insert : A → List A → List A
  insert x [] = x ∷ []
  insert x (y ∷ ys) = let rest = insert x ys in if before x y then x ∷ y ∷ ys else y ∷ rest

  unfoldable pub sort : List A → List A
  unfolding insert
  sort [] = []
  sort (x ∷ xs) = insert x (sort xs)

abbrev pub nearer : Bytes → Node → Node → Bool
nearer target x y = leb (xor_distance x.0 target) (xor_distance y.0 target)

unfoldable pub select_closest_nodes : List Node → Bytes → ℕ → List Node
unfolding sort
select_closest_nodes nodes target count = take count (sort (nearer target) nodes)

-- (ip, port) <= (ip, port)
abbrev pub address_before : Bytes × ℕ → Bytes × ℕ → Bool
address_before x y = bytes_lt x.0 y.0 || (bytes_eq x.0 y.0 && leb x.1 y.1)
