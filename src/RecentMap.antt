-- ===== src/RecentMap.antt =====
-- dht_scraper/bounded_recent_map.py: `remember`, over an ordered dict with the oldest key first.
pub mod Bound
mod Tests
use lif.Common.{
  ℕ, zero, suc, ◌+◌, ◌-◌, ◌≤◌, ◌<◌, [], ◌∷◌, ◌++◌, List, Bool, true, false, not, Option, none, some,
  ltb, length, length-append, drop, if◌then◌else◌, ◌≡◌, ◌⊎◌, inl, inr, refl, arith, Bool-cases, Eq,
}

module _ {K V : Type 0} ⦃e : Eq K⦄ where
  -- mapping.get(key)
  unfoldable pub find : K → List (K × V) → Option V
  find k [] = none
  find k ((j, v) ∷ m) = if e.beq j k then some v else find k m

  unfoldable pub contains : K → List (K × V) → Bool
  contains k [] = false
  contains k ((j, v) ∷ m) = if e.beq j k then true else contains k m

  -- What is left of the mapping without `k`; keys are there once.
  unfoldable pub without : K → List (K × V) → List (K × V)
  without k [] = []
  without k ((j, v) ∷ m) = let rest = without k m in if e.beq j k then rest else (j, v) ∷ rest

-- while len(mapping) > limit: mapping.popitem(last=False)
unfoldable pub pop_oldest {ℓ} : {A : Type ℓ} → ℕ → List A → List A
pop_oldest limit [] = []
pop_oldest limit (x ∷ m) =
    let rest = pop_oldest limit m in if ltb limit (length (x ∷ m)) then rest else x ∷ m

module _ {K V : Type 0} ⦃e : Eq K⦄ where
  -- The new mapping, and whether the key is new.
  unfoldable pub remember : List (K × V) → K → V → ℕ → List (K × V) × Bool
  remember mapping key value limit =
      (pop_oldest limit (without key mapping ++ (key, value) ∷ []), not (contains key mapping))

  -- Every key is there once.
  abbrev pub Distinct : List (K × V) → Type 0
  Distinct [] = Unit
  Distinct ((j, v) ∷ m) = (contains j m ≡ false) × Distinct m
