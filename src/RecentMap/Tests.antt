-- ===== src/RecentMap/Tests.antt =====
-- Runs of `remember`, and its theorems at a mapping of three keys.
use lif.Common.{
  take, true, none, ℕ, ◌-◌, ◌≤◌, [], ◌∷◌, ◌++◌, List, true, false, none, some, length, drop, ◌≡◌,
  ◌⊎◌, refl, arith, nat_eq,
}
use lif.RecentMap.{find, contains, without, pop_oldest, remember, Distinct}
use lif.RecentMap.Bound.{remember_lem, find-remember_ne}

abbrev recent : List (ℕ × ℕ)
recent = (1, 10) ∷ (2, 20) ∷ (3, 30) ∷ []

renewed : remember recent 1 11 3 ≡ ((2, 20) ∷ (3, 30) ∷ (1, 11) ∷ [], false)
unfolding remember contains without pop_oldest
renewed = refl

evicted : remember recent 4 40 3 ≡ ((2, 20) ∷ (3, 30) ∷ (4, 40) ∷ [], true)
unfolding remember contains without pop_oldest
evicted = refl

recent-Distinct : Distinct recent
unfolding contains
recent-Distinct = (refl, (refl, (refl, tt)))

remember_lem_example :
    let kept = without 4 recent ++ (4, 40) ∷ [] in
    Distinct (remember recent 4 40 3).0
    × (length (remember recent 4 40 3).0 ≤ 3)
    × (find 4 (remember recent 4 40 3).0 ≡ some 40)
    × ((remember recent 4 40 3).0 ≡ drop (length kept - 3) kept)
remember_lem_example = remember_lem recent 4 40 3 (omega arith) recent-Distinct

find-remember_ne_example :
    let kept = without 4 recent ++ (4, 40) ∷ [] in
    (find 1 (remember recent 4 40 3).0 ≡ find 1 recent)
    ⊎ ((find 1 (remember recent 4 40 3).0 ≡ none)
        × (contains 1 (take (length kept - 3) kept) ≡ true))
find-remember_ne_example = find-remember_ne recent 4 1 40 3 recent-Distinct refl
