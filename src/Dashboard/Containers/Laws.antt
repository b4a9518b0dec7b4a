-- ===== src/Dashboard/Containers/Laws.antt =====
-- Searching, filtering and sorting the containers in web/src/pages/Dashboard.tsx.
use ophanim.Base.{
  ◌↔◌, ℕ, min, ◌+◌, ◌≡◌, refl, true, false, List, [], ◌∷◌, ◌++◌, Text, arith, filter, length,
  Comparator, compare, IsConsistent, IsSorted, Ahead, sort-IsSorted, sort-Perm, Perm, is_gt, flip,
  text_eq_instance,
}
use ophanim.Types.{ContainerStatus}
use ophanim.Dashboard.Containers.Chosen.{
  IsChosen, is_selected-IsChosen, IsRanked, IsSorted-IsRanked,
}
use ophanim.Dashboard.Containers.{
  Controls, SortKey, by_name, by_cpu, by_memory, by_restarts, by_network, running_containers,
  stopped_containers, is_selected, descending, container_order, filtered_containers,
}

-- The two counters of a list add up to its length.
pub running_add_stopped :
    (cs : List ContainerStatus) → running_containers cs + stopped_containers cs ≡ length cs
unfolding running_containers stopped_containers
running_add_stopped [] = refl
running_add_stopped (c ∷ cs) = ground (arith, running_add_stopped cs)

compare-flip : (a b : ℕ) → compare b a ≡ flip (compare a b)
compare-flip a b = ground arith

compare_trans :
    (a b c : ℕ)
    → is_gt (compare a b) ≡ false
    → is_gt (compare b c) ≡ false
    → is_gt (compare a c) ≡ false
compare_trans a b c h k = ground arith

descending-IsConsistent : (f : ContainerStatus → ℕ) → IsConsistent (descending f)
descending-IsConsistent f = record {
  flips = λ a b. compare-flip (f b) (f a);
  trans = λ a b c h k. compare_trans (f c) (f b) (f a) k h;
}

module _ (locale_compare : Comparator Text) where
  container_order-IsConsistent :
      (key : SortKey)
      → IsConsistent locale_compare
      → IsConsistent (container_order locale_compare key)
  unfolding container_order
  container_order-IsConsistent by_cpu law = descending-IsConsistent _
  container_order-IsConsistent by_memory law = descending-IsConsistent _
  container_order-IsConsistent by_restarts law = descending-IsConsistent _
  container_order-IsConsistent by_network law = descending-IsConsistent _
  container_order-IsConsistent by_name law = record {
    flips = λ a b. law.flips a.name b.name;
    trans = λ a b c h k. law.trans a.name b.name c.name h k;
  }

  -- If the collation orders texts consistently, the table holds exactly the containers that stand
  -- on the chosen node, if one is chosen, and in the chosen state, and whose name, image or stack
  -- holds the search text in any case of the letters, each as often as it was reported; and they
  -- stand in the chosen order, by name or by a number from the largest to the smallest.
  pub filtered_containers_lem :
      (k : Controls) (cs : List ContainerStatus)
      → IsConsistent locale_compare
      → Perm (filtered_containers locale_compare k cs) (filter (is_selected k) cs)
        × ((c : ContainerStatus) → (is_selected k c ≡ true) ↔ IsChosen k c)
        × IsRanked locale_compare k.sort_by (filtered_containers locale_compare k cs)
  unfolding filtered_containers
  filtered_containers_lem k cs law = (
    sort-Perm _ _,
    is_selected-IsChosen k,
    IsSorted-IsRanked locale_compare k.sort_by _
        (sort-IsSorted _ (container_order-IsConsistent k.sort_by law) _),
  )

-- Every element of the first list is at least every element of the second, by `f`.
abbrev pub Dominates : (ContainerStatus → ℕ) → List ContainerStatus → List ContainerStatus → Type 0
Dominates f [] ys = Unit
Dominates f (x ∷ xs) ys = Ahead (descending f) x ys × Dominates f xs ys

-- A board of five by `f`: with a rest it makes up the containers, it has five entries or all of
-- them, and nothing in the rest is larger than an entry.
pub record Leaderboard (f : ContainerStatus → ℕ) (board cs : List ContainerStatus) : Type 0 where
  pub rest : List ContainerStatus
  pub same : Perm (board ++ rest) cs
  pub size : length board ≡ min 5 (length cs)
  pub largest : Dominates f board rest
  pub ranked : IsSorted (descending f) board
