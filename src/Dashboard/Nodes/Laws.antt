-- ===== src/Dashboard/Nodes/Laws.antt =====
-- The order of the nodes in web/src/pages/Dashboard.tsx.
use ophanim.Base.{
  ◌≡◌, refl, ◌≢◌, true, false, Option, List, [], ◌∷◌, map, Text, any, Comparator, sort,
  insert_sorted, IsConsistent, unique, Bool-cases, text_eq_instance, text_eq, inl, inr, Perm,
  sort-Perm, Option-cases,
}
use ophanim.Types.{DeviceNode, ContainerStatus, HostMetrics}
use ophanim.Dashboard.Nodes.{
  is_local, local_lxc, local, node_order, available_node_ids, all_known_node_ids, node_of,
  active_metrics,
}

-- The first of a list is a name of the local node.
abbrev pub StartsLocal : List Text → Type 0
StartsLocal [] = ⊥
StartsLocal (i ∷ is) = is_local i ≡ true

module _ (locale_compare : Comparator Text) where
  insert_local :
      (i : Text) (is : List Text)
      → is_local i ≡ true
      → StartsLocal (insert_sorted (node_order locale_compare) i is)
  unfolding insert_sorted node_order
  insert_local i [] h = h
  insert_local i (j ∷ is) h = rw h h

  insert_behind_local :
      (i : Text) (is : List Text)
      → StartsLocal is
      → StartsLocal (insert_sorted (node_order locale_compare) i is)
  unfolding insert_sorted node_order
  insert_behind_local i [] h = elim h [ ]
  insert_behind_local i (j ∷ is) h = elim (Bool-cases (is_local i)) [
    | inl e ↦ rw e e
    | inr e ↦ rw (e, h) h
  ]

  sort-StartsLocal :
      (is : List Text) → any is_local is ≡ true → StartsLocal (sort (node_order locale_compare) is)
  unfolding sort
  sort-StartsLocal [] h = cc
  sort-StartsLocal (i ∷ is) h = elim (Bool-cases (is_local i)) [
    | inl e ↦ insert_local i (sort (node_order locale_compare) is) e
    | inr e ↦ insert_behind_local i _ (sort-StartsLocal is (rw e at h))
  ]

  -- Whatever is enrolled, running or measured, the list of all known nodes begins with the local
  -- node.
  all_known_node_ids-StartsLocal :
      (devices : List DeviceNode) (containers : List ContainerStatus) (keys : List Text)
      → StartsLocal (all_known_node_ids locale_compare devices containers keys)
  unfolding all_known_node_ids text_eq
  all_known_node_ids-StartsLocal devices containers keys =
      sort-StartsLocal (unique _) (unfold unique is_local in refl)

  -- The comparator contradicts itself on the two names of the local node, whatever the collation:
  -- each comes before the other, so their order is up to the engine.
  node_order-not-IsConsistent : ¬ IsConsistent (node_order locale_compare)
  unfolding node_order text_eq
  node_order-not-IsConsistent law = cc (law.flips local_lxc local)

  available_node_ids-Perm :
      (containers : List ContainerStatus)
      → Perm (available_node_ids locale_compare containers) (unique (map node_of containers))
  unfolding available_node_ids
  available_node_ids-Perm containers = sort-Perm (node_order locale_compare) _

-- The telemetry that is shown for a node other than the local one is that node's own, never the
-- local host's: it is there exactly if the node was sampled.
active_metrics_own :
    (samples : Text → Option HostMetrics) (metrics : Option HostMetrics) (i : Text)
    → is_local i ≡ false
    → i ≢ []
    → active_metrics samples metrics i ≡ samples i
unfolding active_metrics
active_metrics_own samples metrics [] h ne = absurd (ne refl)
active_metrics_own samples metrics (c ∷ i) h ne = elim (Option-cases (samples (c ∷ i))) [
  | inl e ↦ rw (e, active_metrics) (rw h)
  | inr (m, e) ↦ rw (e, active_metrics)
]
