-- ===== src/Examples/Containers.antt =====
-- The containers, nodes, columns and interfaces of web/src/pages/Dashboard.tsx at concrete data.
use ophanim.Dashboard.Containers.Chosen.{IsChosen, IsRanked}
use ophanim.Types.{ContainerStatus}
use ophanim.Base.{
  ◌↔◌, ◌≡◌, refl, true, [], ◌∷◌, codes, filter, Perm, distinct, map, length, text_eq_instance,
  contains,
}
use ophanim.Dashboard.Containers.{
  Controls, all_states, by_cpu, all_nodes, is_selected, filtered_containers, grouped_containers,
  node_count,
}
use ophanim.Dashboard.Nodes.{available_node_ids}
use ophanim.Dashboard.Containers.Laws.{filtered_containers_lem}
use ophanim.Dashboard.Containers.Groups.{
  members, Each, IsGroup, grouped_containers_lem, total, total-node_count,
}
use ophanim.Dashboard.Columns.{
  ColumnKey, ColumnKey-discrete, column_eq, name, cpu, row_cells, flat_row_cells, header_cells,
}
use ophanim.Dashboard.Columns.Laws.{IsVisible, Toggled, toggle_column_lem, row_cells_lem}
use ophanim.Examples.Data.{container, by_length, by_length-IsConsistent, two_containers, one_device}

abbrev controls : Controls
controls = record {
  search = codes "E";
  state_filter = all_states;
  sort_by = by_cpu;
  node_filter = all_nodes;
}

filtered_containers_example :
    Perm
      (filtered_containers by_length controls two_containers)
      (filter (is_selected controls) two_containers)
    × ((c : ContainerStatus) → (is_selected controls c ≡ true) ↔ IsChosen controls c)
    × IsRanked by_length by_cpu (filtered_containers by_length controls two_containers)
filtered_containers_example =
    filtered_containers_lem by_length controls two_containers by_length-IsConsistent

grouped_containers_example :
    Perm
      (members (grouped_containers by_length controls one_device two_containers))
      (filtered_containers by_length controls two_containers)
    × Each IsGroup (grouped_containers by_length controls one_device two_containers)
grouped_containers_example = grouped_containers_lem by_length controls one_device two_containers

two_columns-IsVisible : IsVisible (name ∷ cpu ∷ [])
unfolding distinct contains ColumnKey-discrete
two_columns-IsVisible = record { some_column = λ e. cc; no_repeat = refl }

toggle_column_example : Toggled cpu (name ∷ cpu ∷ [])
toggle_column_example = toggle_column_lem cpu (name ∷ cpu ∷ []) two_columns-IsVisible

node_count_example :
    total (map (node_count two_containers) (available_node_ids by_length two_containers))
    ≡ length two_containers
node_count_example = total-node_count by_length two_containers

abbrev one_web : ContainerStatus
one_web = container (codes "web") (codes "running") 40 (codes "truenas")

distinct_columns : distinct (name ∷ cpu ∷ []) ≡ true
unfolding distinct contains ColumnKey-discrete
distinct_columns = refl

row_cells_example :
    (map (λ p. p.0) (row_cells (name ∷ cpu ∷ []) (codes "TrueNAS") one_web)
      ≡ header_cells (name ∷ cpu ∷ []))
    × (map (λ p. p.0) (flat_row_cells one_device (name ∷ cpu ∷ []) one_web)
        ≡ header_cells (name ∷ cpu ∷ []))
    × (length (header_cells (name ∷ cpu ∷ [])) ≡ length {A = ColumnKey} (name ∷ cpu ∷ []))
row_cells_example =
    row_cells_lem (name ∷ cpu ∷ []) (codes "TrueNAS") one_device one_web distinct_columns
