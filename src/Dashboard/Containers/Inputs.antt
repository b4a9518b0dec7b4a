-- ===== src/Dashboard/Containers/Inputs.antt =====
-- The inputs above the container table (web/src/pages/Dashboard.tsx).
use ophanim.Base.{Bool, not, Text, codes, text_eq_instance}
use ophanim.Dashboard.Containers.{
  Controls, StateFilter, SortKey, by_name, by_cpu, by_memory, by_restarts, by_network,
}

-- The controls with the two switches beside them.
pub record TableState : Type 0 where
  pub controls : Controls
  pub group_by_node : Bool
  pub is_column_dropdown_open : Bool

unfoldable pub set_search : Text → TableState → TableState
set_search q s = record s { controls = record s.controls { search = q } }

unfoldable pub set_state_filter : StateFilter → TableState → TableState
set_state_filter f s = record s { controls = record s.controls { state_filter = f } }

unfoldable pub set_node_filter : Text → TableState → TableState
set_node_filter i s = record s { controls = record s.controls { node_filter = i } }

-- The options of the drop-down list of sort keys.
unfoldable pub sort_option : SortKey → Text
sort_option by_name = codes "name"
sort_option by_cpu = codes "cpu"
sort_option by_memory = codes "memory"
sort_option by_network = codes "network"
sort_option by_restarts = codes "restarts"

unfoldable pub set_sort_by : SortKey → TableState → TableState
set_sort_by k s = record s { controls = record s.controls { sort_by = k } }

unfoldable pub toggle_grouping : TableState → TableState
toggle_grouping s = record s { group_by_node = not s.group_by_node }

unfoldable pub toggle_column_menu : TableState → TableState
toggle_column_menu s = record s { is_column_dropdown_open = not s.is_column_dropdown_open }
