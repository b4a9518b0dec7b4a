-- ===== src/Dashboard/Gauges.antt =====
-- The telemetry of the selected node: the gauges, the matrix of its cores, the rates of its network
-- and the entries of the drop-down that selects it (web/src/pages/Dashboard.tsx).
pub mod Laws
use ophanim.Base.{
  ℕ, zero, suc, ◌+◌, ◌*◌, ◌/◌, ◌%◌, ℤ, sub_ℕ, Bool, true, false, not, ◌&&◌, ◌||◌, Option, none,
  some, List, [], ◌∷◌, map, Text, codes, ◌==◌, ltb, leb, min, max, if◌then◌else◌, or_default,
  or_number, get_elem?, is_empty, ◌===◌, text_eq_instance, length,
}
use ophanim.Types.{Quantity, units, HostMetrics, DeviceNode}
use ophanim.Dashboard.Nodes.{NodeMeta, node_meta, is_local, local_lxc}
use ophanim.Dashboard.Columns.{Figure, fixed, literal, Rate, megabytes, kilobytes}

pub data BarTint : Type 0 where
  crimson terracotta gold amber emerald : BarTint

-- A bar: its colour and its width.
pub record Bar : Type 0 where
  pub tint : BarTint
  pub width : Quantity

unfoldable pub cpu_bar : HostMetrics → Bar
cpu_bar m = record {
  tint =
      if ltb (units 85) m.cpu_usage_percent
      then crimson
      else if ltb (units 60) m.cpu_usage_percent
      then terracotta
      else gold;
  width = min m.cpu_usage_percent (units 100);
}

unfoldable pub memory_bar : HostMetrics → Bar
memory_bar m = record {
  tint =
      if ltb (units 90) m.memory_percent
      then crimson
      else if ltb (units 75) m.memory_percent
      then terracotta
      else amber;
  width = min m.memory_percent (units 100);
}

unfoldable pub disk_bar : HostMetrics → Bar
disk_bar m = record {
  tint =
      if ltb (units 90) m.disk_percent
      then crimson
      else if ltb (units 75) m.disk_percent
      then terracotta
      else emerald;
  width = min m.disk_percent (units 100);
}

-- The badge of the temperature: none without a measurement, and none at zero.
unfoldable pub temperature_badge : HostMetrics → Option Figure
temperature_badge m =
    let t = or_default m.cpu_temperature 0 in if ltb 0 t then some (fixed 1 t) else none

-- The label `Swap`
unfoldable pub swap_label : HostMetrics → Figure
swap_label m =
    let s = or_default m.swap_percent 0 in if s == 0 then literal (codes "0") else fixed 0 s

-- The cores of the matrix from the `i`-th on: a core without a measurement shows the whole load.
unfoldable pub smt_core : HostMetrics → ℕ → Quantity
smt_core m i = or_default (get_elem? (or_default m.cpu_cores_usage []) i) m.cpu_usage_percent

unfoldable pub smt_from : HostMetrics → ℕ → ℕ → List Quantity
unfolding smt_core
smt_from m i zero = []
smt_from m i (suc n) = smt_core m i ∷ smt_from m (i + 1) n

unfoldable pub smt_cores : HostMetrics → List Quantity
unfolding smt_from
smt_cores m = smt_from m 0 (if m.cpu_cores == 0 then 4 else m.cpu_cores)

unfoldable pub smt_tint : Quantity → BarTint
smt_tint q = if ltb (units 75) q then crimson else if ltb (units 40) q then terracotta else gold

-- `currentNetRxKBps` and `currentNetTxKBps`
unfoldable pub current_rate : (HostMetrics → Option Quantity) → Option HostMetrics → Quantity
current_rate f none = 0
current_rate f (some m) = or_default (f m) 0

-- The cards of the inbound and outbound rates: none without metrics.
unfoldable pub rate_card : (HostMetrics → Option Quantity) → Option HostMetrics → Option Rate
unfolding current_rate
rate_card f none = none
rate_card f (some m) =
    let r = current_rate f (some m) in
    some (if ltb (units 1024) r then megabytes r else kilobytes r)

-- The pills of the ribbon: the disk's rate is that of the local host's `metrics`, the network's
-- that of the selected node's `activeMetrics`.
unfoldable pub disk_pill : Option HostMetrics → Quantity
disk_pill none = 0
disk_pill (some m) = or_default m.disk_read_kbps 0 + or_default m.disk_write_kbps 0

unfoldable pub network_pill : Option HostMetrics → Quantity
unfolding current_rate
network_pill active =
    current_rate (λ m. m.net_rx_rate_kbps) active + current_rate (λ m. m.net_tx_rate_kbps) active

-- The state of the drop-down that selects a node.
pub record NodeMenu : Type 0 where
  pub selected_telemetry_node : Text
  pub is_node_dropdown_open : Bool

unfoldable pub first_menu : NodeMenu
first_menu = record { selected_telemetry_node = local_lxc; is_node_dropdown_open = false }

unfoldable pub toggle_menu : NodeMenu → NodeMenu
toggle_menu s = record s { is_node_dropdown_open = not s.is_node_dropdown_open }

unfoldable pub choose_node : Text → NodeMenu → NodeMenu
choose_node i s = record { selected_telemetry_node = i; is_node_dropdown_open = false }

-- `handleClickOutside`
unfoldable pub click_outside : Bool → NodeMenu → NodeMenu
click_outside is_inside s = if is_inside then s else record s { is_node_dropdown_open = false }

-- One entry: the node's badge, whether it is selected, and its load, which is missing for a node
-- that is only enrolled.
pub record MenuItem : Type 0 where
  pub meta : NodeMeta
  pub is_selected : Bool
  pub load : Option Quantity

abbrev load_of : Option HostMetrics → Option Quantity
load_of none = none
load_of (some m) = some m.cpu_usage_percent

unfoldable pub entry_metrics :
    (Text → Option HostMetrics) → Option HostMetrics → Text → Option HostMetrics
unfolding is_local
entry_metrics node_metrics metrics i = elim (node_metrics i) [
  | some m ↦ some m
  | none ↦ if is_local i then metrics else none
]

unfoldable pub menu_item :
    (Text → Option HostMetrics) → Option HostMetrics → List DeviceNode → NodeMenu → Text → MenuItem
unfolding entry_metrics
menu_item node_metrics metrics devices s i = record {
  meta = node_meta devices i;
  is_selected = s.selected_telemetry_node === i;
  load = load_of (entry_metrics node_metrics metrics i);
}

unfoldable pub menu_items :
    (Text → Option HostMetrics)
    → Option HostMetrics
    → List DeviceNode
    → NodeMenu
    → List Text
    → List MenuItem
unfolding menu_item
menu_items node_metrics metrics devices s ids =
    if s.is_node_dropdown_open then map (menu_item node_metrics metrics devices s) ids else []

-- `initialTarget` of the chart on the page.
unfoldable pub chart_target : Text → Text
unfolding is_local
chart_target selected = if is_local selected then codes "host" else selected
