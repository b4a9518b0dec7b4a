-- ===== src/Chart.antt =====
-- The telemetry chart: what it asks for, the series that it draws and the top of its scale
-- (web/src/components/TelemetryChart.tsx). The scale is exact where the source's product may be
-- rounded.
pub mod Laws
pub mod Plot
pub mod Pointer
pub mod History
use ophanim.Base.{
  ℕ, ◌+◌, ◌*◌, ◌/◌, Bool, true, false, not, ◌&&◌, ◌||◌, Option, none, some, List, [], ◌∷◌, ◌++◌,
  map, Text, codes, find, drop, starts_with, is_some, or_default, or_number, ◌===◌,
  text_eq_instance, if◌then◌else◌, max,
}
use ophanim.Types.{Quantity, units, MetricPoint, DeviceNode, ContainerStatus}

pub data TimeRange : Type 0 where
  minutes_15 hour_1 hours_6 hours_24 : TimeRange

unfoldable pub range_name : TimeRange → Text
range_name minutes_15 = codes "15m"
range_name hour_1 = codes "1h"
range_name hours_6 = codes "6h"
range_name hours_24 = codes "24h"

pub data MetricTab : Type 0 where
  cpu_tab memory_tab network_tab disk_tab : MetricTab

abbrev host_prefix : Text
host_prefix = codes "host:"

-- `selectedDevice` of `fetchHistory`
unfoldable pub history_device : List DeviceNode → Text → Option DeviceNode
history_device devices target =
    find (λ d. d.id === target || (host_prefix ++ d.id) === target) devices

-- `selectedDevice` of the chart, which takes the local node for `host` too.
unfoldable pub selected_device : List DeviceNode → Text → Option DeviceNode
selected_device devices target =
    find
      (λ d.
        d.id === target
        || (host_prefix ++ d.id) === target
        || (target === codes "host" && (d.id === codes "local-lxc" || d.id === codes "local")))
      devices

-- `isHost`
unfoldable pub is_host_target : Option DeviceNode → Text → Bool
is_host_target device target =
    target === codes "host" || is_some device || starts_with target host_prefix

-- `nodeId`
unfoldable pub history_node : Option DeviceNode → Text → Text
history_node (some d) target = d.id
history_node none target = if starts_with target host_prefix then drop 5 target else codes "local"

-- The request of `fetchHistory`; `encode` is `encodeURIComponent`.
unfoldable pub history_url : (Text → Text) → List DeviceNode → Text → TimeRange → Text
unfolding history_device is_host_target history_node range_name
history_url encode devices target range =
    let device = history_device devices target in
    if is_host_target device target
    then codes "/api/metrics/history?node_id="
      ++ encode (history_node device target)
      ++ codes "&range="
      ++ range_name range
    else codes "/api/metrics/history?target=container&container_id="
      ++ encode target
      ++ codes "&range="
      ++ range_name range

-- `selectedContainer`
unfoldable pub selected_container :
    List DeviceNode → List ContainerStatus → Text → Option ContainerStatus
unfolding selected_device
selected_container devices containers target =
    if is_host_target (selected_device devices target) target
    then none
    else find (λ c. c.id === target || c.name === target) containers

-- The value of a point under a tab.
unfoldable pub value_of : MetricTab → Bool → MetricPoint → Quantity
value_of cpu_tab is_container pt = pt.cpu_percent
value_of memory_tab true pt = or_number pt.memory_usage_mb pt.mem_percent
value_of memory_tab false pt = pt.mem_percent
value_of network_tab is_container pt = pt.net_rx_kbps + pt.net_tx_kbps
value_of disk_tab is_container pt = pt.disk_read_kbps + pt.disk_write_kbps

-- `values`
unfoldable pub values : MetricTab → Bool → List MetricPoint → List Quantity
unfolding value_of
values tab is_container history = map (value_of tab is_container) history

-- `Math.max(...values, 0)`
unfoldable pub largest : List Quantity → Quantity
largest [] = 0
largest (v ∷ vs) = max v (largest vs)

-- `Math.max(least, Math.ceil(v * percent / 100))`, in thousandths of whole units.
unfoldable pub scaled : ℕ → ℕ → Quantity → Quantity
scaled least percent v = units (max least ((v * percent + 99999) / 100000))

-- `maxY`
unfoldable pub max_y : MetricTab → Bool → List Quantity → Quantity
unfolding largest scaled
max_y cpu_tab is_container vs = scaled 100 115 (largest vs)
max_y memory_tab true vs = scaled 128 120 (largest vs)
max_y memory_tab false vs = units 100
max_y network_tab is_container vs = scaled 10 125 (largest vs)
max_y disk_tab is_container vs = scaled 10 125 (largest vs)
