-- ===== src/App/Data.antt =====
-- the data of the shell: polling, pushed messages and the handlers that change data on the server
-- (web/src/App.tsx). An answer is a value, and a handler that awaits ends with the answers.
pub mod Laws
use ophanim.Base.{
  Bool, true, false, ◌||◌, Option, none, some, List, [], ◌∷◌, Text, codes, or_text, or_default,
  find, ◌===◌, text_eq_instance, if◌then◌else◌, filter, not,
}
use ophanim.Types.{HostMetrics, ContainerStatus, Incident, DeviceNode, TopologyNode, TopologyEdge}

-- A record of the metrics of each node, in the order of its entries.
abbrev pub NodeMetrics : Type 0
NodeMetrics = List (Text × HostMetrics)

pub record DataState : Type 0 where
  pub metrics : Option HostMetrics
  pub node_metrics : NodeMetrics
  pub containers : List ContainerStatus
  pub incidents : List Incident
  pub devices : List DeviceNode
  pub topology_nodes : List TopologyNode
  pub topology_edges : List TopologyEdge
  pub is_refreshing : Bool

unfoldable pub first_data : DataState
first_data = record {
  metrics = none;
  node_metrics = [];
  containers = [];
  incidents = [];
  devices = [];
  topology_nodes = [];
  topology_edges = [];
  is_refreshing = false;
}

-- `data[key]`
unfoldable pub entry : Text → NodeMetrics → Option HostMetrics
entry key [] = none
entry key ((k, m) ∷ rest) = if k === key then some m else entry key rest

-- `Object.values(data)[0]`
unfoldable pub first_entry : NodeMetrics → Option HostMetrics
first_entry [] = none
first_entry ((k, m) ∷ rest) = some m

abbrev pub or_else : Option HostMetrics → Option HostMetrics → Option HostMetrics
or_else none other = other
or_else (some m) other = some m

-- The metrics that stand for the local host.
unfoldable pub local_entry : NodeMetrics → Option HostMetrics
unfolding entry first_entry
local_entry sample =
    or_else (entry (codes "local-lxc") sample)
      (or_else (entry (codes "local") sample) (first_entry sample))

-- What a request for JSON comes to: the network or the parser fails, the status is an error, or
-- there is a value, `none` when it has not the shape that is asked for.
pub data Answer (A : Type 0) : Type 0 where
  throws : Answer A
  refused : Answer A
  sends : Option A → Answer A

-- `fetchHostMetrics`; a value that is sent has its `cpu_usage_percent`.
unfoldable pub fetch_host_metrics : Answer NodeMetrics → DataState → DataState
unfolding local_entry
fetch_host_metrics (sends (some sample)) s = record s {
  node_metrics = sample;
  metrics = or_else (local_entry sample) s.metrics;
}
fetch_host_metrics _ s = s

-- `Array.isArray(data) ? data : []` under `if (res.ok)`
abbrev pub received : {A : Type 0} → Answer (List A) → List A → List A
received (sends sample) before = or_default sample []
received _ before = before

-- The four answers of `fetchAllData`.
pub record Answers : Type 0 where
  pub container_answer : Answer (List ContainerStatus)
  pub incident_answer : Answer (List Incident)
  pub device_answer : Answer (List DeviceNode)
  pub topology_answer : Answer (Option (List TopologyNode) × Option (List TopologyEdge))

abbrev pub is_throw : {A : Type 0} → Answer A → Bool
is_throw throws = true
is_throw _ = false

-- `topoData?.nodes` and `topoData?.edges`
abbrev nodes_received :
    Answer (Option (List TopologyNode) × Option (List TopologyEdge))
    → List TopologyNode
    → List TopologyNode
nodes_received (sends none) before = []
nodes_received (sends (some (nodes, edges))) before = or_default nodes []
nodes_received _ before = before

abbrev edges_received :
    Answer (Option (List TopologyNode) × Option (List TopologyEdge))
    → List TopologyEdge
    → List TopologyEdge
edges_received (sends none) before = []
edges_received (sends (some (nodes, edges))) before = or_default edges []
edges_received _ before = before

-- The four steps of `fetchAllData`, each behind the one before it: an exception ends the handler.
unfoldable pub take_topology : Answers → DataState → DataState
take_topology a s = record s {
  topology_nodes = nodes_received a.topology_answer s.topology_nodes;
  topology_edges = edges_received a.topology_answer s.topology_edges;
}

unfoldable pub take_devices : Answers → DataState → DataState
unfolding take_topology
take_devices a s =
    if is_throw a.device_answer
    then s
    else take_topology a (record s { devices = received a.device_answer s.devices })

unfoldable pub take_incidents : Answers → DataState → DataState
unfolding take_devices
take_incidents a s =
    if is_throw a.incident_answer
    then s
    else take_devices a (record s { incidents = received a.incident_answer s.incidents })

unfoldable pub take_containers : Answers → DataState → DataState
unfolding take_incidents
take_containers a s =
    if is_throw a.container_answer
    then s
    else take_incidents a (record s { containers = received a.container_answer s.containers })

-- `fetchAllData` up to the answers.
unfoldable pub start_refresh : DataState → DataState
start_refresh s = record s { is_refreshing = true }

-- `fetchAllData` behind the answers; `none` when a request itself failed.
unfoldable pub end_refresh : Option Answers → DataState → DataState
unfolding take_containers
end_refresh none s = record s { is_refreshing = false }
end_refresh (some a) s = record (take_containers a s) { is_refreshing = false }

-- `{ ...prev, [key]: m }`
unfoldable pub put_entry : Text → HostMetrics → NodeMetrics → NodeMetrics
put_entry key m [] = (key, m) ∷ []
put_entry key m ((k, n) ∷ rest) =
    let more = put_entry key m rest in if k === key then (k, m) ∷ rest else (k, n) ∷ more

-- The messages that the socket pushes; `ignored` is any other, and one that cannot be read.
pub data Message : Type 0 where
  metrics_updated : HostMetrics → Message
  containers_updated : List ContainerStatus → Message
  incident_created incident_resolved ignored : Message

-- `m.node_id || 'local-lxc'`
unfoldable pub metrics_node : HostMetrics → Text
metrics_node m = or_text m.node_id (codes "local-lxc")

-- `onmessage`: the state, and whether all data is fetched again.
unfoldable pub on_message : Message → DataState → DataState × Bool
unfolding metrics_node
on_message (metrics_updated m) s = (
  record s {
    node_metrics = put_entry (metrics_node m) m s.node_metrics;
    metrics =
        if metrics_node m === codes "local-lxc" || metrics_node m === codes "local"
        then some m
        else s.metrics;
  },
  false,
)
on_message (containers_updated cs) s = (record s { containers = cs }, false)
on_message incident_created s = (start_refresh s, true)
on_message incident_resolved s = (start_refresh s, true)
on_message ignored s = (s, false)
