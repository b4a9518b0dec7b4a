-- ===== src/Logs.antt =====
-- The log console: its source, its tab, what it asks for and when (web/src/pages/LogsView.tsx).
pub mod Rows
pub mod Laws
pub mod Effects
use ophanim.Base.{
  Bool, true, false, not, ◌&&◌, ◌||◌, Option, none, some, List, [], ◌∷◌, ◌++◌, Text, codes, ◌===◌,
  text_eq_instance, if◌then◌else◌, or_text, is_empty, is_some, find, any,
}
use ophanim.Types.{ContainerStatus, DeviceNode, LogEntry}
use ophanim.Dashboard.Containers.{is_running}

pub data LogsTab : Type 0 where
  metrics logs : LogsTab

-- `activeTab === 'logs'`
abbrev pub is_logs : LogsTab → Bool
is_logs metrics = false
is_logs logs = true

-- The name of a container that may be missing: a missing name is falsy like an empty one.
abbrev pub name_or_empty : Option ContainerStatus → Text
name_or_empty none = []
name_or_empty (some c) = c.name

-- `safeContainers[0]`
abbrev pub head : List ContainerStatus → Option ContainerStatus
head [] = none
head (c ∷ cs) = some c

-- `firstRunning || safeContainers[0]?.name || ''`
unfoldable pub first_source : List ContainerStatus → Text
first_source cs = or_text (name_or_empty (find is_running cs)) (name_or_empty (head cs))

-- `defaultSource`; the target that is handed in may be empty.
unfoldable pub default_source : Text → List ContainerStatus → Text
unfolding first_source
default_source initial cs = or_text initial (first_source cs)

-- The state of the view, with the requests that no answer has come to yet.
pub record LogsState : Type 0 where
  pub active_tab : LogsTab
  pub selected_source : Text
  pub entries : List LogEntry
  pub loading : Bool
  pub auto_tail : Bool
  pub pending : List Text

unfoldable pub first_logs : Text → List ContainerStatus → LogsState
unfolding default_source
first_logs initial cs = record {
  active_tab = metrics;
  selected_source = default_source initial cs;
  entries = [];
  loading = false;
  auto_tail = true;
  pending = [];
}

-- `c.name === source || c.id === source`
unfoldable pub is_container_source : Text → ContainerStatus → Bool
is_container_source source c = c.name === source || c.id === source

-- The predicate of `isDevice`.
unfoldable pub is_device_source : Text → DeviceNode → Bool
is_device_source source d =
    d.id === source
    || d.name === source
    || (source === codes "host" && (d.id === codes "local-lxc" || d.id === codes "local"))

abbrev pub container_node : Option ContainerStatus → Text
container_node none = []
container_node (some c) = c.node_id

abbrev pub device_node : Option DeviceNode → Text
device_node none = []
device_node (some d) = d.id

-- `nodeId`: the node that a source is asked from.
unfoldable pub log_node : List ContainerStatus → List DeviceNode → Text → Text
unfolding is_container_source is_device_source
log_node cs devices source = or_text (container_node (find (is_container_source source) cs)) (
    or_text (device_node (find (is_device_source source) devices))
      (if source === codes "host" then codes "local" else source))

-- The values of the options of the drop-down list.
unfoldable pub device_option : DeviceNode → Text
device_option d = if d.id === codes "local-lxc" then codes "host" else d.id

unfoldable pub container_option : ContainerStatus → Text
container_option c = c.name

module _ (encode : Text → Text) where
  -- The address that is fetched; `encode` is `encodeURIComponent`.
  unfoldable pub log_url : List ContainerStatus → List DeviceNode → Text → Text
  unfolding log_node
  log_url cs devices source =
      codes "/api/logs?source="
      ++ (encode source ++ (codes "&node_id=" ++ encode (log_node cs devices source)))

-- `fetchLogs` up to its request: nothing is asked without a source.
unfoldable pub fetch_logs : Text → LogsState → LogsState
fetch_logs source s = if is_empty source then s else record s { pending = s.pending ++ source ∷ [] }

-- What comes back: no JSON at all, JSON that is no array, or an array.
pub data LogAnswer : Type 0 where
  thrown not_array : LogAnswer
  entries_of : List LogEntry → LogAnswer

unfoldable pub take_logs : LogAnswer → List LogEntry → List LogEntry
take_logs thrown old = old
take_logs not_array old = []
take_logs (entries_of ls) old = ls

-- `fetchLogs` from the answer on, with its `finally`; `rest` is still unanswered.
unfoldable pub end_fetch : LogAnswer → List Text → LogsState → LogsState
unfolding take_logs
end_fetch a rest s = record s { entries = take_logs a s.entries; loading = false; pending = rest }

-- The effect on the source and the tab.
unfoldable pub refetch : LogsState → LogsState
unfolding fetch_logs
refetch s =
    if not (is_empty s.selected_source) && is_logs s.active_tab
    then fetch_logs s.selected_source (record s { loading = true })
    else s

-- `setSelectedSource` and `setActiveTab` of the controls, with the effect that follows.
unfoldable pub select_source : Text → LogsState → LogsState
unfolding refetch
select_source source s =
    if source === s.selected_source then s else refetch (record s { selected_source = source })

unfoldable pub same_tab : LogsTab → LogsTab → Bool
same_tab metrics t = not (is_logs t)
same_tab logs t = is_logs t

unfoldable pub select_tab : LogsTab → LogsState → LogsState
unfolding refetch same_tab
select_tab t s = if same_tab t s.active_tab then s else refetch (record s { active_tab = t })

-- The effect on the target and the containers, before the effect that asks.
unfoldable pub adopt_source : Text → List ContainerStatus → LogsState → LogsState
unfolding first_source
adopt_source initial cs s =
    if not (is_empty initial)
    then record s { selected_source = initial; active_tab = logs }
    else if is_empty s.selected_source && is_some (head cs)
    then record s { selected_source = first_source cs }
    else s

-- The adoption of a source, with the effect that follows when the source or the tab changed.
unfoldable pub arrive : Text → List ContainerStatus → LogsState → LogsState
unfolding adopt_source refetch same_tab
arrive initial cs s =
    let t = adopt_source initial cs s in
    if t.selected_source === s.selected_source && same_tab t.active_tab s.active_tab
    then t
    else refetch t

-- A tick of the interval, which runs under three conditions only.
unfoldable pub tick : LogsState → LogsState
unfolding fetch_logs
tick s =
    if not s.auto_tail || is_empty s.selected_source || not (is_logs s.active_tab)
    then s
    else fetch_logs s.selected_source s

unfoldable pub toggle_tail : LogsState → LogsState
toggle_tail s = record s { auto_tail = not s.auto_tail }
