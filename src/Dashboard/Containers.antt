-- ===== src/Dashboard/Containers.antt =====
-- The container inventory: search, filters, sorting and grouping by node, and the leaderboards
-- (web/src/pages/Dashboard.tsx).
pub mod Chosen
pub mod Laws
pub mod Groups
pub mod Inputs
use ophanim.Base.{
  ℕ, Bool, true, false, not, ◌&&◌, ◌||◌, Option, none, some, List, [], ◌∷◌, map, Text, codes,
  filter, ◌===◌, text_eq_instance, if◌then◌else◌, or_default, includes, to_lower, is_empty,
  Comparator, Ordering, compare, sort, length, take, ltb,
}
use ophanim.Types.{ContainerStatus, DeviceNode}
use ophanim.Dashboard.Nodes.{NodeMeta, node_meta, node_of, available_node_ids}

pub data StateFilter : Type 0 where
  all_states only_running only_stopped : StateFilter

pub data SortKey : Type 0 where
  by_name by_cpu by_memory by_restarts by_network : SortKey

-- The controls above the table; `node_filter` holds `all` or an identifier.
pub record Controls : Type 0 where
  pub search : Text
  pub state_filter : StateFilter
  pub sort_by : SortKey
  pub node_filter : Text

abbrev pub all_nodes : Text
all_nodes = codes "all"

-- `c.state === 'running'`
unfoldable pub is_running : ContainerStatus → Bool
is_running c = c.state === codes "running"

-- `runningContainers`
unfoldable pub running_containers : List ContainerStatus → ℕ
running_containers cs = length (filter is_running cs)

-- `stoppedContainers`
unfoldable pub stopped_containers : List ContainerStatus → ℕ
stopped_containers cs = length (filter (λ c. not (is_running c)) cs)

-- A text holds the search text, in any case of the letters.
unfoldable pub matches_text : Text → Text → Bool
matches_text search s = includes (to_lower s) (to_lower search)

-- `c.stack && …`
unfoldable pub matches_stack : Text → Option Text → Bool
unfolding matches_text
matches_stack search none = false
matches_stack search (some s) = not (is_empty s) && matches_text search s

unfoldable pub matches_state : StateFilter → ContainerStatus → Bool
unfolding is_running
matches_state all_states c = true
matches_state only_running c = is_running c
matches_state only_stopped c = not (is_running c)

unfoldable pub matches_node : Text → ContainerStatus → Bool
matches_node node_filter c = node_filter === all_nodes || node_of c === node_filter

-- The predicate of `filteredContainers`.
unfoldable pub is_selected : Controls → ContainerStatus → Bool
unfolding matches_state matches_stack matches_text matches_node
is_selected k c =
    matches_node k.node_filter c
    && ((matches_text k.search c.name
          || matches_text k.search c.image
          || matches_stack k.search c.stack)
        && matches_state k.state_filter c)

-- `b.f - a.f`: the larger first.
abbrev pub descending : (ContainerStatus → ℕ) → Comparator ContainerStatus
descending f a b = compare (f b) (f a)

module _ (locale_compare : Comparator Text) where
  -- The comparator of `filteredContainers`.
  unfoldable pub container_order : SortKey → Comparator ContainerStatus
  container_order by_cpu a b = descending (λ c. c.cpu_percent) a b
  container_order by_memory a b = descending (λ c. c.memory_usage_mb) a b
  container_order by_restarts a b = descending (λ c. c.restart_count) a b
  container_order by_network a b = descending (λ c. or_default c.network_rx_bytes 0) a b
  container_order by_name a b = locale_compare a.name b.name

  -- `filteredContainers`
  unfoldable pub filtered_containers : Controls → List ContainerStatus → List ContainerStatus
  filtered_containers k cs = sort (container_order k.sort_by) (filter (is_selected k) cs)

pub record Group : Type 0 where
  pub node_id : Text
  pub meta : NodeMeta
  pub containers : List ContainerStatus
  pub running_count : ℕ
  pub stopped_count : ℕ

-- The containers of one node.
unfoldable pub on_node : Text → List ContainerStatus → List ContainerStatus
on_node i cs = filter (λ c. node_of c === i) cs

-- The counter of a node in the rail above the table.
unfoldable pub node_count : List ContainerStatus → Text → ℕ
unfolding on_node
node_count cs i = length (on_node i cs)

unfoldable pub group_of : List DeviceNode → List ContainerStatus → Text → Group
unfolding on_node running_containers stopped_containers
group_of devices filtered i = record {
  node_id = i;
  meta = node_meta devices i;
  containers = on_node i filtered;
  running_count = running_containers (on_node i filtered);
  stopped_count = stopped_containers (on_node i filtered);
}

-- The groups that are listed: those with containers, and the one that is asked for.
unfoldable pub is_listed : Text → Group → Bool
is_listed node_filter g =
    ltb 0 (length g.containers) || (not (node_filter === all_nodes) && g.node_id === node_filter)

module _ (locale_compare : Comparator Text) where
  -- `groupedContainers`
  unfoldable pub grouped_containers : Controls → List DeviceNode → List ContainerStatus → List Group
  unfolding group_of is_listed
  grouped_containers k devices cs = filter (is_listed k.node_filter) (
      map (group_of devices (filtered_containers locale_compare k cs))
        (available_node_ids locale_compare cs))

-- `topCpuContainers` and `topMemContainers`
unfoldable pub top_cpu_containers : List ContainerStatus → List ContainerStatus
top_cpu_containers cs = take 5 (sort (descending (λ c. c.cpu_percent)) cs)

unfoldable pub top_mem_containers : List ContainerStatus → List ContainerStatus
top_mem_containers cs = take 5 (sort (descending (λ c. c.memory_usage_mb)) cs)
