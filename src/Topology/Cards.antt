-- ===== src/Topology/Cards.antt =====
-- The cards of the topology: the modes of the page, the selected node, tints and labels
-- (web/src/pages/TopologyView.tsx).
use ophanim.Base.{
  Bool, true, false, not, ◌&&◌, Option, none, some, List, [], ◌∷◌, ◌++◌, Text, codes, or_default,
  or_text, to_upper, is_empty, ◌===◌, text_eq_instance, if◌then◌else◌, length, ℕ, Comparator,
}
use ophanim.Types.{
  TopologyNode, NodeType, host, container, service, proxy, database, router, NodeStatus, healthy,
  warning, critical, unknown,
}
use ophanim.App.Panels.{PanelState, open_logs}
use ophanim.Topology.{meta_of, routers, databases, services, has_incident}

pub data ViewMode : Type 0 where
  boxy dag : ViewMode

-- The page's own state.
pub record PageState : Type 0 where
  pub view_mode : ViewMode
  pub selected_node : Option TopologyNode

unfoldable pub first_page : PageState
first_page = record { view_mode = boxy; selected_node = none }

unfoldable pub set_view_mode : ViewMode → PageState → PageState
set_view_mode m s = record s { view_mode = m }

unfoldable pub select_node : TopologyNode → PageState → PageState
select_node n s = record s { selected_node = some n }

unfoldable pub close_node : PageState → PageState
close_node s = record s { selected_node = none }

-- The button of the panel: the logs of the node's label, and the panel closes.
unfoldable pub view_logs : TopologyNode → PageState × PanelState → PageState × PanelState
unfolding open_logs close_node
view_logs n (s, p) = (close_node s, open_logs n.label p)

pub data NodeIcon : Type 0 where
  server_icon database_icon globe_icon layers_icon box_icon : NodeIcon

-- `getNodeIcon`
unfoldable pub node_icon : NodeType → NodeIcon
node_icon host = server_icon
node_icon database = database_icon
node_icon router = globe_icon
node_icon proxy = globe_icon
node_icon service = layers_icon
node_icon container = box_icon

-- `isStopped`: a state that is known and is another than running.
unfoldable pub is_stopped : TopologyNode → Bool
is_stopped n =
    let state = or_default (meta_of (codes "state") n) [] in
    not (is_empty state) && not (state === codes "running")

pub data CardTint : Type 0 where
  selected_tint critical_tint warning_tint stopped_tint plain_tint : CardTint

-- The tint by the status first, and by the state for the others.
abbrev status_tint : NodeStatus → Bool → CardTint
status_tint critical stopped = critical_tint
status_tint warning stopped = warning_tint
status_tint healthy stopped = if stopped then stopped_tint else plain_tint
status_tint unknown stopped = if stopped then stopped_tint else plain_tint

-- The row of a container in a stack.
unfoldable pub row_tint : TopologyNode → CardTint
unfolding is_stopped
row_tint n = status_tint n.status (is_stopped n)

abbrev status_name : NodeStatus → Text
status_name healthy = codes "healthy"
status_name warning = codes "warning"
status_name critical = codes "critical"
status_name unknown = codes "unknown"

unfoldable pub row_label : TopologyNode → Text
row_label n = or_text (or_default (meta_of (codes "state") n) []) (status_name n.status)

-- `NodeCard`
unfoldable pub card_tint : Bool → TopologyNode → CardTint
unfolding is_stopped
card_tint is_selected n = if is_selected then selected_tint else status_tint n.status (is_stopped n)

unfoldable pub card_label : TopologyNode → Text
unfolding is_stopped
card_label n = if is_stopped n then codes "Stopped" else status_name n.status

-- Is this the node of the panel?
unfoldable pub is_selected_node : PageState → TopologyNode → Bool
is_selected_node s n = is_this s.selected_node
  where
    is_this : Option TopologyNode → Bool
    is_this none = false
    is_this (some m) = m.id === n.id

-- The badge and the address of a host.
unfoldable pub host_badge : Bool → TopologyNode → Text
host_badge true n = codes "PROXMOX VE HYPERVISOR"
host_badge false n =
    to_upper (or_text (or_default (meta_of (codes "agent") n) []) (codes "HOST SYSTEM"))

unfoldable pub host_address : TopologyNode → Text
host_address n = or_text (or_default (meta_of (codes "ip") n) []) (codes "Local Daemon")

-- The status of the panel: any but healthy is marked as bad.
unfoldable pub is_good_status : NodeStatus → Bool
is_good_status healthy = true
is_good_status _ = false

-- A stack's header: its name, how many nodes it has, and whether one of them is critical.
unfoldable pub stack_header : Text × List TopologyNode → Text × ℕ × Bool
unfolding has_incident
stack_header (name, ns) = (name, length ns, has_incident ns)

module _ (locale_compare : Comparator Text) where
  -- The tiers of the flow, from the top: the services always, the others if they have nodes.
  unfoldable pub flow_tiers : List TopologyNode → List (List TopologyNode)
  unfolding routers services databases
  flow_tiers nodes =
      tier (routers locale_compare nodes)
      ++ (services locale_compare nodes ∷ tier (databases locale_compare nodes))
    where
      tier : List TopologyNode → List (List TopologyNode)
      tier [] = []
      tier (n ∷ ns) = (n ∷ ns) ∷ []
