-- ===== src/Dashboard/Nodes.antt =====
-- The nodes of the dashboard: their badges, and the order in which they are listed
-- (web/src/pages/Dashboard.tsx).
pub mod Laws
use ophanim.Base.{
  Bool, true, false, not, ◌&&◌, ◌||◌, Option, none, some, List, [], ◌∷◌, ◌++◌, map, Text, codes,
  or_text, find, filter, ◌===◌, text_eq_instance, if◌then◌else◌, or_default, includes, is_empty,
  Comparator, Ordering, sort, unique,
}
use ophanim.Types.{DeviceNode, ContainerStatus, HostMetrics}

abbrev pub local_lxc : Text
local_lxc = codes "local-lxc"

abbrev pub local : Text
local = codes "local"

abbrev pub truenas : Text
truenas = codes "truenas"

pub record NodeMeta : Type 0 where
  pub id : Text
  pub label : Text
  pub short_label : Text
  pub platform : Text
  pub ip : Text
  pub icon : Text
  pub color : Text

abbrev pub monitor_icon : Text
monitor_icon = codes "🖥" ++ 0xfe0f ∷ []

-- `id === 'local-lxc' || id === 'local'`
unfoldable pub is_local : Text → Bool
is_local i = i === local_lxc || i === local

-- `safeDevices.find(dev => dev.id === id)`
unfoldable pub device_of : List DeviceNode → Text → Option DeviceNode
device_of devices i = find (λ d. d.id === i) devices

-- `d?.f || fallback` for a text field of a device that may be missing.
unfoldable pub field_or : (DeviceNode → Text) → Option DeviceNode → Text → Text
field_or f none fallback = fallback
field_or f (some d) fallback = or_text (f d) fallback

-- `getNodeMeta`, behind its first line.
unfoldable pub meta_of_id : List DeviceNode → Text → NodeMeta
unfolding is_local device_of field_or
meta_of_id devices i =
    if is_local i
    then record {
      id = local_lxc;
      label = codes "Homelab LXC (Local)";
      short_label = codes "Homelab LXC";
      platform = codes "Docker Host";
      ip = codes "10.20.20.11";
      icon = codes "🐳";
      color = codes "emerald";
    }
    else if i === truenas
    then record {
      id = truenas;
      label = codes "TrueNAS SCALE (truenas)";
      short_label = codes "TrueNAS SCALE";
      platform = codes "Storage & Apps";
      ip = codes "10.10.10.8";
      icon = codes "💾";
      color = codes "amber";
    }
    else if i === codes "dev-homelab"
    then record {
      id = codes "dev-homelab";
      label = codes "Proxmox PVE (homelab)";
      short_label = codes "homelab";
      platform = codes "PVE Hypervisor 1";
      ip = codes "10.10.10.2";
      icon = monitor_icon;
      color = codes "sky";
    }
    else if i === codes "dev-homelab2"
    then record {
      id = codes "dev-homelab2";
      label = codes "Proxmox PVE (homelab2)";
      short_label = codes "homelab2";
      platform = codes "PVE Hypervisor 2";
      ip = codes "10.10.10.3";
      icon = monitor_icon;
      color = codes "indigo";
    }
    else if (i === codes "openwrt") || includes i (codes "openwrt") || includes i (codes "router")
    then record {
      id = i;
      label = field_or (λ d. d.name) (device_of devices i) (codes "OpenWRT Gateway");
      short_label = codes "OpenWRT";
      platform = codes "Network Gateway";
      ip = field_or (λ d. d.ip_address) (device_of devices i) (codes "10.10.10.1");
      icon = codes "🌐";
      color = codes "teal";
    }
    else record {
      id = i;
      label = field_or (λ d. d.name) (device_of devices i) i;
      short_label = field_or (λ d. d.name) (device_of devices i) i;
      platform = field_or (λ d. d.agent_type) (device_of devices i) (codes "Agent Host");
      ip = field_or (λ d. d.ip_address) (device_of devices i) [];
      icon = codes "📦";
      color = codes "gold";
    }

-- `getNodeMeta`
unfoldable pub node_meta : List DeviceNode → Text → NodeMeta
unfolding meta_of_id
node_meta devices i = meta_of_id devices (or_text i local_lxc)

-- `c.node_id || 'local-lxc'`
unfoldable pub node_of : ContainerStatus → Text
node_of c = or_text c.node_id local_lxc

module _ (locale_compare : Comparator Text) where
  -- The comparator of both lists of nodes.
  unfoldable pub node_order : Comparator Text
  unfolding is_local
  node_order a b =
      if is_local a
      then Ordering.lt
      else if is_local b
      then Ordering.gt
      else if a === truenas
      then Ordering.lt
      else if b === truenas
      then Ordering.gt
      else locale_compare a b

  -- `availableNodeIds`
  unfoldable pub available_node_ids : List ContainerStatus → List Text
  unfolding node_of
  available_node_ids containers = sort node_order (unique (map node_of containers))

  -- `allKnownNodeIds`; `keys` are the keys of `nodeMetrics`.
  unfoldable pub all_known_node_ids : List DeviceNode → List ContainerStatus → List Text → List Text
  all_known_node_ids devices containers keys = sort node_order (
      unique (
        local_lxc ∷ map (λ d. d.id) devices
        ++ (filter (λ i. not (is_empty i)) (map (λ c. c.node_id) containers) ++ keys)))

-- `activeMetrics`: the sampled metrics of the selected node, and the local host's for it alone.
unfoldable pub active_metrics :
    (Text → Option HostMetrics) → Option HostMetrics → Text → Option HostMetrics
unfolding is_local
active_metrics node_metrics metrics selected = elim (node_metrics selected) [
  | some m ↦ some m
  | none ↦ if is_local selected || is_empty selected then metrics else none
]
