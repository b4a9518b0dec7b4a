-- ===== src/Examples/Data.antt =====
-- Concrete data: a collation, containers, devices and interfaces.
use ophanim.Base.{
  ℕ, ◌≡◌, true, false, none, some, List, [], ◌∷◌, Text, codes, length, compare, Comparator,
  IsConsistent, is_gt, flip, arith, pos,
}
use ophanim.Types.{ContainerStatus, DeviceNode, NetworkInterface, HostMetrics, Quantity, units}

-- A collation that orders the texts by their length.
abbrev pub by_length : Comparator Text
by_length a b = compare (length a) (length b)

compare-flip : (a b : ℕ) → compare b a ≡ flip (compare a b)
compare-flip a b = ground arith

compare_trans :
    (a b c : ℕ)
    → is_gt (compare a b) ≡ false
    → is_gt (compare b c) ≡ false
    → is_gt (compare a c) ≡ false
compare_trans a b c h k = ground arith

pub by_length-IsConsistent : IsConsistent by_length
by_length-IsConsistent = record {
  flips = λ a b. compare-flip (length a) (length b);
  trans = λ a b c. compare_trans (length a) (length b) (length c);
}

abbrev pub container : Text → Text → Quantity → Text → ContainerStatus
container name state cpu node = record {
  id = name;
  name = name;
  image = codes "nginx:1";
  state = state;
  status = codes "Up 2 hours";
  health = codes "healthy";
  exit_code = pos 0;
  cpu_percent = cpu;
  memory_usage_mb = units 64;
  memory_limit_mb = units 512;
  memory_percent = units 12;
  network_rx_bytes = some 2000000;
  network_tx_bytes = none;
  net_rx_rate_kbps = some (units 2);
  net_tx_rate_kbps = none;
  block_read_mb = none;
  block_write_mb = none;
  disk_read_rate_kbps = none;
  disk_write_rate_kbps = none;
  stack = some (codes "edge");
  restart_count = 1;
  node_id = node;
  labels = [];
  created = codes "2026-01-01";
  last_seen = codes "2026-01-02";
}

abbrev pub web : ContainerStatus
web = container (codes "web") (codes "running") (units 40) (codes "truenas")

abbrev pub two_containers : List ContainerStatus
two_containers = container (codes "database") (codes "exited") 0 [] ∷ web ∷ []

abbrev pub one_device : List DeviceNode
one_device =
    record {
      id = codes "dev-homelab";
      name = codes "homelab";
      ip_address = codes "10.10.10.2";
      agent_type = codes "proxmox";
      status = codes "online";
      enroll_token = none;
      last_seen = codes "2026-01-02";
      created_at = codes "2026-01-01";
      parent_node_id = none;
      is_hypervisor = some true;
      merged_host = none;
    }
    ∷ []

abbrev pub interface : Text → Quantity → NetworkInterface
interface n rate = record {
  name = n;
  rx_bytes = 1000;
  tx_bytes = 2000;
  rx_rate_kbps = rate;
  tx_rate_kbps = 0;
  is_up = true;
  type = none;
  ip_address = none;
}

abbrev pub two_interfaces : List NetworkInterface
two_interfaces = interface (codes "veth12") (units 3) ∷ interface (codes "wlan0") (units 5) ∷ []

abbrev pub sample : HostMetrics
sample = record {
  node_id = codes "truenas";
  hostname = codes "truenas";
  os = codes "linux";
  uptime_seconds = 100;
  cpu_usage_percent = units 12;
  cpu_cores = 8;
  cpu_cores_usage = none;
  cpu_temperature = none;
  memory_total_mb = units 64000;
  memory_used_mb = units 32000;
  memory_percent = units 50;
  swap_total_mb = none;
  swap_used_mb = none;
  swap_percent = none;
  disk_total_gb = units 100;
  disk_used_gb = units 40;
  disk_percent = units 40;
  disk_read_kbps = none;
  disk_write_kbps = none;
  load_avg_1 = 500;
  load_avg_5 = 500;
  load_avg_15 = 500;
  net_bytes_sent = 1000;
  net_bytes_recv = 1000;
  net_rx_rate_kbps = none;
  net_tx_rate_kbps = none;
  network_interfaces = none;
  timestamp = codes "2026-01-01";
}
