-- ===== src/Types.antt =====
-- web/src/types/index.ts: the records that the API sends and the views read.
-- A measured number is a `Quantity`: a non-negative number in thousandths of the source's unit,
-- so that the source's thresholds and comparisons are exact. A field marked `?` is an `Option`.
use ophanim.Base.{ℕ, ◌*◌, Option, List, Bool, Text, Eq, eq_of_discrete, ℤ}

abbrev pub Quantity : Type 0
Quantity = ℕ

-- A whole number of the source's unit.
abbrev pub units : ℕ → Quantity
units n = n * 1000

pub data Severity : Type 0 where
  info warning error critical : Severity

pub data IncidentStatus : Type 0 where
  open_status triaging remediating resolved ignored : IncidentStatus

pub record NetworkInterface : Type 0 where
  pub name : Text
  pub rx_bytes : ℕ
  pub tx_bytes : ℕ
  pub rx_rate_kbps : Quantity
  pub tx_rate_kbps : Quantity
  pub is_up : Bool
  pub type : Option Text
  pub ip_address : Option Text

pub record HostMetrics : Type 0 where
  pub node_id : Text
  pub hostname : Text
  pub os : Text
  pub uptime_seconds : ℕ
  pub cpu_usage_percent : Quantity
  pub cpu_cores : ℕ
  pub cpu_cores_usage : Option (List Quantity)
  pub cpu_temperature : Option Quantity
  pub memory_total_mb : Quantity
  pub memory_used_mb : Quantity
  pub memory_percent : Quantity
  pub swap_total_mb : Option Quantity
  pub swap_used_mb : Option Quantity
  pub swap_percent : Option Quantity
  pub disk_total_gb : Quantity
  pub disk_used_gb : Quantity
  pub disk_percent : Quantity
  pub disk_read_kbps : Option Quantity
  pub disk_write_kbps : Option Quantity
  pub load_avg_1 : Quantity
  pub load_avg_5 : Quantity
  pub load_avg_15 : Quantity
  pub net_bytes_sent : ℕ
  pub net_bytes_recv : ℕ
  pub net_rx_rate_kbps : Option Quantity
  pub net_tx_rate_kbps : Option Quantity
  pub network_interfaces : Option (List NetworkInterface)
  pub timestamp : Text

pub record MetricPoint : Type 0 where
  pub timestamp : Text
  pub cpu_percent : Quantity
  pub mem_percent : Quantity
  pub memory_usage_mb : Option Quantity
  pub net_rx_kbps : Quantity
  pub net_tx_kbps : Quantity
  pub disk_read_kbps : Quantity
  pub disk_write_kbps : Quantity
  pub cpu_temp : Option Quantity

pub record ContainerStatus : Type 0 where
  pub id : Text
  pub name : Text
  pub image : Text
  pub state : Text
  pub status : Text
  pub health : Text
  pub exit_code : ℤ
  pub cpu_percent : Quantity
  pub memory_usage_mb : Quantity
  pub memory_limit_mb : Quantity
  pub memory_percent : Quantity
  pub network_rx_bytes : Option ℕ
  pub network_tx_bytes : Option ℕ
  pub net_rx_rate_kbps : Option Quantity
  pub net_tx_rate_kbps : Option Quantity
  pub block_read_mb : Option Quantity
  pub block_write_mb : Option Quantity
  pub disk_read_rate_kbps : Option Quantity
  pub disk_write_rate_kbps : Option Quantity
  pub stack : Option Text
  pub restart_count : ℕ
  pub node_id : Text
  pub labels : List (Text × Text)
  pub created : Text
  pub last_seen : Text

pub record ActionRequest : Type 0 where
  pub id : Text
  pub incident_id : Text
  pub action_type : Text
  pub target_node : Text
  pub target_id : Text
  pub target_name : Text
  pub reason : Text
  pub whitelisted : Bool
  pub auto_execute : Bool
  pub requested_at : Text

pub record Incident : Type 0 where
  pub id : Text
  pub title : Text
  pub description : Text
  pub severity : Severity
  pub status : IncidentStatus
  pub root_cause_summary : Option Text
  pub impacted_targets : List Text
  pub proposed_action : Option ActionRequest
  pub resolution_notes : Option Text
  pub created_at : Text
  pub updated_at : Text
  pub resolved_at : Option Text

pub record DeviceNode : Type 0 where
  pub id : Text
  pub name : Text
  pub ip_address : Text
  pub agent_type : Text
  pub status : Text
  pub enroll_token : Option Text
  pub last_seen : Text
  pub created_at : Text
  pub parent_node_id : Option Text
  pub is_hypervisor : Option Bool
  pub merged_host : Option Text

pub data NodeType : Type 0 where
  host container service proxy database router : NodeType

pub data NodeStatus : Type 0 where
  healthy warning critical unknown : NodeStatus

pub record TopologyNode : Type 0 where
  pub id : Text
  pub label : Text
  pub type : NodeType
  pub status : NodeStatus
  pub parent_id : Option Text
  pub metadata : Option (List (Text × Text))
  pub x : Option ℤ
  pub y : Option ℤ

pub record TopologyEdge : Type 0 where
  pub id : Text
  pub source_id : Text
  pub target_id : Text
  pub type : Text
  pub status : Text

pub record LogEntry : Type 0 where
  pub source : Text
  pub node_id : Text
  pub level : Text
  pub message : Text
  pub timestamp : Text

pub data WidgetKey : Type 0 where
  slo_ribbon overview_cards host_telemetry hardware_smt top_containers : WidgetKey
  container_matrix network_bus timeseries_charts incident_war_room container_table : WidgetKey

unfoldable pub WidgetKey-discrete : Discrete WidgetKey
WidgetKey-discrete = hlevel

instance abbrev pub widget_eq : Eq WidgetKey
widget_eq = eq_of_discrete WidgetKey-discrete

unfoldable pub NodeType-discrete : Discrete NodeType
NodeType-discrete = hlevel

instance abbrev pub node_type_eq : Eq NodeType
node_type_eq = eq_of_discrete NodeType-discrete

pub record DashboardPreset : Type 0 where
  pub id : Text
  pub name : Text
  pub icon : Text
  pub description : Text
  pub is_custom : Option Bool
  pub widgets : List WidgetKey
