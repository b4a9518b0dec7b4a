-- ===== src/Dashboard/Cards.antt =====
-- The overview cards, the leaderboards, the tiles of the matrix and the war room
-- (web/src/pages/Dashboard.tsx).
use ophanim.Base.{
  ℕ, ◌+◌, Bool, Option, none, some, List, [], ◌∷◌, map, Text, codes, filter, length, ◌===◌,
  text_eq_instance, if◌then◌else◌, ltb, min, or_text, ◌==◌,
}
use ophanim.Types.{ContainerStatus, DeviceNode, Incident, ActionRequest, Quantity, units, Severity}
use ophanim.Dashboard.Containers.{
  is_running, running_containers, stopped_containers, top_cpu_containers, top_mem_containers,
}
use ophanim.Dashboard.Columns.{Figure, figure_or, or_quantity}
use ophanim.Dashboard.Nodes.{local}

-- The card of the devices: how many of how many are online; no device counts as one.
unfoldable pub online_card : List DeviceNode → ℕ × ℕ
online_card ds =
    (length (filter (λ d. d.status === codes "online") ds), if length ds == 0 then 1 else length ds)

-- The card of the incidents: their number, and the word beside it.
unfoldable pub incident_card : List Incident → ℕ × Text
incident_card is = (length is, if ltb 0 (length is) then codes "ACTIVE" else codes "CLEAR")

-- The card of the containers: all, active and idle.
unfoldable pub vessel_card : List ContainerStatus → ℕ × ℕ × ℕ
unfolding running_containers stopped_containers
vessel_card cs = (length cs, running_containers cs, stopped_containers cs)

-- A row of a leaderboard: its rank, its names, its figure and the width of its bar.
pub record LeaderRow : Type 0 where
  pub rank : ℕ
  pub name : Text
  pub node : Text
  pub figure : Figure
  pub width : Quantity

abbrev rank_from : (ℕ → ContainerStatus → LeaderRow) → ℕ → List ContainerStatus → List LeaderRow
rank_from row i [] = []
rank_from row i (c ∷ cs) = row i c ∷ rank_from row (i + 1) cs

unfoldable pub cpu_row : ℕ → ContainerStatus → LeaderRow
cpu_row i c = record {
  rank = i;
  name = c.name;
  node = or_text c.node_id local;
  figure = figure_or 1 c.cpu_percent (codes "0.1");
  width = min (or_quantity c.cpu_percent (units 1)) (units 100);
}

unfoldable pub cpu_leaderboard : List ContainerStatus → List LeaderRow
unfolding cpu_row top_cpu_containers
cpu_leaderboard cs = rank_from cpu_row 1 (top_cpu_containers cs)

unfoldable pub memory_row : ℕ → ContainerStatus → LeaderRow
memory_row i c = record {
  rank = i;
  name = c.name;
  node = or_text c.node_id local;
  figure = figure_or 0 c.memory_usage_mb (codes "32");
  width = min (or_quantity c.memory_percent (units 2)) (units 100);
}

unfoldable pub memory_leaderboard : List ContainerStatus → List LeaderRow
unfolding memory_row top_mem_containers
memory_leaderboard cs = rank_from memory_row 1 (top_mem_containers cs)

-- A tile of the matrix.
pub record Tile : Type 0 where
  pub is_bright : Bool
  pub state : Text
  pub load : Figure
  pub memory : Figure

unfoldable pub tile_of : ContainerStatus → Tile
unfolding is_running
tile_of c = record {
  is_bright = is_running c;
  state = c.state;
  load = figure_or 0 c.cpu_percent (codes "0");
  memory = figure_or 0 c.memory_usage_mb (codes "-");
}

unfoldable pub matrix : List ContainerStatus → List Tile
unfolding tile_of
matrix cs = map tile_of cs

-- What the war room says of a proposed action.
unfoldable pub remediation : ActionRequest → Text
remediation a = or_text a.reason (or_text a.action_type (codes "Automated Container Restart"))

-- A card of the war room: the title, the summary, and the remediation with its button.
pub record WarCard : Type 0 where
  pub title : Text
  pub severity : Severity
  pub summary : Option Text
  pub action : Option Text

abbrev action_of : Option ActionRequest → Option Text
action_of none = none
action_of (some a) = some (remediation a)

unfoldable pub war_room : List Incident → List WarCard
unfolding remediation
war_room is =
    map
      (λ i. record {
        title = i.title;
        severity = i.severity;
        summary = i.root_cause_summary;
        action = action_of i.proposed_action;
      })
      is
