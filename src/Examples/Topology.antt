-- ===== src/Examples/Topology.antt =====
-- The topology page, web/src/pages/TopologyView.tsx, at concrete nodes.
use ophanim.Base.{none, some, List, [], ◌∷◌, ◌++◌, Text, codes, Perm}
use ophanim.Types.{TopologyNode, NodeType, host, container, database, healthy}
use ophanim.Topology.{routers, hosts_of, databases, services}
use ophanim.Topology.Laws.{tiers-Perm}
use ophanim.Examples.Data.{by_length}

abbrev graph_node : Text → NodeType → TopologyNode
graph_node i t = record {
  id = i;
  label = i;
  type = t;
  status = healthy;
  parent_id = some (codes "local-lxc");
  metadata = some ((codes "stack", codes "edge") ∷ []);
  x = none;
  y = none;
}

abbrev graph : List TopologyNode
graph =
    graph_node (codes "local-lxc") host
    ∷ graph_node (codes "web") container
    ∷ graph_node (codes "db") database
    ∷ []

tiers_example :
    Perm
      (routers by_length graph
        ++ (hosts_of by_length graph ++ (databases by_length graph ++ services by_length graph)))
      graph
tiers_example = tiers-Perm by_length graph
