-- ===== src/Topology.antt =====
-- The topology page: the tiers of the service graph, the nodes on a host and their stacks
-- (web/src/pages/TopologyView.tsx).
pub mod Laws
pub mod Cards
use ophanim.Base.{
  Bool, true, false, ◌&&◌, ◌||◌, not, Option, none, some, List, [], ◌∷◌, ◌++◌, map, Text, codes,
  or_text, or_default, ◌===◌, text_eq_instance, if◌then◌else◌, includes, to_lower, filter, length,
  ◌==◌, any, is_empty, Comparator, Ordering, sort,
}
use ophanim.Types.{
  TopologyNode, NodeType, NodeStatus, node_type_eq, host, container, service, proxy, database,
  router, critical,
}

-- `n.metadata?.[key]`
unfoldable pub meta_entry : Text → List (Text × Text) → Option Text
meta_entry key [] = none
meta_entry key ((k, v) ∷ rest) = if k === key then some v else meta_entry key rest

unfoldable pub meta_of : Text → TopologyNode → Option Text
unfolding meta_entry
meta_of key n = meta_entry key (or_default n.metadata [])

unfoldable pub is_router : TopologyNode → Bool
is_router n = (n.type === router) || (n.type === proxy)

unfoldable pub is_host : TopologyNode → Bool
is_host n = n.type === host

unfoldable pub is_database : TopologyNode → Bool
is_database n = n.type === database

unfoldable pub is_service : TopologyNode → Bool
is_service n = (n.type === container) || (n.type === service)

-- An optional text that is there and equal to another.
abbrev equals : Option Text → Text → Bool
equals none t = false
equals (some s) t = s === t

-- `!n.parent_id`
abbrev no_parent : TopologyNode → Bool
no_parent n = is_empty (or_default n.parent_id [])

-- The predicate of `getHostContainers`; `hosts` is the number of hosts.
unfoldable pub is_on_host : List TopologyNode → Text → TopologyNode → Bool
unfolding is_host meta_of
is_on_host hosts host_id n =
    not (is_host n)
    && (equals n.parent_id host_id
        || equals (meta_of (codes "node") n) host_id
        || length hosts == 1
        || (no_parent n && includes host_id (codes "local")))

-- `getHostContainers`
unfoldable pub get_host_containers :
    List TopologyNode → List TopologyNode → Text → List TopologyNode
unfolding is_on_host
get_host_containers nodes hosts host_id = filter (is_on_host hosts host_id) nodes

-- `n.metadata?.stack || 'standalone'`
unfoldable pub stack_of : TopologyNode → Text
stack_of n = or_text (or_default (meta_of (codes "stack") n) []) (codes "standalone")

-- A record of the nodes of each stack, in the order of its entries.
abbrev pub Stacks : Type 0
Stacks = List (Text × List TopologyNode)

-- One round of the loop that fills the record.
unfoldable pub add_to_stack : TopologyNode → Stacks → Stacks
unfolding stack_of
add_to_stack n [] = (stack_of n, n ∷ []) ∷ []
add_to_stack n ((k, ns) ∷ rest) =
    let more = add_to_stack n rest in
    if k === stack_of n then (k, ns ++ n ∷ []) ∷ rest else (k, ns) ∷ more

-- The loop over the nodes, from a record on.
unfoldable pub fill_stacks : List TopologyNode → Stacks → Stacks
unfolding add_to_stack
fill_stacks [] stacks = stacks
fill_stacks (n ∷ ns) stacks = fill_stacks ns (add_to_stack n stacks)

-- `hasIncident` of a stack.
unfoldable pub has_incident : List TopologyNode → Bool
has_incident ns = any (λ n. is_critical n.status) ns
  where
    is_critical : NodeStatus → Bool
    is_critical critical = true
    is_critical _ = false

-- `toggleStack`; the record as a function, false where it has no entry.
unfoldable pub toggle_stack : Text → (Text → Bool) → Text → Bool
toggle_stack i collapsed j = if j === i then not (collapsed i) else collapsed j

unfoldable pub names_local : TopologyNode → Bool
names_local n = includes n.id (codes "local") || includes (to_lower n.label) (codes "local")

module _ (locale_compare : Comparator Text) where
  unfoldable pub by_label : Comparator TopologyNode
  by_label a b = locale_compare a.label b.label

  -- The comparator of `hosts`.
  unfoldable pub host_order : Comparator TopologyNode
  unfolding names_local by_label
  host_order a b =
      if names_local a then Ordering.lt else if names_local b then Ordering.gt else by_label a b

  unfoldable pub routers : List TopologyNode → List TopologyNode
  unfolding is_router
  routers nodes = sort by_label (filter is_router nodes)

  unfoldable pub hosts_of : List TopologyNode → List TopologyNode
  hosts_of nodes = sort host_order (filter is_host nodes)

  unfoldable pub databases : List TopologyNode → List TopologyNode
  unfolding is_database
  databases nodes = sort by_label (filter is_database nodes)

  unfoldable pub services : List TopologyNode → List TopologyNode
  unfolding is_service
  services nodes = sort by_label (filter is_service nodes)

  -- `sortedStacks`
  unfoldable pub sorted_stacks : List TopologyNode → Stacks
  unfolding fill_stacks
  sorted_stacks nodes = sort (λ a b. locale_compare a.0 b.0) (fill_stacks nodes [])

  -- `sortedNodes`
  unfoldable pub sorted_nodes : List TopologyNode → List TopologyNode
  sorted_nodes ns = sort by_label ns
