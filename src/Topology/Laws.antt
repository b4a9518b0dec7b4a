-- ===== src/Topology/Laws.antt =====
-- The tiers and the stacks are partitions (web/src/pages/TopologyView.tsx).
use mathlib.Core.List.Perm
use ophanim.Base.{
  ◌≡◌, refl, Bool, true, false, ◌||◌, List, [], ◌∷◌, ◌++◌, map, Text, ◌===◌, text_eq_instance, all,
  distinct, Comparator, sort-Perm, Perm, filter-or-Perm, filter-all,
}
use ophanim.Types.{
  TopologyNode, NodeType, NodeType-discrete, node_type_eq, host, container, service, proxy,
  database, router,
}
use ophanim.Topology.{
  is_router, is_host, is_database, is_service, stack_of, Stacks, routers, hosts_of, databases,
  services,
}

-- The tests of the tiers, on the type alone.
abbrev routes : NodeType → Bool
routes t = (t === router) || (t === proxy)

abbrev stores : NodeType → Bool
stores t = t === database

abbrev serves : NodeType → Bool
serves t = (t === container) || (t === service)

some_tier : (t : NodeType) → (routes t || ((t === host) || (stores t || serves t))) ≡ true
unfolding NodeType-discrete
some_tier host = refl
some_tier _ = refl

router_apart : (t : NodeType) → routes t ≡ true → ((t === host) || (stores t || serves t)) ≡ false
unfolding NodeType-discrete
router_apart router h = refl
router_apart proxy h = refl
router_apart _ h = cc

host_apart : (t : NodeType) → (t === host) ≡ true → (stores t || serves t) ≡ false
unfolding NodeType-discrete
host_apart host h = refl
host_apart _ h = cc

database_apart : (t : NodeType) → stores t ≡ true → serves t ≡ false
unfolding NodeType-discrete
database_apart database h = refl
database_apart _ h = cc

all_some_tier :
    (nodes : List TopologyNode)
    → all (λ n. routes n.type || ((n.type === host) || (stores n.type || serves n.type))) nodes
      ≡ true
all_some_tier [] = refl
all_some_tier (n ∷ nodes) = rw (some_tier n.type) (all_some_tier nodes)

module _ (locale_compare : Comparator Text) where
  -- The tiers of the service graph and the hosts hold together every node exactly once, whatever
  -- the collation is.
  pub tiers-Perm :
      (nodes : List TopologyNode)
      → Perm
          (routers locale_compare nodes
            ++ (hosts_of locale_compare nodes
                ++ (databases locale_compare nodes ++ services locale_compare nodes)))
          nodes
  unfolding routers hosts_of databases services is_router is_host is_database is_service
  tiers-Perm nodes =
      Perm.trans
        (Perm.append (sort-Perm _ _)
          (Perm.append (sort-Perm _ _) (Perm.append (sort-Perm _ _) (sort-Perm _ _))))
        (Perm.trans
          (Perm.append_left _ (
            Perm.trans (Perm.append_left _ (filter-or-Perm _ _ nodes (λ n. database_apart n.type)))
              (filter-or-Perm _ _ nodes (λ n. host_apart n.type))))
          (rw (filter-all _ nodes (all_some_tier nodes)) at
            (filter-or-Perm _ _ nodes (λ n. router_apart n.type))))

-- The nodes of a record of stacks, one stack after the other.
abbrev pub stacked : Stacks → List TopologyNode
stacked [] = []
stacked ((k, ns) ∷ rest) = ns ++ stacked rest

-- The nodes of each stack name that stack.
abbrev pub AllStacks : Stacks → Type 0
AllStacks [] = Unit
AllStacks ((k, ns) ∷ rest) = (all (λ n. stack_of n === k) ns ≡ true) × AllStacks rest

abbrev names : Stacks → List Text
names = map (λ p. p.0)

-- What a record of stacks of some nodes is.
pub record IsStacking (stacks : Stacks) (nodes : List TopologyNode) : Type 0 where
  pub same_nodes : Perm (stacked stacks) nodes
  pub own_stack : AllStacks stacks
  pub one_entry : distinct (names stacks) ≡ true
