-- ===== src/Dashboard/Containers/Groups.antt =====
-- Grouping the containers by node in web/src/pages/Dashboard.tsx.
use mathlib.Core.List.Perm
use ophanim.Base.{
  ℕ, ◌+◌, ◌≡◌, refl, sym, ap, ◌∙◌, Bool, true, false, ◌||◌, List, [], ◌∷◌, ◌++◌, map, Text, arith,
  Bool-cases, inl, inr, filter, all, length, Comparator, Perm, ◌===◌, text_eq_instance, contains,
  distinct, unique, unique-distinct, contains-unique, filter-or-Perm, filter-all, text_eq_iff,
  text_eq_sym, text_eq_refl, all-sort, all_imp, all-filter_of_all, contains-sort, sort-distinct,
  nil_of_no_length, all-filter,
}
use ophanim.Types.{ContainerStatus, DeviceNode}
use ophanim.Dashboard.Nodes.{node_of, available_node_ids, node_order}
use ophanim.Dashboard.Containers.{
  Controls, Group, is_selected, filtered_containers, on_node, group_of, is_listed, node_count,
  grouped_containers,
}
use ophanim.Dashboard.Containers.Laws.{running_add_stopped}

-- The containers of a list of groups, one group after the other.
abbrev pub members : List Group → List ContainerStatus
members [] = []
members (g ∷ gs) = g.containers ++ members gs

-- The node of a container is one of a list.
abbrev on_any : List Text → ContainerStatus → Bool
on_any is c = contains is (node_of c)

module _ (devices : List DeviceNode) (cs : List ContainerStatus) where
  filter_never : (xs : List ContainerStatus) → filter (on_any []) xs ≡ []
  unfolding contains
  filter_never [] = refl
  filter_never (c ∷ xs) = filter_never xs

  on_any-cons :
      (i : Text) (is : List Text) (xs : List ContainerStatus)
      → filter (λ c. node_of c === i || on_any is c) xs ≡ filter (on_any (i ∷ is)) xs
  unfolding contains
  on_any-cons i is [] = refl
  on_any-cons i is (c ∷ xs) = rw (text_eq_sym (node_of c) i, on_any-cons i is xs)

  apart :
      (i : Text) (is : List Text) (c : ContainerStatus)
      → contains is i ≡ false
      → (node_of c === i) ≡ true
      → on_any is c ≡ false
  apart i is c h e = rw ((text_eq_iff (node_of c) i).0 e) h

  -- The groups of distinct nodes hold, together, the containers on those nodes.
  groups-Perm :
      (is : List Text)
      → distinct is ≡ true
      → Perm (members (map (group_of devices cs) is)) (filter (on_any is) cs)
  unfolding distinct group_of on_node
  groups-Perm [] h = rw filter_never (Perm.refl [])
  groups-Perm (i ∷ is) h =
      let new : contains is i ≡ false = ground arith in
      let rest : distinct is ≡ true = ground arith in
      rw (← on_any-cons i is cs) (
        Perm.trans (Perm.append_left (on_node i cs) (groups-Perm is rest))
          (filter-or-Perm (λ c. node_of c === i) (on_any is) cs (λ c. apart i is c new)))

  empty_of_unlisted : (nf : Text) (g : Group) → is_listed nf g ≡ false → g.containers ≡ []
  unfolding is_listed
  empty_of_unlisted nf g h = nil_of_no_length g.containers (ground arith)

  -- Dropping the groups that are not listed drops no container.
  members-listed : (nf : Text) (gs : List Group) → members (filter (is_listed nf) gs) ≡ members gs
  members-listed nf [] = refl
  members-listed nf (g ∷ gs) = elim (Bool-cases (is_listed nf g)) [
    | inl e ↦ rw e (ap (λ l. g.containers ++ l) (members-listed nf gs))
    | inr e ↦
        rw e (members-listed nf gs ∙ ap (λ l. l ++ members gs) (sym (empty_of_unlisted nf g e)))
  ]

length-filter-or :
    (p q : ContainerStatus → Bool) (xs : List ContainerStatus)
    → ((c : ContainerStatus) → p c ≡ true → q c ≡ false)
    → length (filter p xs) + length (filter q xs) ≡ length (filter (λ c. p c || q c) xs)
length-filter-or p q [] h = omega arith
length-filter-or p q (c ∷ xs) h = ground (arith, length-filter-or p q xs h, h c)

-- The sum of some counters.
abbrev pub total : List ℕ → ℕ
total [] = 0
total (n ∷ ns) = n + total ns

total-filter :
    (devices : List DeviceNode) (cs : List ContainerStatus) (is : List Text)
    → distinct is ≡ true
    → total (map (node_count cs) is) ≡ length (filter (on_any is) cs)
unfolding distinct node_count on_node
total-filter devices cs [] h = rw (filter_never devices cs cs) refl
total-filter devices cs (i ∷ is) h =
    let new : contains is i ≡ false = ground arith in
    let rest : distinct is ≡ true = ground arith in
    ap (λ n. length (filter (λ c. node_of c === i) cs) + n) (total-filter devices cs is rest)
    ∙ (length-filter-or (λ c. node_of c === i) (on_any is) cs (λ c. apart devices cs i is c new)
        ∙ ap length (on_any-cons devices cs i is cs))

-- The containers of a group are on its node, and its counters add up to their number.
abbrev pub IsGroup : Group → Type 0
IsGroup g =
    (all (λ c. node_of c === g.node_id) g.containers ≡ true)
    × (g.running_count + g.stopped_count ≡ length g.containers)

abbrev pub Each : (Group → Type 0) → List Group → Type 0
Each P [] = Unit
Each P (g ∷ gs) = P g × Each P gs

group_of-IsGroup :
    (devices : List DeviceNode) (cs : List ContainerStatus) (i : Text)
    → IsGroup (group_of devices cs i)
unfolding group_of
group_of-IsGroup devices cs i =
    (unfold on_node in all-filter (λ c. node_of c === i) cs, running_add_stopped (on_node i cs))

Each-groups :
    (devices : List DeviceNode) (cs : List ContainerStatus) (nf : Text) (is : List Text)
    → Each IsGroup (filter (is_listed nf) (map (group_of devices cs) is))
Each-groups devices cs nf [] = tt
Each-groups devices cs nf (i ∷ is) = elim (Bool-cases (is_listed nf (group_of devices cs i))) [
  | inl e ↦ rw e (group_of-IsGroup devices cs i, Each-groups devices cs nf is)
  | inr e ↦ rw e (Each-groups devices cs nf is)
]

-- Every container is on one of the nodes of the list.
all-on_any-map : (xs : List ContainerStatus) → all (on_any (map node_of xs)) xs ≡ true
unfolding contains
all-on_any-map [] = refl
all-on_any-map (c ∷ xs) =
    rw (text_eq_refl (node_of c))
      (all_imp (on_any (map node_of xs)) _ xs (λ d h. ground arith) (all-on_any-map xs))

module _ (locale_compare : Comparator Text) where
  contains-available :
      (cs : List ContainerStatus) (i : Text)
      → contains (available_node_ids locale_compare cs) i ≡ contains (map node_of cs) i
  unfolding available_node_ids
  contains-available cs i =
      contains-sort (node_order locale_compare) (unique (map node_of cs)) i
      ∙ contains-unique (map node_of cs) i

  ids-distinct :
      (cs : List ContainerStatus) → distinct (available_node_ids locale_compare cs) ≡ true
  unfolding available_node_ids
  ids-distinct cs = sort-distinct (node_order locale_compare) _ (unique-distinct (map node_of cs))

  all-filtered :
      (k : Controls) (cs : List ContainerStatus)
      → all
          (on_any (available_node_ids locale_compare cs))
          (filtered_containers locale_compare k cs)
        ≡ true
  unfolding filtered_containers
  all-filtered k cs =
      all-sort _ _ (filter (is_selected k) cs)
      ∙ all-filter_of_all _ (is_selected k) cs
          (all_imp _ _ cs (λ c h. contains-available cs (node_of c) ∙ h) (all-on_any-map cs))

  -- The groups hold together exactly the filtered containers, each as often, whatever the filters
  -- are; each group holds containers of its own node only, and its two counters add up.
  pub grouped_containers_lem :
      (k : Controls) (devices : List DeviceNode) (cs : List ContainerStatus)
      → Perm
          (members (grouped_containers locale_compare k devices cs))
          (filtered_containers locale_compare k cs)
        × Each IsGroup (grouped_containers locale_compare k devices cs)
  unfolding grouped_containers
  grouped_containers_lem k devices cs =
      let filtered = filtered_containers locale_compare k cs in
      let ids = available_node_ids locale_compare cs in
      (
        rw (members-listed devices filtered k.node_filter) (
            rw (filter-all (on_any ids) filtered (all-filtered k cs)) at
              (groups-Perm devices filtered ids (ids-distinct cs))),
        Each-groups devices filtered k.node_filter ids,
      )

  -- The counters of the rail, one for each node, add up to the number of containers.
  pub total-node_count :
      (cs : List ContainerStatus)
      → total (map (node_count cs) (available_node_ids locale_compare cs)) ≡ length cs
  total-node_count cs =
      let ids = available_node_ids locale_compare cs in
      let here : all (on_any ids) cs ≡ true =
        all_imp _ _ cs (λ c h. contains-available cs (node_of c) ∙ h) (all-on_any-map cs) in
      total-filter [] cs ids (ids-distinct cs) ∙ ap length (filter-all (on_any ids) cs here)
