-- ===== src/Dashboard/Containers/Chosen.antt =====
-- What the controls of the table ask for, in words of the page
-- (web/src/pages/Dashboard.tsx).
use ophanim.Base.{
  ◌≤◌, ◌≡◌, refl, ◌≢◌, ◌↔◌, ◌⊎◌, inl, inr, ap, Bool, true, false, not, ◌&&◌, ◌||◌, Option, none,
  some, List, [], ◌∷◌, ◌++◌, Text, codes, arith, ◌===◌, text_eq_instance, text_eq_iff, to_lower,
  includes, starts_with, Comparator, is_gt, or_default, or_text, Bool-cases, IsSorted, Ahead,
}
use ophanim.Types.{ContainerStatus}
use ophanim.Dashboard.Nodes.{node_of}
use ophanim.Dashboard.Containers.{
  Controls, StateFilter, all_states, only_running, only_stopped, SortKey, by_name, by_cpu,
  by_memory, by_restarts, by_network, is_running, matches_text, matches_stack, matches_state,
  matches_node, is_selected, container_order,
}

-- The text holds the part, with something before it and something behind it.
abbrev Holds : Text → Text → Type 0
Holds part s = (before : Text) × (behind : Text) × (s ≡ before ++ part ++ behind)

-- The text holds the search text, in any case of the letters.
abbrev HoldsText : Text → Text → Type 0
HoldsText search s = Holds (to_lower search) (to_lower s)

-- The node of a container; one without a node stands on the local host.
abbrev own_node : Text → Text
own_node [] = codes "local-lxc"
own_node (c ∷ t) = c ∷ t

abbrev InState : StateFilter → ContainerStatus → Type 0
InState all_states c = Unit
InState only_running c = c.state ≡ codes "running"
InState only_stopped c = c.state ≢ codes "running"

-- Some stack with a name that holds the search text.
abbrev InStack : Text → Option Text → Type 0
InStack search none = ⊥
InStack search (some s) = (s ≢ []) × HoldsText search s

-- The container stands on the chosen node, if one is chosen, in the chosen state, and its name, its
-- image or its stack holds the search text.
abbrev pub IsChosen : Controls → ContainerStatus → Type 0
IsChosen k c =
    ((k.node_filter ≡ codes "all") ⊎ (own_node c.node_id ≡ k.node_filter))
    × (((HoldsText k.search c.name ⊎ HoldsText k.search c.image) ⊎ InStack k.search c.stack)
        × InState k.state_filter c)

-- The tests of the source against the words.
not_iff : {P : Type 0} (b : Bool) → (b ≡ true) ↔ P → (not b ≡ true) ↔ (P → ⊥)
not_iff true (there, back) = (λ e. cc, λ h. absurd (h (there refl)))
not_iff false (there, back) = (λ e p. absurd (ne (back p)), λ h. refl)
  where
    ne : false ≢ true
    ne e = cc

and_iff :
    {P Q : Type 0} (a b : Bool) → (a ≡ true) ↔ P → (b ≡ true) ↔ Q → ((a && b) ≡ true) ↔ (P × Q)
and_iff true b (there, back) (to, from) = (λ e. (there refl, to e), λ h. from h.1)
and_iff false b (there, back) (to, from) = (λ e. cc, λ h. back h.0)

or_iff : {P Q : Type 0} (a b : Bool) → (a ≡ true) ↔ P → (b ≡ true) ↔ Q → ((a || b) ≡ true) ↔ (P ⊎ Q)
or_iff true b (there, back) (to, from) = (λ e. inl (there refl), λ h. refl)
or_iff {P = P} {Q = Q} false b (there, back) (to, from) = (λ e. inr (to e), behind)
  where
    ne : false ≢ true
    ne e = cc

    behind : P ⊎ Q → b ≡ true
    behind (inl p) = absurd (ne (back p))
    behind (inr q) = from q

starts_with-split : (s p : Text) → starts_with s p ≡ true → (behind : Text) × (s ≡ p ++ behind)
unfolding starts_with
starts_with-split s [] h = (s, refl)
starts_with-split [] (b ∷ p) h = cc
starts_with-split (a ∷ s) (b ∷ p) h =
    let (behind, e) = starts_with-split s p (ground arith) in (behind, ground (arith, e))

starts_with-append : (p behind : Text) → starts_with (p ++ behind) p ≡ true
unfolding starts_with
starts_with-append [] behind = refl
starts_with-append (b ∷ p) behind = ground (arith, starts_with-append p behind)

includes-Holds : (s p : Text) → includes s p ≡ true → Holds p s
unfolding includes
includes-Holds [] p h = let (behind, e) = starts_with-split [] p h in ([], behind, e)
includes-Holds (a ∷ s) p h = elim (Bool-cases (starts_with (a ∷ s) p)) [
  | inl e ↦ let (behind, f) = starts_with-split (a ∷ s) p e in ([], behind, f)
  | inr e ↦
      let (before, behind, f) = includes-Holds s p (ground arith) in
      (a ∷ before, behind, ap (λ t. a ∷ t) f)
]

includes-middle : (before p behind : Text) → includes (before ++ p ++ behind) p ≡ true
unfolding includes
includes-middle [] [] [] = unfold starts_with in refl
includes-middle [] [] (b ∷ behind) = unfold starts_with in refl
includes-middle [] (a ∷ p) behind = rw (starts_with-append (a ∷ p) behind) refl
includes-middle (a ∷ before) p behind = ground (arith, includes-middle before p behind)

matches_text-HoldsText : (search s : Text) → (matches_text search s ≡ true) ↔ HoldsText search s
unfolding matches_text
matches_text-HoldsText search s = (
  includes-Holds (to_lower s) (to_lower search),
  λ (before, behind, e). rw e (includes-middle before (to_lower search) behind),
)

matches_stack-InStack :
    (search : Text) (o : Option Text) → (matches_stack search o ≡ true) ↔ InStack search o
unfolding matches_stack
matches_stack-InStack search none = (λ e. absurd (ground arith), λ e. absurd e)
matches_stack-InStack search (some []) = (λ e. absurd (ground arith), λ h. absurd (h.0 refl))
matches_stack-InStack search (some (c ∷ s)) = (
  λ e. (λ f. cc, (matches_text-HoldsText search (c ∷ s)).0 e),
  λ h. (matches_text-HoldsText search (c ∷ s)).1 h.1,
)

matches_state-InState :
    (f : StateFilter) (c : ContainerStatus) → (matches_state f c ≡ true) ↔ InState f c
unfolding matches_state is_running
matches_state-InState all_states c = (λ e. tt, λ e. refl)
matches_state-InState only_running c = text_eq_iff c.state (codes "running")
matches_state-InState only_stopped c =
    not_iff (c.state === codes "running") (text_eq_iff c.state (codes "running"))

node_of-own_node : (c : ContainerStatus) → node_of c ≡ own_node c.node_id
unfolding node_of
node_of-own_node c = go c.node_id
  where
    go : (t : Text) → or_text t (codes "local-lxc") ≡ own_node t
    go [] = refl
    go (a ∷ t) = refl

matches_node-IsChosen :
    (f : Text) (c : ContainerStatus)
    → (matches_node f c ≡ true) ↔ ((f ≡ codes "all") ⊎ (own_node c.node_id ≡ f))
unfolding matches_node
matches_node-IsChosen f c =
    or_iff (f === codes "all") (node_of c === f) (text_eq_iff f (codes "all"))
      (rw (node_of-own_node c) (text_eq_iff (own_node c.node_id) f))

-- The test of the table is what the controls ask for.
pub is_selected-IsChosen :
    (k : Controls) (c : ContainerStatus) → (is_selected k c ≡ true) ↔ IsChosen k c
unfolding is_selected
is_selected-IsChosen k c =
    and_iff (matches_node k.node_filter c) _ (matches_node-IsChosen k.node_filter c) (
      and_iff _ (matches_state k.state_filter c)
        (or_iff (matches_text k.search c.name || matches_text k.search c.image)
          (matches_stack k.search c.stack)
          (or_iff (matches_text k.search c.name) (matches_text k.search c.image)
            (matches_text-HoldsText k.search c.name) (matches_text-HoldsText k.search c.image))
          (matches_stack-InStack k.search c.stack))
        (matches_state-InState k.state_filter c))

-- May the first stand in front of the second? The names go by the collation and every number from
-- the largest to the smallest; a container that has received nothing counts as zero.
abbrev pub Precedes : Comparator Text → SortKey → ContainerStatus → ContainerStatus → Type 0
Precedes locale_compare by_name a b = is_gt (locale_compare a.name b.name) ≡ false
Precedes locale_compare by_cpu a b = b.cpu_percent ≤ a.cpu_percent
Precedes locale_compare by_memory a b = b.memory_usage_mb ≤ a.memory_usage_mb
Precedes locale_compare by_restarts a b = b.restart_count ≤ a.restart_count
Precedes locale_compare by_network a b =
    or_default b.network_rx_bytes 0 ≤ or_default a.network_rx_bytes 0

abbrev pub Front : (ContainerStatus → Type 0) → List ContainerStatus → Type 0
Front P [] = Unit
Front P (c ∷ cs) = P c × Front P cs

-- Each may stand in front of all that are behind it.
abbrev pub IsRanked : Comparator Text → SortKey → List ContainerStatus → Type 0
IsRanked locale_compare key [] = Unit
IsRanked locale_compare key (c ∷ cs) =
    Front (Precedes locale_compare key c) cs × IsRanked locale_compare key cs

container_order-Precedes :
    (locale_compare : Comparator Text) (key : SortKey) (a b : ContainerStatus)
    → is_gt (container_order locale_compare key a b) ≡ false
    → Precedes locale_compare key a b
unfolding container_order
container_order-Precedes locale_compare by_name a b h = h
container_order-Precedes locale_compare by_cpu a b h = ground arith
container_order-Precedes locale_compare by_memory a b h = ground arith
container_order-Precedes locale_compare by_restarts a b h = ground arith
container_order-Precedes locale_compare by_network a b h = ground arith

Ahead-Front :
    (locale_compare : Comparator Text) (key : SortKey) (c : ContainerStatus)
    (cs : List ContainerStatus)
    → Ahead (container_order locale_compare key) c cs
    → Front (Precedes locale_compare key c) cs
Ahead-Front locale_compare key c [] h = tt
Ahead-Front locale_compare key c (d ∷ cs) h =
    (container_order-Precedes locale_compare key c d h.0, Ahead-Front locale_compare key c cs h.1)

pub IsSorted-IsRanked :
    (locale_compare : Comparator Text) (key : SortKey) (cs : List ContainerStatus)
    → IsSorted (container_order locale_compare key) cs
    → IsRanked locale_compare key cs
IsSorted-IsRanked locale_compare key [] h = tt
IsSorted-IsRanked locale_compare key (c ∷ cs) h =
    (Ahead-Front locale_compare key c cs h.0, IsSorted-IsRanked locale_compare key cs h.1)
