-- ===== src/Dashboard/Gauges/Laws.antt =====
-- The gauges against the inspector, and the node menu against the gauges
-- (web/src/pages/Dashboard.tsx with web/src/components/HardwareInspector.tsx).
use ophanim.Base.{
  ℕ, zero, suc, ◌+◌, ◌≡◌, refl, false, Option, map, Text, arith, min, is_empty, ◌==◌, if◌then◌else◌,
}
use ophanim.Types.{units, HostMetrics}
use ophanim.Dashboard.Nodes.{active_metrics}
use ophanim.Dashboard.Gauges.{smt_core, smt_from, smt_cores, entry_metrics, choose_node, NodeMenu}
use ophanim.Hardware.{core_usage, cores_from, cores, core_count}

smt_from-cores_from :
    (m : HostMetrics) (i n : ℕ)
    → map (λ c. c.usage) (cores_from m i n) ≡ map (min (units 100)) (smt_from m i n)
unfolding cores_from smt_from core_usage smt_core
smt_from-cores_from m i zero = refl
smt_from-cores_from m i (suc n) =
    let clamped : core_usage m i ≡ min (units 100) (smt_core m i) = omega arith in
    rw (clamped, smt_from-cores_from m (i + 1) n) refl

-- The page and the inspector agree on the cores: the inspector shows as many as the matrix of the
-- page, and of each what the matrix shows, cut at a hundred per cent.
pub smt_cores-cores :
    (m : HostMetrics) → map (λ c. c.usage) (cores m) ≡ map (min (units 100)) (smt_cores m)
unfolding cores smt_cores core_count
smt_cores-cores m = smt_from-cores_from m 0 (if m.cpu_cores == 0 then 4 else m.cpu_cores)

-- The menu agrees with the gauges: the metrics that an entry is shown with are those that the page
-- shows once the entry is chosen, and choosing it closes the menu; an entry has a name.
entry_metrics-choose_node :
    (node_metrics : Text → Option HostMetrics) (metrics : Option HostMetrics) (i : Text)
    (s : NodeMenu)
    → is_empty i ≡ false
    → (entry_metrics node_metrics metrics i
        ≡ active_metrics node_metrics metrics (choose_node i s).selected_telemetry_node)
      × ((choose_node i s).is_node_dropdown_open ≡ false)
unfolding choose_node entry_metrics active_metrics
entry_metrics-choose_node node_metrics metrics i s h = (ground (arith, h), refl)
