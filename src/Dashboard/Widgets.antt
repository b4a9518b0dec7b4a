-- ===== src/Dashboard/Widgets.antt =====
-- Which widgets the page shows for a preset, and in which order (web/src/pages/Dashboard.tsx).
pub mod Laws
use ophanim.Base.{Bool, true, false, not, ◌&&◌, List, [], ◌∷◌, filter, contains}
use ophanim.Types.{
  WidgetKey, widget_eq, slo_ribbon, overview_cards, host_telemetry, hardware_smt, top_containers,
  container_matrix, network_bus, timeseries_charts, incident_war_room, container_table,
}

-- The widgets from the top of the page to its end.
abbrev pub widget_order : List WidgetKey
widget_order =
    slo_ribbon ∷ overview_cards ∷ host_telemetry ∷ hardware_smt ∷ top_containers ∷ container_matrix
    ∷ network_bus ∷ timeseries_charts ∷ incident_war_room ∷ container_table ∷ []

-- The matrix of the cores needs the metrics of the selected node; the others need nothing.
unfoldable pub is_ready : Bool → WidgetKey → Bool
is_ready has_metrics hardware_smt = has_metrics
is_ready has_metrics _ = true

-- The conditions `activePreset.widgets.includes(…)` of the page, in its order.
unfoldable pub shown_widgets : Bool → List WidgetKey → List WidgetKey
unfolding is_ready
shown_widgets has_metrics widgets =
    filter (λ k. contains widgets k && is_ready has_metrics k) widget_order
