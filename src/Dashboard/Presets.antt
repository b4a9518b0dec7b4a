-- ===== src/Dashboard/Presets.antt =====
-- The dashboard presets: which widgets are shown, and the handlers that edit them
-- (web/src/pages/Dashboard.tsx). Emoji are lists of code points.
pub mod Laws
pub mod Creation
pub mod Dialogs
pub mod Steps
use ophanim.Base.{
  Bool, true, false, not, Option, none, some, List, [], ◌∷◌, ◌++◌, map, Text, codes, trim, is_empty,
  or_text, find, filter, ◌===◌, text_eq_instance, toggle, if◌then◌else◌, or_default,
}
use ophanim.Types.{
  DashboardPreset, WidgetKey, widget_eq, slo_ribbon, overview_cards, host_telemetry, hardware_smt,
  top_containers, container_matrix, network_bus, timeseries_charts, incident_war_room,
  container_table,
}

abbrev preset : Text → Text → Text → Text → List WidgetKey → DashboardPreset
preset i n ic d ws = record {
  id = i;
  name = n;
  icon = ic;
  description = d;
  is_custom = none;
  widgets = ws;
}

abbrev pub cluster_overview : Text
cluster_overview = codes "cluster_overview"

abbrev pub overview_preset : DashboardPreset
overview_preset =
    preset cluster_overview (codes "Cluster Overview") (codes "🏛" ++ 0xfe0f ∷ [])
      (codes
        "Golden Signals ribbon, host telemetry gauges, network bus, and full living vessels inventory")
      (slo_ribbon ∷ overview_cards ∷ host_telemetry ∷ network_bus ∷ container_table ∷ [])

-- `DEFAULT_PRESETS`
abbrev pub default_presets : List DashboardPreset
default_presets =
    overview_preset
    ∷ preset (codes "hardware_thermals") (codes "Hardware & Thermals") (codes "⚡")
        (codes
          "Embedded 20-core SMT heatmap, package thermals, memory/swap saturation & time-series trends")
        (host_telemetry ∷ hardware_smt ∷ timeseries_charts ∷ container_table ∷ [])
    ∷ preset (codes "container_sre") (codes "Container & App SRE") (codes "📦")
        (codes
          "Top 5 resource hogs, restart frequency, living vessels health matrix & container inventory")
        (top_containers ∷ container_matrix ∷ container_table ∷ [])
    ∷ preset (codes "network_traffic") (codes "Network & Traffic") (codes "🌐")
        (codes
          "Real-time Inbound/Outbound throughput rates, cumulative boot transfer, synthetic latency & charts")
        (network_bus ∷ timeseries_charts ∷ container_table ∷ [])
    ∷ preset (codes "incident_war_room") (codes "Incident War Room") (codes "🚨")
        (codes
          "Active incident triage, impacted vessels, error budget burn & 1-click remediation actions")
        (slo_ribbon ∷ incident_war_room ∷ top_containers ∷ container_table ∷ [])
    ∷ []

-- The component's state, as far as the presets go.
pub record PresetState : Type 0 where
  pub presets : List DashboardPreset
  pub active_preset_id : Text
  pub is_customize_modal_open : Bool
  pub is_new_preset_modal_open : Bool
  pub new_preset_name : Text
  pub new_preset_icon : Text
  pub new_preset_desc : Text
  pub new_preset_widgets : List WidgetKey

-- What `JSON.parse` gives for a stored text: it throws, or the value is an array, or another one.
pub data Parsed : Type 0 where
  throws : Parsed
  other : Parsed
  array : List DashboardPreset → Parsed

-- The initialiser of `presets`: an exception and a value that is no array give the defaults, and
-- so does an empty array.
unfoldable pub load_presets : (Text → Parsed) → Option Text → List DashboardPreset
load_presets parse none = default_presets
load_presets parse (some []) = default_presets
load_presets parse (some (c ∷ saved)) = elim (parse (c ∷ saved)) [
  | throws ↦ default_presets
  | other ↦ default_presets
  | array ps ↦ elim ps [ [] ↦ default_presets | p ∷ rest ↦ p ∷ rest ]
]

-- The initialiser of `activePresetId`.
unfoldable pub load_active_id : Option Text → Text
load_active_id saved = or_text (or_default saved []) cluster_overview

unfoldable pub initial : (Text → Parsed) → Option Text → Option Text → PresetState
unfolding load_presets load_active_id
initial parse saved saved_id = record {
  presets = load_presets parse saved;
  active_preset_id = load_active_id saved_id;
  is_customize_modal_open = false;
  is_new_preset_modal_open = false;
  new_preset_name = [];
  new_preset_icon = codes "📊";
  new_preset_desc = [];
  new_preset_widgets = slo_ribbon ∷ host_telemetry ∷ top_containers ∷ container_table ∷ [];
}

-- The local storage: the item under each key.
abbrev pub Storage : Type 0
Storage = Text → Option Text

unfoldable pub set_item : Text → Text → Storage → Storage
set_item key item storage = λ k. if k === key then some item else storage k

-- The two initialisers, each with its key.
unfoldable pub load_page : (Text → Parsed) → Storage → PresetState
unfolding initial
load_page parse storage =
    initial parse (storage (codes "ophanim_dashboard_presets"))
      (storage (codes "ophanim_active_preset_id"))

-- The effect that saves.
unfoldable pub saved_items : (List DashboardPreset → Text) → PresetState → Storage → Storage
unfolding set_item
saved_items stringify s storage =
    set_item (codes "ophanim_active_preset_id") s.active_preset_id
      (set_item (codes "ophanim_dashboard_presets") (stringify s.presets) storage)

unfoldable pub has_id : Text → DashboardPreset → Bool
has_id i p = p.id === i

-- `presets[0] || DEFAULT_PRESETS[0]`
unfoldable pub first_preset : List DashboardPreset → DashboardPreset
first_preset [] = overview_preset
first_preset (p ∷ ps) = p

-- `activePreset`
unfoldable pub active_preset : PresetState → DashboardPreset
unfolding has_id first_preset
active_preset s = or_default (find (has_id s.active_preset_id) s.presets) (first_preset s.presets)

-- One preset under `handleToggleWidgetInActivePreset`.
unfoldable pub toggle_in : Text → WidgetKey → DashboardPreset → DashboardPreset
unfolding has_id
toggle_in i w p = if not (has_id i p) then p else record p { widgets = toggle w p.widgets }

-- `handleToggleWidgetInActivePreset`
unfoldable pub toggle_widget : WidgetKey → PresetState → PresetState
toggle_widget w s = record s { presets = map (toggle_in (active_preset s).id w) s.presets }

-- The widgets of a new preset: never none.
unfoldable pub initial_widgets : List WidgetKey → List WidgetKey
initial_widgets [] = host_telemetry ∷ container_table ∷ []
initial_widgets (w ∷ ws) = w ∷ ws

unfoldable pub new_preset : Text → PresetState → DashboardPreset
unfolding initial_widgets
new_preset now s = record {
  id = codes "custom_" ++ now;
  name = trim s.new_preset_name;
  icon = or_text s.new_preset_icon (codes "📊");
  description =
      or_text (trim s.new_preset_desc) (codes "Custom user-defined SRE telemetry dashboard");
  is_custom = some true;
  widgets = initial_widgets s.new_preset_widgets;
}

-- `handleCreatePreset`; `now` is `Date.now()` in decimal.
unfoldable pub create_preset : Text → PresetState → PresetState
unfolding new_preset
create_preset now s = if is_empty (trim s.new_preset_name) then s else record s {
  presets = s.presets ++ new_preset now s ∷ [];
  active_preset_id = codes "custom_" ++ now;
  new_preset_name = [];
  new_preset_desc = [];
  is_new_preset_modal_open = false;
}

-- `handleDeletePreset`
unfoldable pub delete_preset : Text → PresetState → PresetState
unfolding has_id
delete_preset i s = record s {
  presets = filter (λ p. not (has_id i p)) s.presets;
  active_preset_id = if s.active_preset_id === i then cluster_overview else s.active_preset_id;
}

-- `handleResetToDefaults`
unfoldable pub reset_to_defaults : PresetState → PresetState
reset_to_defaults s = record s {
  presets = default_presets;
  active_preset_id = cluster_overview;
  is_customize_modal_open = false;
}

-- A click on an item of the preset menu.
unfoldable pub select_preset : Text → PresetState → PresetState
select_preset i s = record s { active_preset_id = i }

-- A check box of the form for a new preset.
unfoldable pub toggle_new_widget : WidgetKey → PresetState → PresetState
toggle_new_widget w s = record s { new_preset_widgets = toggle w s.new_preset_widgets }
