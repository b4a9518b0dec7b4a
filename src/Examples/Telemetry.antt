-- ===== src/Examples/Telemetry.antt =====
-- The chart's drawing, the widgets, the gauges, the inspector and the rail at concrete values.
use ophanim.Base.{
  Option, ℤ, ◌≡◌, refl, ℕ, ◌*◌, ◌++◌, true, false, none, some, List, [], ◌∷◌, map, Text, text_eq,
  starts_with, codes, length, all, min, pos,
}
use ophanim.Types.{DeviceNode, MetricPoint, Quantity, units}
use ophanim.Chart.{hour_1, range_name, cpu_tab, values, max_y}
use ophanim.Chart.History.{
  HistoryRequest, first_history, points_of, not_array, start_interval, select_target, request,
}
use ophanim.Chart.History.Laws.{answer_all, start, after, target_selected, HistoryReach-answer_all}
use ophanim.Chart.History.{device_target}
use ophanim.Chart.History.Targets.{request-device_target}
use ophanim.Chart.Laws.{max_y-Fits}
use ophanim.Chart.Plot.{Point, points, x_unit, y_unit, update_size}
use ophanim.Chart.Plot.Laws.{is_inside, points-is_inside}
use ophanim.Chart.Pointer.{distances, point_distance, pointer_move, active_point}
use ophanim.Chart.Pointer.Laws.{IsFirstLeast, pointer_move-active_point}
use ophanim.Dashboard.Presets.{PresetState, default_presets, cluster_overview}
use ophanim.Dashboard.Gauges.{smt_cores}
use ophanim.Dashboard.Gauges.Laws.{smt_cores-cores}
use ophanim.Hardware.{cores}
use ophanim.Examples.Data.{one_device, sample}

abbrev measured : Text → Quantity → MetricPoint
measured t q = record {
  timestamp = t;
  cpu_percent = q;
  mem_percent = q;
  memory_usage_mb = none;
  net_rx_kbps = q;
  net_tx_kbps = q;
  disk_read_kbps = q;
  disk_write_kbps = q;
  cpu_temp = none;
}

abbrev history : List MetricPoint
history = measured (codes "later") (units 30) ∷ measured (codes "now") (units 120) ∷ []

-- A clock that reads a time stamp off its length.
abbrev clock : Text → Option ℤ
clock t = some (pos (length t * 1000000))

points_example :
    (drawn : List Point) × (points clock 9000000 (update_size 300 500) hour_1 cpu_tab false history
      ≡ some drawn)
    × (all
          (is_inside
            (update_size 300 500)
            (x_unit hour_1 (length history))
            (y_unit (max_y cpu_tab false (values cpu_tab false history))))
          drawn
        ≡ true)
    × (length drawn ≡ length history)
points_example =
    points-is_inside clock 9000000 (update_size 300 500) hour_1 cpu_tab false history refl
      (max_y-Fits false (values cpu_tab false history)).0

abbrev point_at : ℕ → Point
point_at x = record { x = x; y = pos 20; val = units 5; point = measured [] 0 }

pointer_move_example :
    (i : ℕ) × (q : Point) × (pointer_move
        (update_size 300 500)
        10
        150
        (pos 40)
        (point_at 3 ∷ point_at 700 ∷ [])
        none
      ≡ some i)
    × (active_point (some i) (point_at 3 ∷ point_at 700 ∷ []) ≡ some q)
    × IsFirstLeast
        (distances (update_size 300 500) 10 150 (pos 40) (point_at 3 ∷ point_at 700 ∷ []))
        i
        (point_distance (update_size 300 500) 10 150 (pos 40) q)
pointer_move_example =
    pointer_move-active_point (update_size 300 500) 10 150 (pos 40) (point_at 3) (point_at 700 ∷ [])
      none refl

abbrev first_visit : PresetState
first_visit = record {
  presets = default_presets;
  active_preset_id = cluster_overview;
  is_customize_modal_open = false;
  is_new_preset_modal_open = false;
  new_preset_name = [];
  new_preset_icon = [];
  new_preset_desc = [];
  new_preset_widgets = [];
}

smt_cores_example : map (λ c. c.usage) (cores sample) ≡ map (min (units 100)) (smt_cores sample)
smt_cores_example = smt_cores-cores sample

abbrev plain : Text → Text
plain t = t

HistoryReach_example :
    let asked =
      select_target plain []
        (codes "nas")
        (start_interval plain [] (first_history (codes "host"))) in
    (answer_all (not_array ∷ points_of history ∷ []) asked
      ≡ record asked { history = history; loading = false; pending = [] })
    × (before : List HistoryRequest) × (seen : List DeviceNode) × (asked.pending
        ≡ before ++ request plain seen asked.target asked.range ∷ [])
unfolding select_target text_eq first_history
HistoryReach_example =
    HistoryReach-answer_all plain [] (codes "host") (not_array ∷ []) history
      (after start (target_selected [] (codes "nas"))) refl

-- A device that the list does not hold yet.
abbrev arriving : DeviceNode
arriving = record {
  id = codes "pve";
  name = codes "pve";
  ip_address = codes "10.10.10.3";
  agent_type = codes "proxmox";
  status = codes "online";
  enroll_token = none;
  last_seen = codes "2026-01-02";
  created_at = codes "2026-01-02";
  parent_node_id = none;
  is_hypervisor = none;
  merged_host = none;
}

device_target_example :
    (request plain one_device (device_target arriving) hour_1).url
    ≡ codes "/api/metrics/history?node_id="
      ++ plain arriving.id
      ++ codes "&range="
      ++ range_name hour_1
unfolding starts_with text_eq
device_target_example = request-device_target plain one_device arriving hour_1 refl refl
