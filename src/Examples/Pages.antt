-- ===== src/Examples/Pages.antt =====
-- The log console, the incidents and the theme at concrete states.
use ophanim.Base.{
  ◌≡◌, refl, sym, ◌≤◌, true, false, not, ◌&&◌, none, List, [], ◌∷◌, Text, codes, length, filter,
  all, any, if◌then◌else◌, has_text, text_eq, text_eq_instance, ◌⊎◌,
}
use ophanim.Types.{LogEntry, ContainerStatus, DeviceNode}
use ophanim.Logs.{
  first_logs, entries_of, thrown, select_tab, logs, LogsState, log_node, device_option,
  container_option, is_container_source, refetch, fetch_logs, default_source, first_source,
  same_tab,
}
use ophanim.Dashboard.Containers.{is_running}
use ophanim.Logs.Laws.{
  start, after, tab_selected, refreshed, answer_all, LogsReach-answer_all, log_node-option,
}
use ophanim.Logs.Rows.{
  ink, message_tint, filtered_logs, line_tint, is_shown, all_levels, errors_only, warnings_only,
}
use ophanim.Logs.Rows.Laws.{is_crimson, is_emerald, filtered_logs-line_tint}
use ophanim.Incidents.{
  first_incidents, start_act, return_to_page, approve, is_locked, IncidentsState,
}
use ophanim.Incidents.Laws
use ophanim.Incidents.Laws.{
  ActReach, returned, clicked, is_running_on, ActReach-once, start_act-twice,
}
use ophanim.Theme.{dark, Page, load_theme, apply_theme}
use ophanim.Theme.Laws.{theme_classes, load_theme-apply_theme, is_dark}
use ophanim.Examples.Data.{two_containers, container}

-- The console is opened, shows its logs and is refreshed once.
abbrev opened : LogsState
opened = select_tab logs (first_logs [] two_containers)

abbrev asked : LogsState
asked = fetch_logs opened.selected_source opened

asked-pending : length asked.pending ≡ 2
unfolding fetch_logs select_tab first_logs refetch default_source first_source is_running text_eq
    same_tab
asked-pending = refl

LogsReach_example :
    ((answer_all (thrown ∷ entries_of [] ∷ []) asked).loading ≡ false)
    × ((answer_all (thrown ∷ entries_of [] ∷ []) asked).pending ≡ [])
LogsReach_example =
    LogsReach-answer_all [] two_containers (thrown ∷ entries_of [] ∷ [])
      (after (after start (tab_selected logs)) refreshed) (sym asked-pending)

abbrev first_container : ContainerStatus
first_container = container (codes "database") (codes "exited") 0 []

abbrev web_container : ContainerStatus
web_container = container (codes "web") (codes "running") 40 (codes "truenas")

abbrev gateway : DeviceNode
gateway = record {
  id = codes "local-lxc";
  name = codes "Local";
  ip_address = codes "10.10.10.1";
  agent_type = codes "local";
  status = codes "online";
  enroll_token = none;
  last_seen = [];
  created_at = [];
  parent_node_id = none;
  is_hypervisor = none;
  merged_host = none;
}

no_host : any (is_container_source (device_option gateway)) two_containers ≡ false
unfolding is_container_source device_option text_eq
no_host = refl

no_web : any (is_container_source (container_option web_container)) (first_container ∷ []) ≡ false
unfolding is_container_source container_option text_eq
no_web = refl

log_node_example :
    (log_node two_containers (gateway ∷ []) (device_option gateway) ≡ gateway.id)
    × (log_node
          (first_container ∷ web_container ∷ [])
          (gateway ∷ [])
          (container_option web_container)
        ≡ web_container.node_id)
log_node_example =
    log_node-option two_containers (first_container ∷ []) [] web_container (gateway ∷ []) [] []
      gateway refl no_host refl refl no_web

abbrev entry : Text → Text → LogEntry
entry level message = record {
  source = codes "web";
  node_id = codes "truenas";
  level = level;
  message = message;
  timestamp = codes "2026-01-01T00:00:00Z";
}

abbrev two_entries : List LogEntry
two_entries = entry (codes "ERROR") (codes "down") ∷ entry (codes "WARN") (codes "slow") ∷ []

filtered_logs_example :
    (filtered_logs (codes "w") errors_only two_entries
      ≡ filter (λ m. is_crimson (line_tint m)) (filtered_logs (codes "w") all_levels two_entries))
    × (all
          (λ m. not (is_emerald (line_tint m)))
          (filtered_logs (codes "w") warnings_only two_entries)
        ≡ true)
    × ((is_shown (codes "w") all_levels (entry [] (codes "up"))
          && is_emerald (line_tint (entry [] (codes "up"))))
        ≡ (is_shown (codes "w") all_levels (entry [] (codes "up"))
            && (not (is_shown (codes "w") errors_only (entry [] (codes "up")))
                && not (is_shown (codes "w") warnings_only (entry [] (codes "up"))))))
    × (message_tint (entry [] (codes "up")) ≡ (
        if is_emerald (line_tint (entry [] (codes "up")))
        then ink
        else line_tint (entry [] (codes "up"))))
filtered_logs_example = filtered_logs-line_tint (codes "w") two_entries (entry [] (codes "up"))

abbrev acting : IncidentsState
acting =
    start_act (codes "i1") approve (return_to_page (start_act (codes "i1") approve first_incidents))

ActReach_example :
    (length acting.running ≤ 1)
    × (is_locked (codes "i1") acting.acting_id ≡ is_running_on (codes "i1") acting.running)
    × (length acting.left_behind ≤ 1)
ActReach_example = ActReach-once (codes "i1") (
    Laws.after (returned (Laws.after Laws.start (clicked (codes "i1") approve refl)))
      (clicked (codes "i1") approve refl))

abbrev page : Page
page = record {
  stored = none;
  classes = codes "theme-parchment" ∷ codes "wide" ∷ [];
  data_theme = [];
  background = [];
}

load_theme_example :
    (load_theme (apply_theme dark page).stored ≡ dark)
    × ((has_text (apply_theme dark page).classes (codes "dark") ≡ is_dark dark)
        × (has_text (apply_theme dark page).classes (codes "theme-dark") ≡ is_dark dark)
        × (has_text (apply_theme dark page).classes (codes "theme-parchment") ≡ not (is_dark dark)))
    × ((has_text theme_classes (codes "wide") ≡ true)
        ⊎ (has_text (apply_theme dark page).classes (codes "wide")
            ≡ has_text page.classes (codes "wide")))
load_theme_example = load_theme-apply_theme dark page (codes "wide")
