-- ===== src/Examples/Shell.antt =====
-- The shell, web/src/App.tsx, and the settings, web/src/pages/SettingsView.tsx, at concrete states.
use ophanim.Base.{
  ◌+◌, ◌∷◌, ◌≡◌, refl, ◌≢◌, true, false, Option, none, some, [], Text, codes, is_empty, trim,
  if◌then◌else◌, ◌===◌, text_eq_instance, drop_while, is_space,
}
use ophanim.Types.{units}
use ophanim.Examples.Data.{sample}
use ophanim.Dashboard.Nodes.{local_lxc, active_metrics}
use ophanim.App.Data.{
  first_data, entry, Answers, throws, refused, sends, on_message, metrics_updated,
}
use ophanim.App.Data.Laws.{sample_node, on_message-metrics}
use ophanim.App.Actions.{first_shell, approve_fix, delete_device, start_call}
use ophanim.App.Actions.Laws.{
  start, after, called, answer_calls, answer_fetches, reached, ShellReach-answer_all,
}
use ophanim.App.Panels.{PanelState, item, broken, first_panels, KeyPress, key_down}
use ophanim.Navigation.{NavState, dock_items, choose_dock}
use ophanim.App.Panels.Laws.{start, after, pressed, dock_chosen, IsShown, PanelReach-IsShown}
use ophanim.Settings.{SettingsState, fetch_settings}
use ophanim.Settings.Save.{start_save, end_save, saved, save_refused, save_throws}
use ophanim.Settings.Laws.{kept, fetch_settings-start_save, end_save_lem}

abbrev answers : Answers
answers = record {
  container_answer = sends (some []);
  incident_answer = throws;
  device_answer = sends none;
  topology_answer = refused;
}

on_message_example :
    (entry local_lxc (on_message (metrics_updated sample) first_data).0.node_metrics ≡ (
      if sample_node sample === local_lxc
      then some sample
      else entry local_lxc first_data.node_metrics))
    × (active_metrics
          (λ i. entry i (on_message (metrics_updated sample) first_data).0.node_metrics)
          (on_message (metrics_updated sample) first_data).0.metrics
          (sample_node sample)
        ≡ some sample)
    × ((on_message (metrics_updated sample) first_data).0.containers ≡ first_data.containers)
    × ((on_message (metrics_updated sample) first_data).0.incidents ≡ first_data.incidents)
    × ((on_message (metrics_updated sample) first_data).0.devices ≡ first_data.devices)
on_message_example = on_message-metrics sample local_lxc first_data

abbrev panels : PanelState
panels = first_panels (item (some (codes "true")))

abbrev ctrl_k : KeyPress
ctrl_k = record { meta_key = false; ctrl_key = true; key = codes "K" }

-- The page that the logs' item of the dock opens.
abbrev loaded : NavState
loaded = record { panels = first_panels broken; is_mobile_menu_open = false }

PanelReach_example :
    IsShown
      (choose_dock
        (record { id = codes "logs"; label = codes "Telemetry"; badge = none })
        (record loaded { panels = key_down ctrl_k loaded.panels })).panels
unfolding dock_items
PanelReach_example = PanelReach-IsShown broken (
    after (after start (pressed ctrl_k)) (
      dock_chosen 0 3 (record { id = codes "logs"; label = codes "Telemetry"; badge = none }) refl))

abbrev page : SettingsState
page = record {
  is_loading = false;
  is_saving = false;
  status_msg = none;
  provider = codes "openai";
  model = codes "gpt-4o-mini";
  endpoint = codes "https://api.openai.com/v1";
  api_key = codes " sk-123456 ";
  api_key_masked = [];
  temperature = 0;
  available_models = [];
  is_fetching_models = false;
  model_fetch_msg = none;
  cpu_critical = units 95;
  memory_critical = units 95;
  disk_critical = units 92;
  auto_heal_max = 0;
  discord_enabled = false;
  discord_webhook = [];
  telegram_enabled = false;
  telegram_token = [];
  telegram_chat_id = [];
  testing_channel = none;
  test_result = none;
}

provider-ne-nil : page.provider ≢ []
provider-ne-nil e = cc

model-ne-nil : page.model ≢ []
model-ne-nil e = cc

fetch-save_example :
    ((fetch_settings (some (kept (start_save page).1)) page).provider ≡ page.provider)
    × ((fetch_settings (some (kept (start_save page).1)) page).model ≡ page.model)
    × ((fetch_settings (some (kept (start_save page).1)) page).endpoint ≡ page.endpoint)
    × ((fetch_settings (some (kept (start_save page).1)) page).temperature ≡ 200)
    × ((fetch_settings (some (kept (start_save page).1)) page).cpu_critical ≡ units 95)
    × ((fetch_settings (some (kept (start_save page).1)) page).memory_critical ≡ units 95)
    × ((fetch_settings (some (kept (start_save page).1)) page).disk_critical ≡ units 92)
    × ((fetch_settings (some (kept (start_save page).1)) page).auto_heal_max ≡ 2)
fetch-save_example = fetch_settings-start_save page page provider-ne-nil model-ne-nil

has_key : is_empty (trim page.api_key) ≡ false
unfolding trim drop_while is_space
has_key = refl

-- Another key with the same ends.
abbrev other_key : Text
other_key = codes " sk-abcde56 "

has_other : is_empty (trim other_key) ≡ false
unfolding trim drop_while is_space
has_other = refl

end_save_example :
    ((end_save saved (start_save page).0).is_saving ≡ false)
    × (end_save saved (start_save page).0
        ≡ end_save saved (start_save (record page { api_key = other_key })).0)
    × ((start_save page).1.save_api_key ≡ some (trim page.api_key))
    × ((e : Option Text) → (end_save (save_refused e) (start_save page).0).api_key ≡ page.api_key)
    × ((e : Text) → (end_save (save_throws e) (start_save page).0).api_key ≡ page.api_key)
end_save_example = end_save_lem saved page other_key has_key has_other refl

ShellReach_example :
    let clicked =
      start_call
        (delete_device (codes "nas"))
        (start_call (approve_fix (codes "i1")) first_shell) in
    let outcomes = true ∷ false ∷ [] in
    let answers_then = none ∷ some answers ∷ [] in
    ((answer_calls outcomes clicked).refreshes ≡ clicked.refreshes + reached outcomes)
    × (let t = answer_fetches answers_then (answer_calls outcomes clicked) in
        (t.data_state.is_refreshing ≡ false) × (t.refreshes ≡ 0) × (t.calls ≡ []))
unfolding start_call first_shell
ShellReach_example =
    ShellReach-answer_all (true ∷ false ∷ []) (none ∷ some answers ∷ [])
      (after (after start (called (approve_fix (codes "i1"))))
        (called (delete_device (codes "nas"))))
      refl refl
