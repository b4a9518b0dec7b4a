-- ===== src/Settings/Inputs.antt =====
-- The tabs and the inputs of the settings (web/src/pages/SettingsView.tsx).
use ophanim.Base.{
  Bool, true, false, not, ◌||◌, Option, none, some, List, [], ◌∷◌, Text, codes, ℕ, ◌===◌,
  text_eq_instance, if◌then◌else◌,
}
use ophanim.Types.{Quantity}
use ophanim.Theme.{Theme, parchment, dark, theme_name, set_theme}
use ophanim.Settings.{SettingsState, Channel, discord, telegram}

pub data SettingsTab : Type 0 where
  llm_tab chatops_tab appearance_tab thresholds_tab : SettingsTab

-- The state of the page that is not saved: the tab, and what is unfolded.
pub record PageState : Type 0 where
  pub active_tab : SettingsTab
  pub show_api_key : Bool
  pub show_discord_guide : Bool
  pub show_telegram_guide : Bool

unfoldable pub first_page : PageState
first_page = record {
  active_tab = llm_tab;
  show_api_key = false;
  show_discord_guide = false;
  show_telegram_guide = false;
}

unfoldable pub set_tab : SettingsTab → PageState → PageState
set_tab t s = record s { active_tab = t }

unfoldable pub toggle_api_key : PageState → PageState
toggle_api_key s = record s { show_api_key = not s.show_api_key }

unfoldable pub toggle_discord_guide : PageState → PageState
toggle_discord_guide s = record s { show_discord_guide = not s.show_discord_guide }

unfoldable pub toggle_telegram_guide : PageState → PageState
toggle_telegram_guide s = record s { show_telegram_guide = not s.show_telegram_guide }

-- The options of the list of providers.
abbrev pub provider_options : List Text
provider_options =
    codes "gemini"
    ∷ codes "claude"
    ∷ codes "mistral"
    ∷ codes "openai"
    ∷ codes "ollama"
    ∷ codes "custom"
    ∷ []

-- The model is chosen from a list once models are known, and typed before that.
unfoldable pub has_model_list : SettingsState → Bool
has_model_list s = not (is_nil s.available_models)
  where
    is_nil : List Text → Bool
    is_nil [] = true
    is_nil (t ∷ ts) = false

unfoldable pub set_model : Text → SettingsState → SettingsState
set_model v s = record s { model = v }

-- `isCustomEndpointAllowed`
unfoldable pub is_custom_endpoint_allowed : Text → Bool
is_custom_endpoint_allowed provider = provider === codes "custom" || provider === codes "ollama"

-- The endpoint can be typed for the providers that may have one of their own.
unfoldable pub set_endpoint : Text → SettingsState → SettingsState
unfolding is_custom_endpoint_allowed
set_endpoint v s = if is_custom_endpoint_allowed s.provider then record s { endpoint = v } else s

unfoldable pub endpoint_placeholder : Text → Text
endpoint_placeholder provider =
    if provider === codes "ollama"
    then codes "http://10.20.20.10:11434"
    else codes "http://10.20.20.10:8000/v1"

unfoldable pub set_api_key : Text → SettingsState → SettingsState
set_api_key v s = record s { api_key = v }

unfoldable pub set_temperature : Quantity → SettingsState → SettingsState
set_temperature v s = record s { temperature = v }

unfoldable pub set_discord_webhook : Text → SettingsState → SettingsState
set_discord_webhook v s = record s { discord_webhook = v }

unfoldable pub set_telegram_token : Text → SettingsState → SettingsState
set_telegram_token v s = record s { telegram_token = v }

unfoldable pub set_telegram_chat_id : Text → SettingsState → SettingsState
set_telegram_chat_id v s = record s { telegram_chat_id = v }

unfoldable pub set_cpu_critical : Quantity → SettingsState → SettingsState
set_cpu_critical v s = record s { cpu_critical = v }

unfoldable pub set_memory_critical : Quantity → SettingsState → SettingsState
set_memory_critical v s = record s { memory_critical = v }

unfoldable pub set_disk_critical : Quantity → SettingsState → SettingsState
set_disk_critical v s = record s { disk_critical = v }

unfoldable pub set_auto_heal_max : ℕ → SettingsState → SettingsState
set_auto_heal_max v s = record s { auto_heal_max = v }

-- The button of a channel: disabled and renamed while its own test runs.
abbrev same_channel : Channel → Channel → Bool
same_channel discord discord = true
same_channel telegram telegram = true
same_channel _ _ = false

unfoldable pub is_testing : Channel → Option Channel → Bool
is_testing c none = false
is_testing c (some d) = same_channel c d

unfoldable pub test_label : Channel → Option Channel → Text
unfolding is_testing
test_label c testing = if is_testing c testing then codes "Sending..." else codes "Send Test Alert"

-- The two cards of the theme, each with whether it is marked as active.
unfoldable pub theme_cards : Theme → List (Theme × Bool)
unfolding theme_name
theme_cards current =
    (parchment, theme_name current === codes "parchment")
    ∷ (dark, theme_name current === codes "dark")
    ∷ []

-- A click on a card.
unfoldable pub choose_theme : Theme × Bool → Theme → Theme
unfolding set_theme
choose_theme card current = set_theme card.0 current
