-- ===== src/Settings.antt =====
-- The settings page: loading, saving, the discovery of models and the test of a channel
-- (web/src/pages/SettingsView.tsx). A handler that awaits is two steps, one in front of the request
-- and one behind it; `model` in the second one is the value that the handler was called with.
pub mod Save
pub mod Laws
pub mod Inputs
use ophanim.Base.{
  ℕ, zero, suc, ◌+◌, Bool, true, false, not, ◌&&◌, ◌||◌, Option, none, some, List, [], ◌∷◌, ◌++◌,
  Text, codes, trim, is_empty, or_text, or_default, or_number, ◌===◌, text_eq_instance,
  if◌then◌else◌, contains, length, take, take_last, ltb,
}
use ophanim.Types.{Quantity, units}

pub data StatusMessage : Type 0 where
  success_message : StatusMessage
  error_message : Text → StatusMessage

-- What the discovery of models says: how many there are, a notice, or that there are none.
pub data ModelMessage : Type 0 where
  discovered : ℕ → ModelMessage
  notice failed : Text → ModelMessage
  nothing_returned : ModelMessage

pub data Channel : Type 0 where
  discord telegram : Channel

pub record TestResult : Type 0 where
  pub channel : Channel
  pub success : Bool
  pub message : Text

pub record SettingsState : Type 0 where
  pub is_loading : Bool
  pub is_saving : Bool
  pub status_msg : Option StatusMessage
  pub provider : Text
  pub model : Text
  pub endpoint : Text
  pub api_key : Text
  pub api_key_masked : Text
  pub temperature : Quantity
  pub available_models : List Text
  pub is_fetching_models : Bool
  pub model_fetch_msg : Option ModelMessage
  pub cpu_critical : Quantity
  pub memory_critical : Quantity
  pub disk_critical : Quantity
  pub auto_heal_max : ℕ
  pub discord_enabled : Bool
  pub discord_webhook : Text
  pub telegram_enabled : Bool
  pub telegram_token : Text
  pub telegram_chat_id : Text
  pub testing_channel : Option Channel
  pub test_result : Option TestResult

-- The settings as the server sends them; any field may be missing.
pub record LlmData : Type 0 where
  pub llm_provider : Option Text
  pub llm_model : Option Text
  pub llm_endpoint : Option Text
  pub llm_api_key_masked : Option Text
  pub llm_temperature : Option Quantity

pub record ThresholdData : Type 0 where
  pub cpu_critical_percent : Option Quantity
  pub memory_critical_percent : Option Quantity
  pub disk_critical_percent : Option Quantity
  pub auto_heal_max_per_hour : Option ℕ

pub record ChatopsData : Type 0 where
  pub data_discord_enabled : Option Bool
  pub data_telegram_enabled : Option Bool

pub record SettingsData : Type 0 where
  pub llm : Option LlmData
  pub thresholds : Option ThresholdData
  pub chatops : Option ChatopsData

abbrev text_or : Option Text → Text → Text
text_or o d = or_text (or_default o []) d

unfoldable pub take_llm : Option LlmData → SettingsState → SettingsState
take_llm none s = s
take_llm (some d) s = record s {
  provider = text_or d.llm_provider (codes "gemini");
  model = text_or d.llm_model (codes "gemini-2.5-flash");
  endpoint = text_or d.llm_endpoint [];
  api_key_masked = text_or d.llm_api_key_masked [];
  temperature = or_number d.llm_temperature 200;
}

unfoldable pub take_thresholds : Option ThresholdData → SettingsState → SettingsState
take_thresholds none s = s
take_thresholds (some d) s = record s {
  cpu_critical = or_number d.cpu_critical_percent (units 95);
  memory_critical = or_number d.memory_critical_percent (units 95);
  disk_critical = or_number d.disk_critical_percent (units 92);
  auto_heal_max = or_number d.auto_heal_max_per_hour 2;
}

unfoldable pub take_chatops : Option ChatopsData → SettingsState → SettingsState
take_chatops none s = s
take_chatops (some d) s = record s {
  discord_enabled = or_default d.data_discord_enabled false;
  telegram_enabled = or_default d.data_telegram_enabled false;
}

-- `fetchSettings`; `none` when the request fails or its status is an error.
unfoldable pub fetch_settings : Option SettingsData → SettingsState → SettingsState
unfolding take_llm take_thresholds take_chatops
fetch_settings none s = record s { is_loading = false }
fetch_settings (some d) s =
    record (take_chatops d.chatops (take_thresholds d.thresholds (take_llm d.llm s))) {
      is_loading = false;
    }

-- The body of the request for models.
pub record ModelRequest : Type 0 where
  pub request_provider : Text
  pub request_endpoint : Text
  pub request_api_key : Text

-- `fetchAvailableModels` up to the request.
unfoldable pub start_models : ModelRequest → SettingsState → SettingsState × ModelRequest
start_models r s = (record s { is_fetching_models = true; model_fetch_msg = none }, r)

-- The answer: an exception, an error status, or the models and an error text, if any.
pub data ModelAnswer : Type 0 where
  model_throws refused : Text → ModelAnswer
  lists : List Text → Option Text → ModelAnswer

unfoldable pub empty_answer : Option Text → ModelMessage
empty_answer none = nothing_returned
empty_answer (some []) = nothing_returned
empty_answer (some (c ∷ e)) = notice (c ∷ e)

unfoldable pub take_models : Text → ModelAnswer → SettingsState → SettingsState
unfolding empty_answer
take_models captured (model_throws e) s = record s { model_fetch_msg = some (failed e) }
take_models captured (refused e) s = record s { model_fetch_msg = some (notice e) }
take_models captured (lists [] e) s = record s { model_fetch_msg = some (empty_answer e) }
take_models captured (lists (m ∷ ms) e) s = record s {
  available_models = m ∷ ms;
  model_fetch_msg = some (discovered (length (m ∷ ms)));
  model = if is_empty captured || not (contains (m ∷ ms) captured) then m else s.model;
}

-- `fetchAvailableModels` behind the request.
unfoldable pub end_models : Text → ModelAnswer → SettingsState → SettingsState
unfolding take_models
end_models captured a s = record (take_models captured a s) { is_fetching_models = false }

-- The model and the endpoint that a provider starts with.
unfoldable pub provider_defaults : Text → Option (Text × Text)
provider_defaults p =
    if p === codes "gemini"
    then some (codes "gemini-2.5-flash", codes "https://generativelanguage.googleapis.com")
    else if p === codes "claude"
    then some (codes "claude-3-5-sonnet-20241022", codes "https://api.anthropic.com")
    else if p === codes "openai"
    then some (codes "gpt-4o-mini", codes "https://api.openai.com/v1")
    else if p === codes "mistral"
    then some (codes "mistral-large-latest", codes "https://api.mistral.ai/v1")
    else if p === codes "ollama"
    then some (codes "llama3.2", codes "http://10.20.20.10:11434")
    else if p === codes "custom"
    then some (codes "meta-llama/llama-3.2-3b-instruct", codes "http://10.20.20.10:8000/v1")
    else none

abbrev with_defaults : Option (Text × Text) → SettingsState → SettingsState
with_defaults none s = s
with_defaults (some (m, e)) s = record s { model = m; endpoint = e }

-- `handleProviderChange`: the request has the endpoint and the key of the render before.
unfoldable pub change_provider : Text → SettingsState → SettingsState × ModelRequest
unfolding start_models
change_provider p s =
    start_models
      (record { request_provider = p; request_endpoint = s.endpoint; request_api_key = s.api_key })
      (with_defaults (provider_defaults p) (record s { provider = p }))
