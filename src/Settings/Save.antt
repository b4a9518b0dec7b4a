-- ===== src/Settings/Save.antt =====
-- Saving the settings and testing a channel (web/src/pages/SettingsView.tsx).
use ophanim.Base.{
  Bool, true, false, ℕ, true, false, Option, none, some, [], ◌++◌, Text, codes, trim, is_empty,
  or_text, or_default, if◌then◌else◌, length, take, take_last, ltb,
}
use ophanim.Types.{Quantity}
use ophanim.Settings.{
  SettingsState, success_message, error_message, Channel, discord, telegram, TestResult,
}

-- The body of the request that saves.
pub record SavePayload : Type 0 where
  pub save_enabled : Bool
  pub save_provider : Text
  pub save_model : Text
  pub save_endpoint : Text
  pub save_temperature : Quantity
  pub save_api_key : Option Text
  pub save_cpu_critical : Quantity
  pub save_memory_critical : Quantity
  pub save_disk_critical : Quantity
  pub save_auto_heal_max : ℕ

-- `s.trim()` when it is not blank.
abbrev pub given : Text → Option Text
given s = if is_empty (trim s) then none else some (trim s)

-- `handleSave` up to the request.
unfoldable pub start_save : SettingsState → SettingsState × SavePayload
start_save s = (
  record s { is_saving = true; status_msg = none },
  record {
    save_enabled = true;
    save_provider = s.provider;
    save_model = s.model;
    save_endpoint = s.endpoint;
    save_temperature = s.temperature;
    save_api_key = given s.api_key;
    save_cpu_critical = s.cpu_critical;
    save_memory_critical = s.memory_critical;
    save_disk_critical = s.disk_critical;
    save_auto_heal_max = s.auto_heal_max;
  },
)

-- What a request comes to: an exception, an error text if there is one, or success.
pub data SaveAnswer : Type 0 where
  save_throws : Text → SaveAnswer
  save_refused : Option Text → SaveAnswer
  saved : SaveAnswer

-- The mask of a key: its ends, or six asterisks.
unfoldable pub mask_key : Text → Text
mask_key k = if ltb 6 (length k) then take 3 k ++ codes "..." ++ take_last 3 k else codes "******"

-- `handleSave` behind the request, on the state that it began with.
unfoldable pub end_save : SaveAnswer → SettingsState → SettingsState
unfolding mask_key
end_save (save_throws e) s = record s { is_saving = false; status_msg = some (error_message e) }
end_save (save_refused e) s = record s {
  is_saving = false;
  status_msg = some (error_message (or_text (or_default e []) (codes "Failed to save settings")));
}
end_save saved s =
    if is_empty (trim s.api_key)
    then record s { is_saving = false; status_msg = some success_message }
    else record s {
      is_saving = false;
      status_msg = some success_message;
      api_key_masked = mask_key s.api_key;
      api_key = [];
    }

-- The time-out that clears the message.
unfoldable pub clear_status : SettingsState → SettingsState
clear_status s = record s { status_msg = none }

-- The body of the request that tests a channel.
pub record TestBody : Type 0 where
  pub body_channel : Channel
  pub webhook_url : Option Text
  pub bot_token : Option Text
  pub chat_id : Option Text

unfoldable pub test_body : Channel → SettingsState → TestBody
test_body discord s = record {
  body_channel = discord;
  webhook_url = given s.discord_webhook;
  bot_token = none;
  chat_id = none;
}
test_body telegram s = record {
  body_channel = telegram;
  webhook_url = none;
  bot_token = given s.telegram_token;
  chat_id = given s.telegram_chat_id;
}

-- `testChatOps` up to the request.
unfoldable pub start_test : Channel → SettingsState → SettingsState × TestBody
unfolding test_body
start_test c s = (record s { testing_channel = some c; test_result = none }, test_body c s)

-- What the test comes to: an exception, an error text, or a status text, if there is one.
pub data TestAnswer : Type 0 where
  test_throws : Text → TestAnswer
  test_refused test_passed : Option Text → TestAnswer

unfoldable pub result_of : Channel → TestAnswer → TestResult
result_of c (test_throws e) = record { channel = c; success = false; message = e }
result_of c (test_refused e) = record {
  channel = c;
  success = false;
  message = or_text (or_default e []) (codes "Failed to send test alert.");
}
result_of c (test_passed e) = record {
  channel = c;
  success = true;
  message = or_text (or_default e []) (codes "Test alert delivered successfully!");
}

-- `testChatOps` behind the request.
unfoldable pub end_test : Channel → TestAnswer → SettingsState → SettingsState
unfolding result_of
end_test c a s = record s { testing_channel = none; test_result = some (result_of c a) }
