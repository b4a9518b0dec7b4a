-- ===== src/App/Panels.antt =====
-- The panels of the shell: tabs, dialogs, the sidebar and the keyboard (web/src/App.tsx).
pub mod Laws
use ophanim.Base.{
  Bool, true, false, not, ◌&&◌, ◌||◌, Option, none, some, List, [], ◌∷◌, Text, codes, to_lower,
  or_default, ◌===◌, text_eq_instance, if◌then◌else◌,
}

pub record PanelState : Type 0 where
  pub current_tab : Text
  pub is_command_palette_open : Bool
  pub is_add_device_open : Bool
  pub is_chat_open : Bool
  pub log_target : Text
  pub is_sidebar_collapsed : Bool

-- The item of the local storage that holds the sidebar's state; a storage that throws is `broken`.
pub data Storage : Type 0 where
  broken : Storage
  item : Option Text → Storage

-- The initialiser of `isSidebarCollapsed`.
unfoldable pub load_collapsed : Storage → Bool
load_collapsed broken = false
load_collapsed (item v) = or_default v [] === codes "true"

unfoldable pub first_panels : Storage → PanelState
unfolding load_collapsed
first_panels storage = record {
  current_tab = codes "dashboard";
  is_command_palette_open = false;
  is_add_device_open = false;
  is_chat_open = false;
  log_target = [];
  is_sidebar_collapsed = load_collapsed storage;
}

-- `b.toString()`
unfoldable pub bool_text : Bool → Text
bool_text true = codes "true"
bool_text false = codes "false"

unfoldable pub store : Bool → Storage → Storage
unfolding bool_text
store b broken = broken
store b (item v) = item (some (bool_text b))

-- `toggleSidebarCollapse`
unfoldable pub toggle_sidebar : PanelState × Storage → PanelState × Storage
unfolding store
toggle_sidebar (s, storage) = (
  record s { is_sidebar_collapsed = not s.is_sidebar_collapsed },
  store (not s.is_sidebar_collapsed) storage,
)

-- A key that is pressed.
pub record KeyPress : Type 0 where
  pub meta_key : Bool
  pub ctrl_key : Bool
  pub key : Text

abbrev opens_palette : KeyPress → Bool
opens_palette e = (e.meta_key || e.ctrl_key) && to_lower e.key === codes "k"

abbrev opens_chat : KeyPress → Bool
opens_chat e = (e.meta_key || e.ctrl_key) && e.key === codes "/"

-- `handleKeyDown`
unfoldable pub key_down : KeyPress → PanelState → PanelState
key_down e s =
    if opens_palette e
    then record s { is_command_palette_open = not s.is_command_palette_open }
    else if opens_chat e
    then record s { is_chat_open = not s.is_chat_open }
    else s

-- `handleOpenLogs`
unfoldable pub open_logs : Text → PanelState → PanelState
open_logs source s = record s { log_target = source; current_tab = codes "logs" }

-- The clicks of the header and the sidebar.
unfoldable pub toggle_chat : PanelState → PanelState
toggle_chat s = record s { is_chat_open = not s.is_chat_open }

unfoldable pub navigate : Text → PanelState → PanelState
navigate tab s = record s { current_tab = tab }

unfoldable pub open_add_device : PanelState → PanelState
open_add_device s = record s { is_add_device_open = true }

unfoldable pub close_add_device : PanelState → PanelState
close_add_device s = record s { is_add_device_open = false }

unfoldable pub open_palette : PanelState → PanelState
open_palette s = record s { is_command_palette_open = true }

unfoldable pub close_palette : PanelState → PanelState
close_palette s = record s { is_command_palette_open = false }

unfoldable pub close_chat : PanelState → PanelState
close_chat s = record s { is_chat_open = false }

-- `onOpenChat` and `onOpenLogs` of the command palette.
unfoldable pub palette_open_chat : PanelState → PanelState
palette_open_chat s = record s { is_command_palette_open = false; is_chat_open = true }

unfoldable pub palette_open_logs : Text → PanelState → PanelState
unfolding open_logs
palette_open_logs source s = open_logs source (record s { is_command_palette_open = false })

-- The view of a tab.
pub data View : Type 0 where
  dashboard topology incidents devices logs settings : View

-- What stands in the main area: nothing for a tab of another name.
unfoldable pub view_of : PanelState → Option View
view_of s =
    if s.current_tab === codes "dashboard"
    then some dashboard
    else if s.current_tab === codes "topology"
    then some topology
    else if s.current_tab === codes "incidents"
    then some incidents
    else if s.current_tab === codes "devices"
    then some devices
    else if s.current_tab === codes "logs"
    then some logs
    else if s.current_tab === codes "settings"
    then some settings
    else none
