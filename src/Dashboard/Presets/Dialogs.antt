-- ===== src/Dashboard/Presets/Dialogs.antt =====
-- The menu and the two dialogs of the presets: what opens, closes and fills them
-- (web/src/pages/Dashboard.tsx).
use ophanim.Base.{
  Bool, true, false, not, List, map, Text, contains, if◌then◌else◌, ◌===◌, text_eq_instance,
  or_default,
}
use ophanim.Types.{WidgetKey, widget_eq}
use ophanim.Dashboard.Presets.{
  PresetState, active_preset, select_preset, delete_preset, reset_to_defaults,
}

-- The presets with `isPresetDropdownOpen`.
pub record MenuState : Type 0 where
  pub state : PresetState
  pub is_preset_dropdown_open : Bool

unfoldable pub toggle_preset_menu : MenuState → MenuState
toggle_preset_menu m = record m { is_preset_dropdown_open = not m.is_preset_dropdown_open }

unfoldable pub close_preset_menu : MenuState → MenuState
close_preset_menu m = record m { is_preset_dropdown_open = false }

-- A click on an item, which closes the menu.
unfoldable pub choose_preset : Text → MenuState → MenuState
unfolding select_preset
choose_preset i m = record { state = select_preset i m.state; is_preset_dropdown_open = false }

-- The button below the items.
unfoldable pub open_new_preset : PresetState → PresetState
open_new_preset s = record s { is_new_preset_modal_open = true }

unfoldable pub start_new_preset : MenuState → MenuState
unfolding open_new_preset
start_new_preset m = record { state = open_new_preset m.state; is_preset_dropdown_open = false }

-- Which item of the menu is marked.
unfoldable pub marked_items : PresetState → List Bool
marked_items s = map (λ p. p.id === (active_preset s).id) s.presets

unfoldable pub open_customize : PresetState → PresetState
open_customize s = record s { is_customize_modal_open = true }

unfoldable pub close_customize : PresetState → PresetState
close_customize s = record s { is_customize_modal_open = false }

unfoldable pub close_new_preset : PresetState → PresetState
close_new_preset s = record s { is_new_preset_modal_open = false }

-- The check mark of a widget in the first dialog.
unfoldable pub is_checked : PresetState → WidgetKey → Bool
is_checked s w = contains (active_preset s).widgets w

-- The button on the left of its foot: a custom preset can be deleted, a built-in one makes way for
-- the reset of them all.
unfoldable pub press_foot : PresetState → PresetState
press_foot s =
    if or_default (active_preset s).is_custom false
    then delete_preset (active_preset s).id s
    else reset_to_defaults s

-- The inputs of the second dialog.
unfoldable pub set_new_name : Text → PresetState → PresetState
set_new_name t s = record s { new_preset_name = t }

unfoldable pub set_new_icon : Text → PresetState → PresetState
set_new_icon t s = record s { new_preset_icon = t }

unfoldable pub set_new_desc : Text → PresetState → PresetState
set_new_desc t s = record s { new_preset_desc = t }
