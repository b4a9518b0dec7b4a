-- ===== src/Navigation.antt =====
-- The sidebar, the dock and the menu of a small screen (web/src/components/Sidebar.tsx).
pub mod Laws
use ophanim.Base.{
  ℕ, Bool, true, false, Option, none, some, List, [], ◌∷◌, Text, codes, ◌===◌, text_eq_instance,
  if◌then◌else◌, ltb,
}
use ophanim.App.Panels.{PanelState, navigate, toggle_chat}

pub record NavItem : Type 0 where
  pub id : Text
  pub label : Text
  pub badge : Option ℕ

-- The badge of the incidents: none when there are none.
unfoldable pub incidents_badge : ℕ → Option ℕ
incidents_badge n = if ltb 0 n then some n else none

-- `navItems`
unfoldable pub nav_items : ℕ → List NavItem
unfolding incidents_badge
nav_items n =
    record { id = codes "dashboard"; label = codes "Dashboard"; badge = none }
    ∷ record { id = codes "topology"; label = codes "Topology Map"; badge = none }
    ∷ record { id = codes "incidents"; label = codes "Incidents"; badge = incidents_badge n }
    ∷ record { id = codes "devices"; label = codes "Devices & Probes"; badge = none }
    ∷ record { id = codes "logs"; label = codes "Observability & Logs"; badge = none }
    ∷ record { id = codes "settings"; label = codes "Settings"; badge = none }
    ∷ []

-- `dockItems`
unfoldable pub dock_items : ℕ → List NavItem
unfolding incidents_badge
dock_items n =
    record { id = codes "dashboard"; label = codes "Overview"; badge = none }
    ∷ record { id = codes "topology"; label = codes "Topology"; badge = none }
    ∷ record { id = codes "incidents"; label = codes "Alerts"; badge = incidents_badge n }
    ∷ record { id = codes "logs"; label = codes "Telemetry"; badge = none }
    ∷ record { id = codes "more"; label = codes "Menu"; badge = none }
    ∷ []

-- The shell's panels with `isMobileMenuOpen`.
pub record NavState : Type 0 where
  pub panels : PanelState
  pub is_mobile_menu_open : Bool

-- `isActive`
unfoldable pub is_active : NavState → NavItem → Bool
is_active s item = s.panels.current_tab === item.id

-- The click on an item of the sidebar.
unfoldable pub choose_nav : NavItem → NavState → NavState
unfolding navigate
choose_nav item s = record s { panels = navigate item.id s.panels }

-- The click on an item of the dock.
unfoldable pub choose_dock : NavItem → NavState → NavState
unfolding choose_nav
choose_dock item s =
    if item.id === codes "more" then record s { is_mobile_menu_open = true } else choose_nav item s

-- The entries of the menu, which are there while it is open.
pub data MenuEntry : Type 0 where
  devices_entry settings_entry chat_entry : MenuEntry

unfoldable pub menu_entries : NavState → List MenuEntry
menu_entries s =
    if s.is_mobile_menu_open then devices_entry ∷ settings_entry ∷ chat_entry ∷ [] else []

-- The click on an entry; `openChat` is the shell's switch of the chat.
unfoldable pub choose_menu : MenuEntry → NavState → NavState
unfolding navigate toggle_chat
choose_menu devices_entry s = record {
  panels = navigate (codes "devices") s.panels;
  is_mobile_menu_open = false;
}
choose_menu settings_entry s = record {
  panels = navigate (codes "settings") s.panels;
  is_mobile_menu_open = false;
}
choose_menu chat_entry s = record { panels = toggle_chat s.panels; is_mobile_menu_open = false }

-- The backdrop and the cross of the menu.
unfoldable pub close_menu : NavState → NavState
close_menu s = record s { is_mobile_menu_open = false }

-- The width of the sidebar, as the class names it, and the label that a narrow one shows on hover.
unfoldable pub sidebar_class : Bool → Text
sidebar_class true = codes "w-20"
sidebar_class false = codes "w-64 lg:w-72"

unfoldable pub nav_title : Bool → NavItem → Option Text
nav_title true item = some item.label
nav_title false item = none
