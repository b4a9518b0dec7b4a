-- ===== src/Navigation/Laws.antt =====
-- Every page is reached from the sidebar, and from the dock and the menu of a small screen
-- (web/src/components/Sidebar.tsx with web/src/App.tsx).
use ophanim.Base.{ℕ, ◌≡◌, refl, false, some, get_elem?, text_eq, text_eq_instance}
use ophanim.App.Panels.{
  View, dashboard, topology, incidents, devices, logs, settings, view_of, navigate,
}
use ophanim.Navigation.{
  NavItem, NavState, nav_items, dock_items, choose_nav, choose_dock, MenuEntry, devices_entry,
  settings_entry, menu_entries, choose_menu,
}

-- One click on the dock opens a view, or one on the menu that the last item of the dock opens.
pub data Reaches (n : ℕ) (s : NavState) (v : View) : Type 0 where
  by_dock :
      (i : ℕ) (item : NavItem)
      → get_elem? (dock_items n) i ≡ some item
      → view_of (choose_dock item s).panels ≡ some v
      → Reaches n s v
  by_menu :
      (item : NavItem) (i : ℕ) (e : MenuEntry)
      → get_elem? (dock_items n) 4 ≡ some item
      → get_elem? (menu_entries (choose_dock item s)) i ≡ some e
      → view_of (choose_menu e (choose_dock item s)).panels ≡ some v
      → (choose_menu e (choose_dock item s)).is_mobile_menu_open ≡ false
      → Reaches n s v

-- Every view is reached from every page: the sidebar has an item whose click opens it, and on a
-- small screen either the dock has one, or the menu that the dock's last item opens has an entry
-- that opens the view and closes the menu.
nav_items-Reaches :
    (n : ℕ) (s : NavState) (v : View)
    → (i : ℕ) × (item : NavItem) × (get_elem? (nav_items n) i ≡ some item)
      × (view_of (choose_nav item s).panels ≡ some v)
      × Reaches n s v
unfolding nav_items dock_items choose_nav choose_dock menu_entries choose_menu navigate view_of
    text_eq
nav_items-Reaches n s dashboard = (0, _, refl, refl, by_dock 0 _ refl refl)
nav_items-Reaches n s topology = (1, _, refl, refl, by_dock 1 _ refl refl)
nav_items-Reaches n s incidents = (2, _, refl, refl, by_dock 2 _ refl refl)
nav_items-Reaches n s devices = (3, _, refl, refl, by_menu _ 0 devices_entry refl refl refl refl)
nav_items-Reaches n s logs = (4, _, refl, refl, by_dock 3 _ refl refl)
nav_items-Reaches n s settings = (5, _, refl, refl, by_menu _ 1 settings_entry refl refl refl refl)
