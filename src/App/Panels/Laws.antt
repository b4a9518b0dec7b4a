-- ===== src/App/Panels/Laws.antt =====
-- The sidebar over page loads, the shortcuts, and the view in the main area (web/src/App.tsx).
use ophanim.Base.{
  ℕ, zero, suc, ap, is_some, all, get_elem?, List, [], ◌∷◌, ◌≡◌, refl, ◌∙◌, Bool, true, false, not,
  Option, some, Text, codes, ◌===◌, text_eq_instance, text_eq, arith,
}
use ophanim.Types.{ContainerStatus, Incident}
use ophanim.Navigation.{
  NavItem, NavState, nav_items, dock_items, choose_nav, choose_dock, MenuEntry, devices_entry,
  settings_entry, chat_entry, menu_entries, choose_menu, close_menu,
}
use ophanim.Palette.{Entry, entries, choose, palette_key_down}
use ophanim.Palette.Laws.{is_good, choose-entries}
use ophanim.App.Panels.{
  PanelState, Storage, broken, item, load_collapsed, first_panels, bool_text, store, toggle_sidebar,
  KeyPress, key_down, open_logs, toggle_chat, view_of, navigate, open_add_device, close_add_device,
  open_palette, close_palette, close_chat,
}

load-bool_text : (b : Bool) → (bool_text b === codes "true") ≡ b
unfolding bool_text text_eq
load-bool_text true = refl
load-bool_text false = refl

-- A click flips the sidebar. If the storage works, the next page load starts from what the click
-- left, whatever was stored before; if it throws, the next load starts with the sidebar open.
first_panels-toggle_sidebar :
    (s : PanelState) (v : Option Text)
    → ((toggle_sidebar (s, item v)).0.is_sidebar_collapsed ≡ not s.is_sidebar_collapsed)
      × ((first_panels (toggle_sidebar (s, item v)).1).is_sidebar_collapsed
          ≡ (toggle_sidebar (s, item v)).0.is_sidebar_collapsed)
      × ((toggle_sidebar (s, broken)).0.is_sidebar_collapsed ≡ not s.is_sidebar_collapsed)
      × ((first_panels (toggle_sidebar (s, broken)).1).is_sidebar_collapsed ≡ false)
unfolding first_panels toggle_sidebar load_collapsed store
first_panels-toggle_sidebar s v = (refl, load-bool_text (not s.is_sidebar_collapsed), refl, refl)

not-not : (b : Bool) → not (not b) ≡ b
not-not true = refl
not-not false = refl

-- Any key press is undone by the same key press, and the tab, the logs' target, the dialog and the
-- sidebar are never changed by the keyboard.
key_down-key_down :
    (e : KeyPress) (s : PanelState)
    → (key_down e (key_down e s) ≡ s)
      × ((key_down e s).current_tab ≡ s.current_tab)
      × ((key_down e s).log_target ≡ s.log_target)
      × ((key_down e s).is_add_device_open ≡ s.is_add_device_open)
      × ((key_down e s).is_sidebar_collapsed ≡ s.is_sidebar_collapsed)
unfolding key_down
key_down-key_down e s = (
  ground (arith, not-not s.is_command_palette_open, not-not s.is_chat_open),
  ground arith,
  ground arith,
  ground arith,
  ground arith,
)

-- Some view stands in the main area.
abbrev pub IsShown : PanelState → Type 0
IsShown s = is_some (view_of s) ≡ true

-- The clicks and keys that change the panels: the shell's own, the items of the sidebar, the dock
-- and the menu of a small screen, what the palette lists, and the links of the dashboard.
pub data PanelStep (s : NavState) : NavState → Type 0 where
  pressed : (e : KeyPress) → PanelStep s (record s { panels = key_down e s.panels })
  palette_pressed :
      (was_open : Bool) (e : KeyPress)
      → PanelStep s (record s { panels = palette_key_down was_open e s.panels })
  chat_toggled : PanelStep s (record s { panels = toggle_chat s.panels })
  chat_closed : PanelStep s (record s { panels = close_chat s.panels })
  palette_opened : PanelStep s (record s { panels = open_palette s.panels })
  palette_closed : PanelStep s (record s { panels = close_palette s.panels })
  dialog_opened : PanelStep s (record s { panels = open_add_device s.panels })
  dialog_closed : PanelStep s (record s { panels = close_add_device s.panels })
  collapsed :
      (storage : Storage)
      → PanelStep s (record s { panels = (toggle_sidebar (s.panels, storage)).0 })
  logs_opened : (source : Text) → PanelStep s (record s { panels = open_logs source s.panels })
  incidents_linked : PanelStep s (record s { panels = navigate (codes "incidents") s.panels })
  topology_linked : PanelStep s (record s { panels = navigate (codes "topology") s.panels })
  nav_chosen :
      (n i : ℕ) (item : NavItem)
      → get_elem? (nav_items n) i ≡ some item
      → PanelStep s (choose_nav item s)
  dock_chosen :
      (n i : ℕ) (item : NavItem)
      → get_elem? (dock_items n) i ≡ some item
      → PanelStep s (choose_dock item s)
  menu_chosen :
      (i : ℕ) (e : MenuEntry)
      → get_elem? (menu_entries s) i ≡ some e
      → PanelStep s (choose_menu e s)
  menu_closed : PanelStep s (close_menu s)
  entry_chosen :
      (query : Text) (cs : List ContainerStatus) (is : List Incident) (i : ℕ) (e : Entry)
      → get_elem? (entries s.panels query cs is) i ≡ some e
      → PanelStep s (record s { panels = choose e s.panels })

pub data PanelReach (s : NavState) : NavState → Type 0 where
  start : PanelReach s s
  after : {t u : NavState} → PanelReach s t → PanelStep t u → PanelReach s u

view_of-same : (s t : PanelState) → t.current_tab ≡ s.current_tab → view_of t ≡ view_of s
unfolding view_of
view_of-same s t h = rw h refl

-- A step that keeps the tab keeps the view.
keeps : (s t : PanelState) → t.current_tab ≡ s.current_tab → IsShown s → IsShown t
keeps s t h v = ap is_some (view_of-same s t h) ∙ v

all-get_elem? :
    {A : Type 0} (p : A → Bool) (xs : List A) (i : ℕ) (a : A)
    → all p xs ≡ true
    → get_elem? xs i ≡ some a
    → p a ≡ true
all-get_elem? p [] i a h e = cc
all-get_elem? p (x ∷ xs) zero a h e = let same : x ≡ a = cc in rw (← same) (ground arith)
all-get_elem? p (x ∷ xs) (suc i) a h e = all-get_elem? p xs i a (ground arith) e

nav_items-IsShown :
    (n : ℕ) (s : NavState)
    → all (λ item. is_some (view_of (choose_nav item s).panels)) (nav_items n) ≡ true
unfolding nav_items choose_nav navigate view_of text_eq
nav_items-IsShown n s = refl

dock_items-IsShown :
    (n : ℕ) (s : NavState)
    → IsShown s.panels
    → all (λ item. is_some (view_of (choose_dock item s).panels)) (dock_items n) ≡ true
unfolding dock_items choose_dock choose_nav navigate view_of text_eq
dock_items-IsShown n s h = rw h refl

choose_menu-IsShown :
    (e : MenuEntry) (s : NavState) → IsShown s.panels → IsShown (choose_menu e s).panels
unfolding choose_menu navigate toggle_chat view_of text_eq
choose_menu-IsShown devices_entry s h = refl
choose_menu-IsShown settings_entry s h = refl
choose_menu-IsShown chat_entry s h = h

tab-palette_key_down :
    (b : Bool) (e : KeyPress) (s : PanelState)
    → (palette_key_down b e s).current_tab ≡ s.current_tab
unfolding palette_key_down close_palette
tab-palette_key_down b e s = ground arith

PanelStep-IsShown : {s t : NavState} → PanelStep s t → IsShown s.panels → IsShown t.panels
PanelStep-IsShown {s} (pressed e) v = keeps s.panels _ (key_down-key_down e s.panels).1 v
PanelStep-IsShown {s} (palette_pressed b e) v =
    keeps s.panels _ (tab-palette_key_down b e s.panels) v
PanelStep-IsShown {s} chat_toggled v = keeps s.panels _ (unfold toggle_chat in refl) v
PanelStep-IsShown {s} chat_closed v = keeps s.panels _ (unfold close_chat in refl) v
PanelStep-IsShown {s} palette_opened v = keeps s.panels _ (unfold open_palette in refl) v
PanelStep-IsShown {s} palette_closed v = keeps s.panels _ (unfold close_palette in refl) v
PanelStep-IsShown {s} dialog_opened v = keeps s.panels _ (unfold open_add_device in refl) v
PanelStep-IsShown {s} dialog_closed v = keeps s.panels _ (unfold close_add_device in refl) v
PanelStep-IsShown {s} (collapsed storage) v = keeps s.panels _ (unfold toggle_sidebar in refl) v
PanelStep-IsShown {s} (logs_opened source) v = unfold open_logs view_of text_eq in refl
PanelStep-IsShown {s} incidents_linked v = unfold navigate view_of text_eq in refl
PanelStep-IsShown {s} topology_linked v = unfold navigate view_of text_eq in refl
PanelStep-IsShown {s} (nav_chosen n i it e) v =
    all-get_elem? (λ x. is_some (view_of (choose_nav x s).panels)) (nav_items n) i it
      (nav_items-IsShown n s) e
PanelStep-IsShown {s} (dock_chosen n i it e) v =
    all-get_elem? (λ x. is_some (view_of (choose_dock x s).panels)) (dock_items n) i it
      (dock_items-IsShown n s v) e
PanelStep-IsShown {s} (menu_chosen i e h) v = choose_menu-IsShown e s v
PanelStep-IsShown {s} menu_closed v = unfold close_menu in v
PanelStep-IsShown {s} (entry_chosen query cs is i e h) v =
    let good : is_good s.panels e ≡ true =
      all-get_elem? (is_good s.panels) (entries s.panels query cs is) i e
        (choose-entries s.panels query cs is v).0 h in
    ground arith

-- Whatever is pressed and clicked after a page load, with any state of the storage, the main area
-- shows a view: each tab that an item of the sidebar, the dock or the menu, an entry of the palette
-- or a link of the dashboard names is one of a view.
pub PanelReach-IsShown :
    (storage : Storage) {t : NavState}
    → PanelReach (record { panels = first_panels storage; is_mobile_menu_open = false }) t
    → IsShown t.panels
PanelReach-IsShown storage start = unfold first_panels view_of text_eq in refl
PanelReach-IsShown storage (after r step) = PanelStep-IsShown step (PanelReach-IsShown storage r)
