-- ===== src/Palette.antt =====
-- The command palette: what it finds, what its entries do and its keys
-- (web/src/components/CommandPalette.tsx).
pub mod Laws
use ophanim.Base.{
  Bool, true, false, not, ◌&&◌, ◌||◌, Option, none, some, List, [], ◌∷◌, ◌++◌, map, Text, codes,
  filter, ◌===◌, text_eq_instance, if◌then◌else◌, is_empty,
}
use ophanim.Types.{ContainerStatus, Incident}
use ophanim.Dashboard.Containers.{matches_text, matches_stack}
use ophanim.App.Panels.{
  PanelState, KeyPress, key_down, navigate, close_palette, palette_open_chat, palette_open_logs,
}

-- `filteredContainers`
unfoldable pub found_containers : Text → List ContainerStatus → List ContainerStatus
unfolding matches_text matches_stack
found_containers query cs =
    filter (λ c. matches_text query c.name || matches_stack query c.stack) cs

-- `filteredIncidents`
unfoldable pub found_incidents : Text → List Incident → List Incident
unfolding matches_text
found_incidents query is =
    filter
      (λ i.
        matches_text query i.title
        || (not (is_empty i.description) && matches_text query i.description))
      is

-- The entries of the open palette: the pages, the assistant, the containers and the incidents.
pub data Entry : Type 0 where
  page_entry : Text → Entry
  chat_entry : Entry
  container_entry : ContainerStatus → Entry
  incident_entry : Incident → Entry

unfoldable pub page_entries : List Entry
page_entries =
    page_entry (codes "dashboard")
    ∷ page_entry (codes "topology")
    ∷ page_entry (codes "incidents")
    ∷ page_entry (codes "devices")
    ∷ page_entry (codes "logs")
    ∷ page_entry (codes "settings")
    ∷ []

-- What the open palette lists for a query.
unfoldable pub listed : Text → List ContainerStatus → List Incident → List Entry
unfolding page_entries found_containers found_incidents
listed query cs is =
    page_entries
    ++ (chat_entry
        ∷ (map container_entry (found_containers query cs)
            ++ map incident_entry (found_incidents query is)))

-- Nothing stands there while it is closed.
unfoldable pub entries : PanelState → Text → List ContainerStatus → List Incident → List Entry
unfolding listed
entries s query cs is = if s.is_command_palette_open then listed query cs is else []

-- The click on an entry, with the `onClose` that follows each callback.
unfoldable pub choose : Entry → PanelState → PanelState
unfolding navigate close_palette palette_open_chat palette_open_logs
choose (page_entry tab) s = close_palette (navigate tab s)
choose chat_entry s = close_palette (palette_open_chat s)
choose (container_entry c) s = close_palette (palette_open_logs c.name s)
choose (incident_entry i) s = close_palette (navigate (codes "incidents") s)

-- `handleKeyDown` of the palette, which was registered while the palette was open or not.
unfoldable pub palette_key_down : Bool → KeyPress → PanelState → PanelState
unfolding close_palette
palette_key_down was_open e s =
    let closed = if (e.meta_key || e.ctrl_key) && e.key === codes "k" then close_palette s else s in
    if e.key === codes "Escape" && was_open then close_palette closed else closed
