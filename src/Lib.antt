-- ===== src/Lib.antt =====
-- Ophanim's web console (web/src), an observability dashboard for containers, hosts and network
-- gateways: what its views compute and how its handlers change their state.
--
-- The parts and how they interact. The shell (web/src/App.tsx) polls the server, listens to its
-- socket and hands containers, metrics, incidents and devices to the views. The dashboard
-- (web/src/pages/Dashboard.tsx) chooses, filters, sorts, groups and formats them, under presets
-- that the user edits. The devices page (web/src/pages/DevicesView.tsx) and the enrolment dialog
-- (web/src/components/AddDeviceModal.tsx) share the Proxmox token. The settings page
-- (web/src/pages/SettingsView.tsx) loads and saves the server's configuration. The topology page
-- (web/src/pages/TopologyView.tsx) groups the nodes of the service graph. The assistant's drawer
-- (web/src/components/AIChatDrawer.tsx) holds the conversation, whose replies are shown by
-- web/src/components/MarkdownRenderer.tsx. The chart (web/src/components/TelemetryChart.tsx) asks
-- for a history and draws it. The log console (web/src/pages/LogsView.tsx) opens for the target
-- that the shell hands it, the incidents page (web/src/pages/IncidentsView.tsx) acts on the
-- server through the shell, and the command palette (web/src/components/CommandPalette.tsx) and
-- the sidebar (web/src/components/Sidebar.tsx) move between the pages. The hardware inspector
-- (web/src/components/HardwareInspector.tsx) shows the cores of a node, and the theme
-- (web/src/context/ThemeContext.tsx) is written on the page.
--
-- The files. Base has what the others share: tests on numbers, arrays, strings as lists of UTF-16
-- code units, a stable sort under a comparator, sets as lists without repetition, integers. Types
-- has the records of web/src/types/index.ts. Dashboard/Presets is the state of the presets with
-- its initialisers and handlers, Dashboard/Nodes the badges and orders of the nodes,
-- Dashboard/Containers the inventory from search to groups, Dashboard/Columns the table, its
-- cells and the mobile cards, Dashboard/Interfaces the network tiles and their panel,
-- Dashboard/Widgets which widgets a preset shows, Dashboard/Gauges the telemetry of the selected
-- node, Dashboard/Cards the overview, the leaderboards, the matrix and the war room.
-- Presets/Dialogs, Containers/Inputs and Columns/Stored have the inputs and the storage around
-- them. Markdown/Rows parses table rows, Markdown/Blocks is the loop over the lines,
-- Markdown/Fences the split at fenced code, Markdown/Inline the split at styled pieces and the
-- copy of a table, Markdown/Copied the copy buttons. Devices/Token reads and writes a token,
-- Devices/Forms has the handlers around it, Devices/Modal the enrolment dialog, Devices/Cards the
-- page's cards. Logs is the console's state and requests, Logs/Rows its lines; Incidents the lock
-- of the cards; Palette the entries and its keys; Navigation the sidebar, the dock and
-- the menu; Hardware the inspector; Theme the theme. App/Data is the shell's data, App/Actions
-- the handlers that change data on the server, App/Panels its tabs and panels. Settings has
-- loading and the discovery of models, Settings/Save saving and the channel tests,
-- Settings/Inputs the inputs. Chat/Session is the conversation, Chat/Width the drawer's width and
-- Chat/Drawer its drag, its storage and its feed. Topology has the tiers, the nodes on a host and
-- their stacks, Topology/Cards the page's state and cards, Chart the request, the series and the
-- scale of the chart, Chart/Plot the places of its points, Chart/Pointer the point under the
-- pointer and Chart/History its requests and choices. Laws and its siblings under a module hold
-- its proofs, Examples the theorems at concrete data. A definition has the source's name in snake
-- case.
--
-- Conventions. A React state is a record, a handler a function of it, as the page last rendered; a
-- handler that awaits is a start and an end, with the answer as a value in between, so that every
-- error path is a value. A fraction that the API sends is a Quantity, in thousandths.
-- `Array.prototype.sort` is a stable insertion sort. Requests that are under way, actions that run
-- and timers are lists or numbers in the state, so that an event may finish any of them in any
-- order. A coordinate of the chart is exact, in a unit that divides the pixel, and `none` where the
-- source has NaN. The collation of `localeCompare`, `JSON.parse` and `JSON.stringify`, and
-- `Date.now` are parameters; where a theorem needs a law of one, it is a hypothesis.
--
-- Bounds and fuel. The loop over the lines has one more unit of fuel than there are lines, the
-- split at fences one more than there are code units; each round consumes at least one of them.
-- The split at styled pieces has as much fuel as the line has code units, and a match takes at
-- least one; with less fuel it would leave the rest of the line as one plain piece.
--
-- Not modelled. Layout, style classes and icons' shapes, and the headings of the pages; sockets,
-- and timers but for what they do when they run out; the text that `toFixed`,
-- `toLocaleTimeString` and `toISOString` write; the generated bundle under pkg/web/dist; the Go
-- server under cmd and pkg, which the views see through its answers; when React renders between
-- two listeners of the window. The shell drops a page with its tab: that the page's state starts
-- again is modelled for the incidents, whose actions go on.

pub mod Base
pub mod Types
pub mod Dashboard
pub mod Markdown
pub mod Devices
pub mod App
pub mod Settings
pub mod Chat
pub mod Topology
pub mod Chart
pub mod Logs
pub mod Incidents
pub mod Palette
pub mod Navigation
pub mod Hardware
pub mod Theme
pub mod Examples
