-- ===== src/Dashboard.antt =====
-- web/src/pages/Dashboard.tsx, by the parts of its state: the presets, the nodes, the containers
-- and the columns of their table, and the network interfaces.
pub mod Presets
pub mod Nodes
pub mod Containers
pub mod Columns
pub mod Interfaces
pub mod Widgets
pub mod Gauges
pub mod Cards
