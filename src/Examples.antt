-- ===== src/Examples.antt =====
-- Witnesses: each theorem that has hypotheses or parameters, applied to concrete data of
-- web/src/pages and web/src/components.
mod Data
mod Presets
mod Containers
mod Markdown
mod Devices
mod Shell
mod Chat
mod Topology
mod Pages
mod Telemetry
