-- ===== src/App.antt =====
-- The shell of the dashboard: the data that it fetches and receives, its panels and its tabs
-- (web/src/App.tsx).
pub mod Data
pub mod Panels
pub mod Actions
