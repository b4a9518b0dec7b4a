-- ===== src/Chat.antt =====
-- The drawer of the assistant (web/src/components/AIChatDrawer.tsx).
pub mod Session
pub mod Width
pub mod Drawer
