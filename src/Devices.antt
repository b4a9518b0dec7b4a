-- ===== src/Devices.antt =====
-- The enrolled devices: the Proxmox token, the edit form and the form that adds a device
-- (web/src/pages/DevicesView.tsx, web/src/components/AddDeviceModal.tsx).
pub mod Token
pub mod Forms
pub mod Modal
pub mod Cards
