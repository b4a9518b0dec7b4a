-- ===== src/Devices/Cards.antt =====
-- The cards of the devices and the inputs of the edit form (web/src/pages/DevicesView.tsx).
use ophanim.Base.{
  Bool, false, ◌||◌, Option, none, some, List, [], ◌∷◌, ◌++◌, Text, codes, or_text, includes,
  to_lower, ◌===◌, text_eq_instance, if◌then◌else◌,
}
use ophanim.Types.{DeviceNode}
use ophanim.Devices.Token.{Credentials}
use ophanim.Devices.Forms.{ViewState, proxmox}

-- `isPVE` and `isOpenWRT` of a card.
unfoldable pub is_pve_card : DeviceNode → Bool
is_pve_card d =
    includes (to_lower d.name) proxmox
    || includes (to_lower d.name) (codes "pve")
    || d.agent_type === proxmox

unfoldable pub is_openwrt_card : DeviceNode → Bool
is_openwrt_card d =
    includes (to_lower d.name) (codes "openwrt")
    || includes (to_lower d.name) (codes "router")
    || d.agent_type === codes "openwrt"

pub data DeviceIcon : Type 0 where
  cpu_icon globe_icon server_icon : DeviceIcon

unfoldable pub device_icon : DeviceNode → DeviceIcon
unfolding is_pve_card is_openwrt_card
device_icon d =
    if is_pve_card d then cpu_icon else if is_openwrt_card d then globe_icon else server_icon

-- The tags below the name: a device may have both.
unfoldable pub device_tags : DeviceNode → List Text
unfolding is_pve_card is_openwrt_card
device_tags d =
    (if is_pve_card d then codes "PROXMOX VE HYPERVISOR" ∷ [] else [])
    ++ (if is_openwrt_card d then codes "OPENWRT NETWORK GATEWAY" ∷ [] else [])

unfoldable pub is_online : DeviceNode → Bool
is_online d = d.status === codes "online"

unfoldable pub address_label : DeviceNode → Text
address_label d = or_text d.ip_address (codes "Local Socket")

unfoldable pub agent_label : DeviceNode → Text
agent_label d = or_text d.agent_type (codes "OPH-DAEMON")

-- The foot of a card: the button that asks, or the two that answer.
pub data Foot : Type 0 where
  ask_button : Foot
  confirm_buttons : Bool → Foot

unfoldable pub foot_of : ViewState → DeviceNode → Foot
foot_of s d = if asks s.confirm_delete_id then confirm_buttons s.is_deleting else ask_button
  where
    asks : Option Text → Bool
    asks none = false
    asks (some i) = i === d.id

-- The first button, disabled in the demonstration.
unfoldable pub ask_delete : Bool → Text → ViewState → ViewState
ask_delete is_demo i s = if is_demo then s else record s { confirm_delete_id = some i }

unfoldable pub cancel_delete : ViewState → ViewState
cancel_delete s = record s { confirm_delete_id = none }

unfoldable pub close_edit : ViewState → ViewState
close_edit s = record s { editing_device = none }

-- The inputs of the form; the credentials are asked for by the agent's type alone.
unfoldable pub set_edit_name : Text → ViewState → ViewState
set_edit_name v s = record s { edit_name = v }

unfoldable pub set_edit_ip : Text → ViewState → ViewState
set_edit_ip v s = record s { edit_ip = v }

unfoldable pub asks_credentials : DeviceNode → Bool
asks_credentials d = d.agent_type === proxmox

unfoldable pub set_edit_pve : Credentials → ViewState → ViewState
set_edit_pve v s = record s { edit_pve = v }
