-- ===== src/Devices/Forms.antt =====
-- The handlers around the devices: the view with its edit form, and the form that adds a device
-- (web/src/pages/DevicesView.tsx, web/src/components/AddDeviceModal.tsx). A handler that awaits is
-- two steps, one in front of the call and one behind it, with what the call came to.
pub mod Laws
use ophanim.Base.{
  Bool, true, false, ◌&&◌, ◌||◌, Option, none, some, List, [], ◌∷◌, Text, codes, find, includes,
  to_lower, or_text, or_default, ◌===◌, text_eq_instance, if◌then◌else◌, trim, has_unit,
}
use ophanim.Types.{DeviceNode}
use ophanim.Devices.Token.{Credentials, root, pam, ophanim_id, read_token, compose_token}

abbrev pub proxmox : Text
proxmox = codes "proxmox"

abbrev default_credentials : Credentials
default_credentials = record { user = root; realm = pam; token_id = ophanim_id; secret = [] }

-- What an awaited call came to.
pub data Outcome : Type 0 where
  succeeds fails : Outcome

-- The state of `DevicesView`.
pub record ViewState : Type 0 where
  pub confirm_delete_id : Option Text
  pub is_deleting : Bool
  pub editing_device : Option DeviceNode
  pub edit_name : Text
  pub edit_ip : Text
  pub edit_pve : Credentials
  pub is_saving : Bool

unfoldable pub opened : ViewState
opened = record {
  confirm_delete_id = none;
  is_deleting = false;
  editing_device = none;
  edit_name = [];
  edit_ip = [];
  edit_pve = default_credentials;
  is_saving = false;
}

-- `pveNode`
unfoldable pub is_pve : DeviceNode → Bool
is_pve d =
    includes (to_lower d.name) proxmox
    || includes (to_lower d.name) (codes "pve")
    || includes (to_lower d.name) (codes "homelab2")
    || d.agent_type === proxmox

unfoldable pub pve_node : List DeviceNode → Option DeviceNode
unfolding is_pve
pve_node devices = find is_pve devices

-- `handleDelete` up to the call: the state, and the device to delete if there is a handler for it.
unfoldable pub start_delete : Bool → Text → ViewState → ViewState × Option Text
start_delete has_handler i s =
    if has_handler then (record s { is_deleting = true }, some i) else (s, none)

-- `handleDelete` behind the call.
unfoldable pub end_delete : Outcome → ViewState → ViewState
end_delete succeeds s = record s { is_deleting = false; confirm_delete_id = none }
end_delete fails s = record s { is_deleting = false }

-- `handleStartEdit`: the name and the address are set even when the token cannot be read.
unfoldable pub start_edit : DeviceNode → ViewState → ViewState
start_edit d s = record s {
  editing_device = some d;
  edit_name = d.name;
  edit_ip = d.ip_address;
  edit_pve = or_default (read_token (or_default d.enroll_token [])) s.edit_pve;
}

-- The arguments of `onUpdateDevice`.
pub record Update : Type 0 where
  pub device_id : Text
  pub new_name : Text
  pub new_ip : Text
  pub token : Text

unfoldable pub final_token : DeviceNode → Credentials → Text
final_token d c = if d.agent_type === proxmox then compose_token c else c.secret

-- `handleSaveEdit` up to the call.
unfoldable pub start_save : Bool → ViewState → ViewState × Option Update
unfolding final_token
start_save has_handler s = elim s.editing_device [
  | none ↦ (s, none)
  | some d ↦
      if has_handler
      then (
        record s { is_saving = true },
        some (record {
          device_id = d.id;
          new_name = s.edit_name;
          new_ip = s.edit_ip;
          token = final_token d s.edit_pve;
        }),
      )
      else (s, none)
]

-- `handleSaveEdit` behind the call.
unfoldable pub end_save : Outcome → ViewState → ViewState
end_save succeeds s = record s { is_saving = false; editing_device = none }
end_save fails s = record s { is_saving = false }

pub data Probe : Type 0 where
  monitor openwrt prometheus proxmox_probe snmp : Probe

-- The tab's name, in lower case already.
unfoldable pub probe_name : Probe → Text
probe_name monitor = codes "monitor"
probe_name openwrt = codes "openwrt"
probe_name prometheus = codes "prometheus"
probe_name proxmox_probe = proxmox
probe_name snmp = codes "snmp"

-- The form of `AddDeviceModal`.
pub record AddForm : Type 0 where
  pub tab : Probe
  pub form_name : Text
  pub form_ip_address : Text
  pub form_url : Text
  pub form_endpoint : Text
  pub form_community : Text
  pub form_token : Text
  pub form_pve : Credentials

-- The body of the request that enrols a device.
pub record Payload : Type 0 where
  pub name : Text
  pub ip_address : Text
  pub agent_type : Text
  pub enroll_token : Text

unfoldable pub default_name : Probe → Text
default_name proxmox_probe = codes "Proxmox PVE Node"
default_name openwrt = codes "OpenWRT Gateway"
default_name _ = codes "Enrolled Probe"

unfoldable pub enroll_token_of : AddForm → Text
enroll_token_of f = elim f.tab [ proxmox_probe ↦ compose_token f.form_pve | _ ↦ f.form_token ]

-- The payload of `handleManualAdd`.
unfoldable pub manual_add : AddForm → Payload
unfolding default_name enroll_token_of probe_name
manual_add f = record {
  name = or_text f.form_name (default_name f.tab);
  ip_address = or_text f.form_url (or_text f.form_ip_address f.form_endpoint);
  agent_type = probe_name f.tab;
  enroll_token = enroll_token_of f;
}
