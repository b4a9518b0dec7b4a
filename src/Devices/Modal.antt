-- ===== src/Devices/Modal.antt =====
-- The dialog that enrols a device: its tabs, the commands that it offers to copy, and the form that
-- its tabs share (web/src/components/AddDeviceModal.tsx).
pub mod Laws
use ophanim.Base.{
  Bool, true, false, Option, none, some, List, [], ◌∷◌, ◌++◌, Text, codes, or_default, or_text,
  ◌===◌, text_eq_instance, if◌then◌else◌,
}
use ophanim.Devices.Token.{Credentials}
use ophanim.Devices.Forms.{
  Probe, monitor, openwrt, prometheus, proxmox_probe, snmp, AddForm, Payload, manual_add, Outcome,
  succeeds, fails,
}

-- `tokenData`: each command may be missing.
pub record TokenData : Type 0 where
  pub docker_command : Option Text
  pub binary_command : Option Text
  pub openwrt_command : Option Text

-- The commands that have a button to copy them.
pub data Command : Type 0 where
  docker binary openwrt_script : Command

-- The state of the dialog, with the timers that will clear the mark of a copy.
pub record ModalState : Type 0 where
  pub is_open : Bool
  pub token_data : TokenData
  pub copied_type : Option Command
  pub timers : List Command
  pub loading : Bool
  pub form : AddForm

abbrev no_token : TokenData
no_token = record { docker_command = none; binary_command = none; openwrt_command = none }

-- The effect on `isOpen` and the start of `fetchToken`.
unfoldable pub open_modal : ModalState → ModalState
open_modal s = record s { is_open = true; loading = true }

-- `fetchToken` behind the call: an answer that is no JSON leaves the former commands.
unfoldable pub end_token : Option TokenData → ModalState → ModalState
end_token none s = record s { loading = false }
end_token (some t) s = record s { token_data = t; loading = false }

-- What a button copies.
unfoldable pub copied_text : Command → TokenData → Text
copied_text docker t = or_default t.docker_command []
copied_text binary t = or_default t.binary_command []
copied_text openwrt_script t =
    or_text (or_default t.openwrt_command [])
      (codes "wget -qO- http://10.20.20.11:8085/install-openwrt.sh | sh")

-- What stands in the box beside the button.
unfoldable pub shown_text : Command → TokenData → Text
shown_text docker t =
    or_text (or_default t.docker_command []) (codes "Generating enrollment command...")
shown_text binary t = or_text (or_default t.binary_command []) (codes "Generating curl script...")
shown_text openwrt_script t =
    or_text (or_default t.openwrt_command []) (codes "Generating OpenWRT onboarding command...")

-- `copyToClipboard`: the mark, and a timer that clears it.
unfoldable pub copy_command : Command → ModalState → ModalState
copy_command c s = record s { copied_type = some c; timers = s.timers ++ c ∷ [] }

-- The first timer runs out.
unfoldable pub run_timer : List Command → ModalState → ModalState
run_timer rest s = record s { copied_type = none; timers = rest }

-- The tabs and the inputs.
unfoldable pub set_tab : Probe → ModalState → ModalState
set_tab t s = record s { form = record s.form { tab = t } }

unfoldable pub set_form_name : Text → ModalState → ModalState
set_form_name v s = record s { form = record s.form { form_name = v } }

unfoldable pub set_form_url : Text → ModalState → ModalState
set_form_url v s = record s { form = record s.form { form_url = v } }

unfoldable pub set_form_ip_address : Text → ModalState → ModalState
set_form_ip_address v s = record s { form = record s.form { form_ip_address = v } }

unfoldable pub set_form_endpoint : Text → ModalState → ModalState
set_form_endpoint v s = record s { form = record s.form { form_endpoint = v } }

unfoldable pub set_form_community : Text → ModalState → ModalState
set_form_community v s = record s { form = record s.form { form_community = v } }

unfoldable pub set_form_pve : Credentials → ModalState → ModalState
set_form_pve v s = record s { form = record s.form { form_pve = v } }

-- `handleManualAdd`: the payload that is posted, and what is left when the call is over: the dialog
-- closes, with the form as it was, or stays open after an error.
unfoldable pub post_form : ModalState → Payload
unfolding manual_add
post_form s = manual_add s.form

unfoldable pub end_add : Outcome → ModalState → ModalState
end_add succeeds s = record s { is_open = false }
end_add fails s = s
