-- ===== src/Devices/Modal/Laws.antt =====
-- What the form of the dialog sends, and the mark of a copy
-- (web/src/components/AddDeviceModal.tsx).
use ophanim.Base.{◌≡◌, refl, false, [], ◌∷◌, Text, is_empty, or_text}
use ophanim.Devices.Forms.{proxmox_probe, snmp, manual_add, succeeds, probe_name}
use ophanim.Devices.Modal.{
  ModalState, open_modal, set_tab, set_form_url, set_form_ip_address, set_form_community, post_form,
  end_add,
}

or_text-full : (s d : Text) → is_empty s ≡ false → or_text s d ≡ s
or_text-full [] d h = cc
or_text-full (c ∷ s) d h = refl

-- The tabs share one form. An address that was typed under the Proxmox tab is sent in place of the
-- one that is typed under the SNMP tab, also after the dialog has enrolled a node and is opened
-- again; and a community that is typed under the SNMP tab changes nothing of what is sent.
post_form-leftover :
    (url ip community : Text) (s : ModalState)
    → is_empty url ≡ false
    → let typed =
        set_form_ip_address ip (set_tab snmp (set_form_url url (set_tab proxmox_probe s))) in
      let again = set_form_ip_address ip (
        set_tab snmp
          (open_modal (end_add succeeds (set_form_url url (set_tab proxmox_probe s))))) in
      ((post_form typed).ip_address ≡ url)
      × ((post_form again).ip_address ≡ url)
      × ((post_form typed).agent_type ≡ probe_name snmp)
      × (post_form (set_form_community community typed) ≡ post_form typed)
unfolding post_form manual_add set_form_ip_address set_tab set_form_url set_form_community
    open_modal end_add
post_form-leftover url ip community s h = (or_text-full url _ h, or_text-full url _ h, refl, refl)
