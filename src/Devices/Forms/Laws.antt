-- ===== src/Devices/Forms/Laws.antt =====
-- Editing a device that was enrolled with the form: the token survives
-- (web/src/pages/DevicesView.tsx, web/src/components/AddDeviceModal.tsx).
use ophanim.Base.{
  ◌≡◌, refl, sym, ap, ◌∙◌, true, false, none, some, has_unit, arith, text_eq_instance, text_eq_iff,
}
use ophanim.Types.{DeviceNode}
use ophanim.Devices.Token.{Credentials, compose_token}
use ophanim.Devices.Token.Laws.{IsWritable, read-compose_token_whole}
use ophanim.Devices.Forms.{
  proxmox, succeeds, fails, ViewState, start_edit, final_token, start_save, end_save, proxmox_probe,
  AddForm, manual_add, probe_name, enroll_token_of,
}

-- A device that stands as it was enrolled from the form with these credentials.
pub record IsEnrolled (f : AddForm) (d : DeviceNode) : Type 0 where
  pub on_proxmox : f.tab ≡ proxmox_probe
  pub same_type : d.agent_type ≡ (manual_add f).agent_type
  pub same_token : d.enroll_token ≡ some (manual_add f).enroll_token
  pub writable : IsWritable f.form_pve
  pub whole_secret : has_unit f.form_pve.secret b'=' ≡ false

final_token-proxmox :
    (d : DeviceNode) (c : Credentials) → d.agent_type ≡ proxmox → final_token d c ≡ compose_token c
unfolding final_token
final_token-proxmox d c h = ground (arith, text_eq_iff d.agent_type proxmox)

module _ (f : AddForm) (d : DeviceNode) (s : ViewState) (e : IsEnrolled f d) where
  token-enrolled : (manual_add f).enroll_token ≡ compose_token f.form_pve
  unfolding manual_add enroll_token_of
  token-enrolled = rw (e.on_proxmox) refl

  agent_type-enrolled : d.agent_type ≡ proxmox
  agent_type-enrolled = e.same_type ∙ unfold manual_add probe_name in rw e.on_proxmox refl

  edit_pve-enrolled : (start_edit d s).edit_pve ≡ f.form_pve
  unfolding start_edit
  edit_pve-enrolled =
      rw (
        e.same_token,
        token-enrolled,
        read-compose_token_whole f.form_pve e.writable e.whole_secret,
      )

-- Opening the edit form of a Proxmox device that was enrolled with three names that are not empty
-- and a secret shows those four fields, if there is no white space in them, no `@`, `!` or `=` in
-- the names and no `@` or `=` in the secret; saving the form as it stands sends the device's name,
-- address and token unchanged, and a call that succeeds closes the form while one that fails leaves
-- it open.
pub start_save-start_edit :
    (f : AddForm) (d : DeviceNode) (s : ViewState)
    → IsEnrolled f d
    → ((start_edit d s).edit_pve ≡ f.form_pve)
      × ((start_save true (start_edit d s)).1
          ≡ some (record {
            device_id = d.id;
            new_name = d.name;
            new_ip = d.ip_address;
            token = (manual_add f).enroll_token;
          }))
      × ((end_save succeeds (start_save true (start_edit d s)).0).editing_device ≡ none)
      × ((end_save fails (start_save true (start_edit d s)).0).editing_device ≡ some d)
start_save-start_edit f d s e = (
  edit_pve-enrolled f d s e,
  sent,
  unfold start_save start_edit end_save in refl,
  unfold start_save start_edit end_save in refl,
)
  where
    token_kept : final_token d (start_edit d s).edit_pve ≡ (manual_add f).enroll_token
    token_kept =
        final_token-proxmox d (start_edit d s).edit_pve (agent_type-enrolled f d s e)
        ∙ (ap compose_token (edit_pve-enrolled f d s e) ∙ sym (token-enrolled f d s e))

    sent :
        (start_save true (start_edit d s)).1
        ≡ some (record {
          device_id = d.id;
          new_name = d.name;
          new_ip = d.ip_address;
          token = (manual_add f).enroll_token;
        })
    sent = rw (← token_kept) (unfold start_save start_edit in refl)
