-- ===== src/Examples/Devices.antt =====
-- The devices' forms, web/src/pages/DevicesView.tsx, at concrete data.
use ophanim.Base.{◌≡◌, refl, ◌++◌, true, none, some, [], codes, has_unit, split_on, is_space}
use ophanim.Types.{DeviceNode}
use ophanim.Devices.Token.{Credentials, piece_0, read_token, compose_token}
use ophanim.Devices.Token.Laws.{IsWritable, read-compose_token}
use ophanim.Devices.Forms.{
  opened, succeeds, fails, start_edit, start_save, end_save, proxmox_probe, AddForm, manual_add,
}
use ophanim.Devices.Forms.Laws.{IsEnrolled, start_save-start_edit}

abbrev credentials : Credentials
credentials = record {
  user = codes "root";
  realm = codes "pam";
  token_id = codes "probe";
  secret = codes "12ab-34";
}

credentials-IsWritable : IsWritable credentials
unfolding has_unit is_space
credentials-IsWritable = record {
  user_name = record {
    some_text = λ e. cc;
    solid = refl;
    no_at = refl;
    no_bang = refl;
    no_equals = refl;
  };
  realm_name = record {
    some_text = λ e. cc;
    solid = refl;
    no_at = refl;
    no_bang = refl;
    no_equals = refl;
  };
  token_name = record {
    some_text = λ e. cc;
    solid = refl;
    no_at = refl;
    no_bang = refl;
    no_equals = refl;
  };
  secret_solid = refl;
  secret_no_at = refl;
}

read-compose_example :
    (read_token (compose_token credentials)
      ≡ some (record credentials { secret = piece_0 (split_on b'=' credentials.secret) }))
    × (read_token (codes "PVEAPIToken=" ++ compose_token credentials)
        ≡ read_token (compose_token credentials))
read-compose_example = read-compose_token credentials credentials-IsWritable

abbrev form : AddForm
form = record {
  tab = proxmox_probe;
  form_name = [];
  form_ip_address = [];
  form_url = codes "10.10.10.2";
  form_endpoint = [];
  form_community = codes "public";
  form_token = [];
  form_pve = credentials;
}

abbrev enrolled : DeviceNode
enrolled = record {
  id = codes "dev-1";
  name = (manual_add form).name;
  ip_address = (manual_add form).ip_address;
  agent_type = (manual_add form).agent_type;
  status = codes "online";
  enroll_token = some (manual_add form).enroll_token;
  last_seen = codes "2026-01-02";
  created_at = codes "2026-01-01";
  parent_node_id = none;
  is_hypervisor = some true;
  merged_host = none;
}

enrolled-IsEnrolled : IsEnrolled form enrolled
unfolding has_unit
enrolled-IsEnrolled = record {
  on_proxmox = refl;
  same_type = refl;
  same_token = refl;
  writable = credentials-IsWritable;
  whole_secret = refl;
}

start_save-start_edit_example :
    ((start_edit enrolled opened).edit_pve ≡ credentials)
    × ((start_save true (start_edit enrolled opened)).1
        ≡ some (record {
          device_id = enrolled.id;
          new_name = enrolled.name;
          new_ip = enrolled.ip_address;
          token = (manual_add form).enroll_token;
        }))
    × ((end_save succeeds (start_save true (start_edit enrolled opened)).0).editing_device ≡ none)
    × ((end_save fails (start_save true (start_edit enrolled opened)).0).editing_device
        ≡ some enrolled)
start_save-start_edit_example = start_save-start_edit form enrolled opened enrolled-IsEnrolled
