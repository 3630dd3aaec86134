-- ===== src/Admin/Devices.antt =====
-- Adding and changing devices and ports on the admin's pages (retrobridge/admin/routes.py). A form
-- stands here as its data and whether wtforms finds it valid; a new row's id is the database's choice.
pub mod Consistent
use retro_bridge.Prelude.{
  ℕ, Bool, true, false, not, ◌&&◌, Option, none, some, List, [], ◌∷◌, ◌++◌, ◌==◌, if◌then◌else◌,
  Text, text_eq, or_none,
}
use retro_bridge.Model.{Device, DevicePort, Purpose, count, find, update_where}
use retro_bridge.Admin.Tables.{Tables, is_device, is_port}

pub data Reply : Type 0 where
  not_found form_shown integrity_error saved : Reply

pub record DeviceForm : Type 0 where
  pub is_valid : Bool
  pub name : Text
  pub display_name : Option Text
  pub is_enabled : Bool

pub record PortForm : Type 0 where
  pub is_valid : Bool
  pub transport : Text
  pub port_label : Text
  pub dev_path : Text
  pub purpose : Purpose
  pub baud : Option ℕ
  pub data_bits : Option ℕ
  pub parity : Option Text
  pub stop_bits : Option ℕ
  pub flow_control : Option Text
  pub newline_mode : Option Text
  pub transfer_protocol : Option Text
  pub max_concurrent_jobs : Option ℕ
  pub max_runtime_seconds : Option ℕ
  pub idle_timeout_seconds : Option ℕ
  pub pre_transfer_cmds : Option Text
  pub post_transfer_cmds : Option Text
  pub is_enabled : Bool

abbrev pub has_name : Text → Device → Bool
has_name name d = text_eq name d.name

-- The name is unique in the table: a commit that breaks this raises.
unfoldable pub add_device : ℕ → DeviceForm → Tables → Reply × Tables
add_device new_id f t =
    if not f.is_valid
    then (form_shown, t)
    else if not (count (has_name f.name) t.devices == 0)
    then (integrity_error, t)
    else (
      saved,
      record t {
        devices =
            t.devices
            ++ record {
              id = new_id;
              name = f.name;
              display_name = f.display_name;
              is_enabled = true;
            }
              ∷ [];
      },
    )

abbrev pub edited_device : DeviceForm → Device → Device
edited_device f d = record d {
  name = f.name;
  display_name = f.display_name;
  is_enabled = f.is_enabled;
}

abbrev pub edit_device_found : DeviceForm → Option Device → Tables → Reply × Tables
edit_device_found f none t = (not_found, t)
edit_device_found f (some d) t =
    if not f.is_valid
    then (form_shown, t)
    else if not (count (λ e. has_name f.name e && not (e.id == d.id)) t.devices == 0)
    then (integrity_error, t)
    else (saved, record t { devices = update_where (is_device d.id) (edited_device f) t.devices })

unfoldable pub edit_device : ℕ → DeviceForm → Tables → Reply × Tables
edit_device device_id f t = edit_device_found f (find (is_device device_id) t.devices) t

abbrev pub toggled_device : Device → Device
toggled_device d = record d { is_enabled = not d.is_enabled }

abbrev pub toggle_device_found : Option Device → Tables → Reply × Tables
toggle_device_found none t = (not_found, t)
toggle_device_found (some d) t =
    (saved, record t { devices = update_where (is_device d.id) toggled_device t.devices })

unfoldable pub toggle_device : ℕ → Tables → Reply × Tables
toggle_device device_id t = toggle_device_found (find (is_device device_id) t.devices) t

-- The fields that `add_port` and `edit_port` take from the form.
abbrev pub port_of : PortForm → ℕ → ℕ → Bool → DevicePort
port_of f id device_id is_enabled = record {
  id = id;
  device_id = device_id;
  port_label = f.port_label;
  transport = f.transport;
  dev_path = f.dev_path;
  purpose = f.purpose;
  baud = f.baud;
  data_bits = f.data_bits;
  parity = f.parity;
  stop_bits = f.stop_bits;
  flow_control = f.flow_control;
  newline_mode = f.newline_mode;
  max_concurrent_jobs = f.max_concurrent_jobs;
  max_runtime_seconds = f.max_runtime_seconds;
  idle_timeout_seconds = f.idle_timeout_seconds;
  pre_transfer_cmds = or_none f.pre_transfer_cmds;
  post_transfer_cmds = or_none f.post_transfer_cmds;
  transfer_protocol = f.transfer_protocol;
  is_enabled = is_enabled;
}

abbrev pub add_port_found : ℕ → ℕ → PortForm → Option Device → Tables → Reply × Tables
add_port_found new_id device_id f none t = (not_found, t)
add_port_found new_id device_id f (some d) t =
    if not f.is_valid
    then (form_shown, t)
    else (saved, record t { ports = t.ports ++ port_of f new_id device_id true ∷ [] })

unfoldable pub add_port : ℕ → ℕ → PortForm → Tables → Reply × Tables
add_port new_id device_id f t =
    add_port_found new_id device_id f (find (is_device device_id) t.devices) t

abbrev pub edited_port : PortForm → DevicePort → DevicePort
edited_port f p = port_of f p.id p.device_id f.is_enabled

abbrev pub edit_port_found : ℕ → PortForm → Option DevicePort → Tables → Reply × Tables
edit_port_found device_id f none t = (not_found, t)
edit_port_found device_id f (some p) t =
    if not (p.device_id == device_id)
    then (not_found, t)
    else if not f.is_valid
    then (form_shown, t)
    else (saved, record t { ports = update_where (is_port p.id) (edited_port f) t.ports })

unfoldable pub edit_port : ℕ → ℕ → PortForm → Tables → Reply × Tables
edit_port device_id port_id f t = edit_port_found device_id f (find (is_port port_id) t.ports) t

abbrev pub toggled_port : DevicePort → DevicePort
toggled_port p = record p { is_enabled = not p.is_enabled }

abbrev pub toggle_port_found : ℕ → Option DevicePort → Tables → Reply × Tables
toggle_port_found device_id none t = (not_found, t)
toggle_port_found device_id (some p) t =
    if not (p.device_id == device_id)
    then (not_found, t)
    else (saved, record t { ports = update_where (is_port p.id) toggled_port t.ports })

unfoldable pub toggle_port : ℕ → ℕ → Tables → Reply × Tables
toggle_port device_id port_id t = toggle_port_found device_id (find (is_port port_id) t.ports) t
