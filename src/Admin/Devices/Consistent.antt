-- ===== src/Admin/Devices/Consistent.antt =====
-- No operation of the admin's pages leaves a reference to a row that is not there.
use mathlib.Core.Path.{subst, sym}
use retro_bridge.Prelude.{
  ℕ, ◌≡◌, ◌≢◌, refl, Bool, true, false, not, Option, none, some, List, [], ◌∷◌, ◌++◌, ◌==◌, arith,
  if◌then◌else◌, All, All-append,
}
use retro_bridge.Model.{
  Device, DevicePort, count, count-append, count-update_where_same, find, update_where,
}
use retro_bridge.Admin.Tables.{Tables, IsConsistent, HasPort, is_device, is_port, All-weaken}
use retro_bridge.Admin.Devices.{
  DeviceForm, PortForm, form_shown, integrity_error, not_found, edited_device, edit_device_found,
  toggled_device, toggle_device_found, port_of, add_port_found, edited_port, edit_port_found,
  toggled_port, toggle_port_found,
}

-- A change of the devices that keeps every id.
pub devices_kept :
    (t : Tables) (devices : List Device)
    → ((k : ℕ) → count (is_device k) t.devices ≢ 0 → count (is_device k) devices ≢ 0)
    → IsConsistent t
    → IsConsistent (record t { devices = devices })
devices_kept t devices h c = record {
  port_device = All-weaken _ _ t.ports (λ p. h p.device_id) c.port_device;
  job_user = c.job_user;
  job_device = All-weaken _ _ t.jobs (λ j. h j.device_id) c.job_device;
  job_port = c.job_port;
  session_user = c.session_user;
  session_device = All-weaken _ _ t.sessions (λ s. h s.device_id) c.session_device;
  session_port = c.session_port;
  lease_port = c.lease_port;
  lease_session = c.lease_session;
}

has_port :
    (ports ports' : List DevicePort)
    → ((k : ℕ) → count (is_port k) ports ≢ 0 → count (is_port k) ports' ≢ 0)
    → (o : Option ℕ) → HasPort o ports
    → HasPort o ports'
has_port ports ports' h none g = tt
has_port ports ports' h (some k) g = h k g

ports_kept :
    (t : Tables) (ports : List DevicePort)
    → ((k : ℕ) → count (is_port k) t.ports ≢ 0 → count (is_port k) ports ≢ 0)
    → All (λ p. count (is_device p.device_id) t.devices ≢ 0) ports
    → IsConsistent t
    → IsConsistent (record t { ports = ports })
ports_kept t ports h named c = record {
  port_device = named;
  job_user = c.job_user;
  job_device = c.job_device;
  job_port = All-weaken _ _ t.jobs (λ j. has_port t.ports ports h j.port_id) c.job_port;
  session_user = c.session_user;
  session_device = c.session_device;
  session_port = All-weaken _ _ t.sessions (λ s. h s.port_id) c.session_port;
  lease_port = All-weaken _ _ t.leases (λ l. h l.port_id) c.lease_port;
  lease_session = c.lease_session;
}

update_kept :
    (t : Tables) (k : ℕ) (f : DevicePort → DevicePort)
    → ((p : DevicePort) → (f p).id ≡ p.id)
    → ((p : DevicePort) → (f p).device_id ≡ p.device_id)
    → IsConsistent t
    → IsConsistent (record t { ports = update_where (is_port k) f t.ports })
update_kept t k f id device c =
    ports_kept t (update_where (is_port k) f t.ports)
      (λ i h e. h (
        omega (
          arith,
          e,
          count-update_where_same (is_port i) (is_port k) f t.ports (λ p _. ground (arith, id p)),
        )))
      (same_devices t.ports c.port_device) c
  where
    one :
        (b : Bool) (p : DevicePort)
        → count (is_device p.device_id) t.devices ≢ 0
        → count (is_device (if◌then◌else◌ {A = DevicePort} b (f p) p).device_id) t.devices ≢ 0
    one true p h = subst (λ i. count (is_device i) t.devices ≢ 0) (sym (device p)) h
    one false p h = h

    same_devices :
        (ports : List DevicePort)
        → All (λ p. count (is_device p.device_id) t.devices ≢ 0) ports
        → All (λ p. count (is_device p.device_id) t.devices ≢ 0) (update_where (is_port k) f ports)
    same_devices [] h = tt
    same_devices (p ∷ ports) h = (one (is_port k p) p h.0, same_devices ports h.1)

device_kept :
    (t : Tables) (k : ℕ) (f : Device → Device)
    → ((d : Device) → (f d).id ≡ d.id)
    → IsConsistent t
    → IsConsistent (record t { devices = update_where (is_device k) f t.devices })
device_kept t k f id c =
    devices_kept t (update_where (is_device k) f t.devices)
      (λ i h e. h (
        omega (
          arith,
          e,
          count-update_where_same (is_device i) (is_device k) f t.devices
              (λ d _. ground (arith, id d)),
        )))
      c

-- A refusal keeps the tables.
pub guarded {ℓ} :
    {R : Type ℓ} (refused : Bool) (r : R) (t : Tables) (rest : R × Tables)
    → IsConsistent t
    → (refused ≡ false → IsConsistent rest.1)
    → IsConsistent (if◌then◌else◌ {A = R × Tables} refused (r, t) rest).1
guarded true r t rest c h = c
guarded false r t rest c h = h refl

pub edit_device_found-IsConsistent :
    (f : DeviceForm) (o : Option Device) (t : Tables)
    → IsConsistent t
    → IsConsistent (edit_device_found f o t).1
edit_device_found-IsConsistent f none t c = c
edit_device_found-IsConsistent f (some d) t c =
    guarded (not f.is_valid) form_shown t _ c (λ _.
      guarded _ integrity_error t _ c (λ _. device_kept t d.id (edited_device f) (λ e. refl) c))

pub toggle_device_found-IsConsistent :
    (o : Option Device) (t : Tables) → IsConsistent t → IsConsistent (toggle_device_found o t).1
toggle_device_found-IsConsistent none t c = c
toggle_device_found-IsConsistent (some d) t c = device_kept t d.id toggled_device (λ e. refl) c

pub add_port_found-IsConsistent :
    (new_id device_id : ℕ) (f : PortForm) (o : Option Device) (t : Tables)
    → find (is_device device_id) t.devices ≡ o
    → IsConsistent t
    → IsConsistent (add_port_found new_id device_id f o t).1
add_port_found-IsConsistent new_id device_id f none t h c = c
add_port_found-IsConsistent new_id device_id f (some d) t h c =
    guarded (not f.is_valid) form_shown t _ c (λ _.
      ports_kept t (t.ports ++ port_of f new_id device_id true ∷ [])
        (λ k g e. g (
          omega
            (arith, e, count-append (is_port k) t.ports (port_of f new_id device_id true ∷ []))))
        (All-append _ t.ports (port_of f new_id device_id true ∷ []) c.port_device
          (found-counted t.devices h, tt))
        c)
  where
    found-counted :
        (devices : List Device)
        → find (is_device device_id) devices ≡ some d
        → count (is_device device_id) devices ≢ 0
    found-counted [] g e = absurd cc
    found-counted (x ∷ devices) g e = ground (arith, found-counted devices)

pub edit_port_found-IsConsistent :
    (device_id : ℕ) (f : PortForm) (o : Option DevicePort) (t : Tables)
    → IsConsistent t
    → IsConsistent (edit_port_found device_id f o t).1
edit_port_found-IsConsistent device_id f none t c = c
edit_port_found-IsConsistent device_id f (some p) t c =
    guarded (not (p.device_id == device_id)) not_found t _ c (λ _.
      guarded (not f.is_valid) form_shown t _ c
        (λ _. update_kept t p.id (edited_port f) (λ q. refl) (λ q. refl) c))

pub toggle_port_found-IsConsistent :
    (device_id : ℕ) (o : Option DevicePort) (t : Tables)
    → IsConsistent t
    → IsConsistent (toggle_port_found device_id o t).1
toggle_port_found-IsConsistent device_id none t c = c
toggle_port_found-IsConsistent device_id (some p) t c =
    guarded (not (p.device_id == device_id)) not_found t _ c
      (λ _. update_kept t p.id toggled_port (λ q. refl) (λ q. refl) c)
