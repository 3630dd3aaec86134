-- ===== src/Admin/Operations.antt =====
-- The admin's operations on users, devices and ports, in any order.
use retro_bridge.Prelude.{
  ℕ, ◌≡◌, refl, Bool, true, false, not, Option, none, some, List, [], ◌∷◌, ◌++◌, ◌==◌, arith,
  if◌then◌else◌,
}
use retro_bridge.Model.{Account, Device, DevicePort, count-append, find}
use retro_bridge.Admin.Tables.{Tables, IsConsistent, is_account, is_device, is_port}
use retro_bridge.Admin.Deletion.{
  Target, the_account, the_device, the_port, delete, delete_user, delete_found, delete_user_api,
  delete_account, delete_device, delete_device_found, delete_port, delete_port_found, Directory,
  committed, Reply, own_account, forbidden, not_found, redirected, saved,
}
use retro_bridge.Admin.Deletion.Kept.{delete-IsConsistent}
use retro_bridge.Admin.Devices.{
  DeviceForm, PortForm, form_shown, integrity_error, add_device, edit_device, toggle_device,
  add_port, edit_port, toggle_port,
}
use retro_bridge.Admin.Devices.Consistent.{
  guarded, devices_kept, edit_device_found-IsConsistent, toggle_device_found-IsConsistent,
  add_port_found-IsConsistent, edit_port_found-IsConsistent, toggle_port_found-IsConsistent,
}

pub data Operation : Tables → Tables → Type 0 where
  adds_device : {t : Tables} (new_id : ℕ) (f : DeviceForm) → Operation t (add_device new_id f t).1
  edits_device :
      {t : Tables} (device_id : ℕ) (f : DeviceForm) → Operation t (edit_device device_id f t).1
  toggles_device : {t : Tables} (device_id : ℕ) → Operation t (toggle_device device_id t).1
  deletes_device : {t : Tables} (device_id : ℕ) → Operation t (delete_device device_id t).1
  adds_port :
      {t : Tables} (new_id device_id : ℕ) (f : PortForm)
      → Operation t (add_port new_id device_id f t).1
  edits_port :
      {t : Tables} (device_id port_id : ℕ) (f : PortForm)
      → Operation t (edit_port device_id port_id f t).1
  toggles_port :
      {t : Tables} (device_id port_id : ℕ) → Operation t (toggle_port device_id port_id t).1
  deletes_port :
      {t : Tables} (device_id port_id : ℕ) → Operation t (delete_port device_id port_id t).1
  deletes_user :
      {t : Tables} (current user_id : ℕ) → Operation t (delete_user current user_id t).1.0
  deletes_user_api :
      {t : Tables} (is_admin : Bool) (current user_id : ℕ)
      → Operation t (delete_user_api is_admin current user_id t).1.0
  deletes_account : {t : Tables} (current : ℕ) → Operation t (delete_account current t).1.0

pub data Operations : Tables → Tables → Type 0 where
  unchanged : {t : Tables} → Operations t t
  then_ : {a b c : Tables} → Operations a b → Operation b c → Operations a c

committed-IsConsistent :
    (x : Target) (r : Reply) (o : Option Tables) (t : Tables) (directories : List Directory)
    → delete x t ≡ o
    → IsConsistent t
    → IsConsistent (committed r o t directories).1.0
committed-IsConsistent x r none t directories h c = c
committed-IsConsistent x r (some t') t directories h c = delete-IsConsistent x t t' h c

saved-IsConsistent :
    (x : Target) (o : Option Tables) (t : Tables)
    → delete x t ≡ o
    → IsConsistent t
    → IsConsistent (saved o t).1
saved-IsConsistent x none t h c = c
saved-IsConsistent x (some t') t h c = delete-IsConsistent x t t' h c

delete_found-IsConsistent :
    (r : Reply) (o : Option Account) (t : Tables)
    → IsConsistent t
    → IsConsistent (delete_found r o t).1.0
delete_found-IsConsistent r none t c = c
delete_found-IsConsistent r (some a) t c = committed-IsConsistent (the_account a.id) _ _ t _ refl c

delete_device_found-IsConsistent :
    (o : Option Device) (t : Tables) → IsConsistent t → IsConsistent (delete_device_found o t).1
delete_device_found-IsConsistent none t c = c
delete_device_found-IsConsistent (some d) t c =
    saved-IsConsistent (the_device d.id) (delete (the_device d.id) t) t refl c

delete_port_found-IsConsistent :
    (device_id : ℕ) (o : Option DevicePort) (t : Tables)
    → IsConsistent t
    → IsConsistent (delete_port_found device_id o t).1
delete_port_found-IsConsistent device_id none t c = c
delete_port_found-IsConsistent device_id (some p) t c =
    guarded (not (p.device_id == device_id)) not_found t _ c
      (λ _. saved-IsConsistent (the_port p.id) (delete (the_port p.id) t) t refl c)

Operation-IsConsistent : {a b : Tables} → Operation a b → IsConsistent a → IsConsistent b
unfolding add_device edit_device toggle_device delete_device add_port edit_port toggle_port
    delete_port delete_user delete_user_api delete_account
Operation-IsConsistent {a = t} (adds_device new_id f) c =
    guarded (not f.is_valid) form_shown t _ c (λ _. guarded _ integrity_error t _ c (λ _.
      devices_kept t
        (t.devices
          ++ record { id = new_id; name = f.name; display_name = f.display_name; is_enabled = true }
            ∷ [])
        (λ k g e. g (
          omega (
            arith,
            e,
            count-append (is_device k) t.devices (
                record {
                  id = new_id;
                  name = f.name;
                  display_name = f.display_name;
                  is_enabled = true;
                }
                ∷ []),
          )))
        c))
Operation-IsConsistent {a = t} (edits_device device_id f) c =
    edit_device_found-IsConsistent f (find (is_device device_id) t.devices) t c
Operation-IsConsistent {a = t} (toggles_device device_id) c =
    toggle_device_found-IsConsistent (find (is_device device_id) t.devices) t c
Operation-IsConsistent {a = t} (deletes_device device_id) c =
    delete_device_found-IsConsistent (find (is_device device_id) t.devices) t c
Operation-IsConsistent {a = t} (adds_port new_id device_id f) c =
    add_port_found-IsConsistent new_id device_id f (find (is_device device_id) t.devices) t refl c
Operation-IsConsistent {a = t} (edits_port device_id port_id f) c =
    edit_port_found-IsConsistent device_id f (find (is_port port_id) t.ports) t c
Operation-IsConsistent {a = t} (toggles_port device_id port_id) c =
    toggle_port_found-IsConsistent device_id (find (is_port port_id) t.ports) t c
Operation-IsConsistent {a = t} (deletes_port device_id port_id) c =
    delete_port_found-IsConsistent device_id (find (is_port port_id) t.ports) t c
Operation-IsConsistent {a = t} (deletes_user current user_id) c = by_test (user_id == current)
  where
    by_test :
        (b : Bool)
        → IsConsistent
            (if◌then◌else◌ {A = Reply × (Tables × List Directory)} b
              (own_account, (t, []))
              (delete_found redirected (find (is_account user_id) t.accounts) t)).1.0
    by_test true = c
    by_test false = delete_found-IsConsistent redirected (find (is_account user_id) t.accounts) t c
Operation-IsConsistent {a = t} (deletes_user_api is_admin current user_id) c =
    by_tests is_admin (user_id == current)
  where
    by_tests :
        (b d : Bool)
        → IsConsistent
            (if◌then◌else◌ {A = Reply × (Tables × List Directory)}
              (not b)
              (forbidden, (t, []))
              (if d
                then (own_account, (t, []))
                else delete_found not_found (find (is_account user_id) t.accounts) t)).1.0
    by_tests false d = c
    by_tests true true = c
    by_tests true false =
        delete_found-IsConsistent not_found (find (is_account user_id) t.accounts) t c
Operation-IsConsistent {a = t} (deletes_account current) c =
    delete_found-IsConsistent redirected (find (is_account current) t.accounts) t c

-- Whatever admins and users do to devices, ports and accounts, in whatever order: every job, session,
-- port and lease in the tables names rows that are there.
pub Operations-IsConsistent : {a b : Tables} → Operations a b → IsConsistent a → IsConsistent b
Operations-IsConsistent unchanged c = c
Operations-IsConsistent (then_ os o) c = Operation-IsConsistent o (Operations-IsConsistent os c)
