-- ===== src/Admin/Deletion.antt =====
-- Deleting a row with the rows that hang on it: the relationships of retrobridge/models.py with
-- `cascade="all, delete-orphan"`, and the routes that delete accounts, devices and ports
-- (retrobridge/admin/routes.py, retrobridge/api/routes.py, retrobridge/auth/routes.py).
pub mod Kept
pub mod Outcome
use retro_bridge.Prelude.{
  ℕ, Bool, true, false, not, ◌&&◌, ◌||◌, Option, none, some, List, [], ◌∷◌, ◌++◌, ◌==◌,
  if◌then◌else◌, Text,
}
use retro_bridge.Model.{Job, Device, DevicePort, Account, count, find, filter, delete_where}
use retro_bridge.Terminal.Leases.{TerminalSession, PortLease}
use retro_bridge.Admin.Tables.{Tables, is_account, is_device, is_port, is_session}

-- The row that `session.delete` is called with.
pub data Target : Type 0 where
  the_account the_device the_port : ℕ → Target

-- The rows that the relationships name.
abbrev pub takes_account : Target → Account → Bool
takes_account (the_account k) a = is_account k a
takes_account (the_device k) a = false
takes_account (the_port k) a = false

abbrev pub takes_device : Target → Device → Bool
takes_device (the_account k) d = false
takes_device (the_device k) d = is_device k d
takes_device (the_port k) d = false

-- `Device.ports`
abbrev pub takes_port : Target → DevicePort → Bool
takes_port (the_account k) p = false
takes_port (the_device k) p = p.device_id == k
takes_port (the_port k) p = is_port k p

abbrev pub takes_port_id : Target → List DevicePort → ℕ → Bool
takes_port_id x ports k = not (count (λ p. is_port k p && takes_port x p) ports == 0)

-- The relationships of an account and of a device with the rows that name a user and a device.
abbrev pub owns : Target → ℕ → ℕ → Bool
owns (the_account k) user_id device_id = user_id == k
owns (the_device k) user_id device_id = device_id == k
owns (the_port k) user_id device_id = false

abbrev pub takes_its_port : Target → List DevicePort → Option ℕ → Bool
takes_its_port x ports none = false
takes_its_port x ports (some k) = takes_port_id x ports k

-- `User.jobs`, `Device.jobs` and `DevicePort.jobs`
abbrev pub takes_job : Target → List DevicePort → Job → Bool
takes_job x ports j = owns x j.user_id j.device_id || takes_its_port x ports j.port_id

-- `User.terminal_sessions`, `Device.terminal_sessions` and `DevicePort.terminal_sessions`
abbrev pub takes_session : Target → List DevicePort → TerminalSession → Bool
takes_session x ports s = owns x s.user_id s.device_id || takes_port_id x ports s.port_id

-- `DevicePort.port_leases`
abbrev pub takes_lease : Target → List DevicePort → PortLease → Bool
takes_lease x ports l = takes_port_id x ports l.port_id

abbrev pub takes_session_id : Target → Tables → ℕ → Bool
takes_session_id x t k =
    not (count (λ s. is_session k s && takes_session x t.ports s) t.sessions == 0)

-- `TerminalSession.port_leases` does not cascade: the lease's `session_id`, which may not be NULL,
-- is set to NULL.
abbrev pub is_orphaned : Target → Tables → PortLease → Bool
is_orphaned x t l = not (takes_lease x t.ports l) && takes_session_id x t l.session_id

abbrev pub without : Target → Tables → Tables
without x t = record {
  accounts = delete_where (takes_account x) t.accounts;
  devices = delete_where (takes_device x) t.devices;
  ports = delete_where (takes_port x) t.ports;
  jobs = delete_where (takes_job x t.ports) t.jobs;
  sessions = delete_where (takes_session x t.ports) t.sessions;
  leases = delete_where (takes_lease x t.ports) t.leases;
}

-- `delete` and `commit`; where the commit raises, nothing is saved.
unfoldable pub delete : Target → Tables → Option Tables
delete x t = if count (is_orphaned x t) t.leases == 0 then some (without x t) else none

-- A directory that is removed from the disk: the one that holds a job's upload or its output, or a
-- session's logs.
pub data Directory : Type 0 where
  of_upload of_output : Text → Directory
  of_session : ℕ → Directory

pub data Reply : Type 0 where
  forbidden own_account not_found integrity_error deleted redirected : Reply

abbrev pub directory_of : (Text → Directory) → Option Text → List Directory
directory_of kind none = []
directory_of kind (some path) = kind path ∷ []

abbrev pub directories_of_jobs : List Job → List Directory
directories_of_jobs [] = []
directories_of_jobs (j ∷ jobs) =
    directory_of of_upload j.stored_filename
    ++ (directory_of of_output j.output_path ++ directories_of_jobs jobs)

abbrev pub directories_of_sessions : List TerminalSession → List Directory
directories_of_sessions [] = []
directories_of_sessions (s ∷ sessions) = of_session s.id ∷ directories_of_sessions sessions

-- `_delete_user_directories`: what it removes, of the directories that exist.
abbrev pub user_directories : List Job → List TerminalSession → List Directory
user_directories jobs sessions = directories_of_jobs jobs ++ directories_of_sessions sessions

-- A reply, the tables, and the directories that are removed.
abbrev pub committed :
    Reply → Option Tables → Tables → List Directory → Reply × (Tables × List Directory)
committed r none t directories = (integrity_error, (t, []))
committed r (some t') t directories = (r, (t', directories))

abbrev pub delete_found : Reply → Option Account → Tables → Reply × (Tables × List Directory)
delete_found missing none t = (missing, (t, []))
delete_found missing (some a) t = committed deleted (delete (the_account a.id) t) t (
    user_directories (filter (λ j. j.user_id == a.id) t.jobs)
      (filter (λ s. s.user_id == a.id) t.sessions))

-- `delete_user` of the admin's pages
unfoldable pub delete_user : ℕ → ℕ → Tables → Reply × (Tables × List Directory)
delete_user current user_id t =
    if user_id == current
    then (own_account, (t, []))
    else delete_found redirected (find (is_account user_id) t.accounts) t

-- `delete_user` of the API
unfoldable pub delete_user_api : Bool → ℕ → ℕ → Tables → Reply × (Tables × List Directory)
delete_user_api is_admin current user_id t =
    if not is_admin
    then (forbidden, (t, []))
    else if user_id == current
    then (own_account, (t, []))
    else delete_found not_found (find (is_account user_id) t.accounts) t

-- `delete_account`, of the user who is logged in
unfoldable pub delete_account : ℕ → Tables → Reply × (Tables × List Directory)
delete_account current t = delete_found redirected (find (is_account current) t.accounts) t

-- A reply and the tables, with no directory to remove.
abbrev pub saved : Option Tables → Tables → Reply × Tables
saved none t = (integrity_error, t)
saved (some t') t = (deleted, t')

abbrev pub delete_device_found : Option Device → Tables → Reply × Tables
delete_device_found none t = (not_found, t)
delete_device_found (some d) t = saved (delete (the_device d.id) t) t

unfoldable pub delete_device : ℕ → Tables → Reply × Tables
delete_device device_id t = delete_device_found (find (is_device device_id) t.devices) t

abbrev pub delete_port_found : ℕ → Option DevicePort → Tables → Reply × Tables
delete_port_found device_id none t = (not_found, t)
delete_port_found device_id (some p) t =
    if not (p.device_id == device_id) then (not_found, t) else saved (delete (the_port p.id) t) t

unfoldable pub delete_port : ℕ → ℕ → Tables → Reply × Tables
delete_port device_id port_id t = delete_port_found device_id (find (is_port port_id) t.ports) t
