-- ===== src/Terminal/Events/Tests.antt =====
-- A request for a session on a device with one interactive port.
use retro_bridge.Prelude.{
  ℕ, ◌*◌, ◌≡◌, ◌==◌, refl, true, false, some, none, [], ◌∷◌, Text, codes, second,
}
use retro_bridge.Model.{User, Device, interactive, find}
use retro_bridge.Worker.Tests.{port}
use retro_bridge.Terminal.Leases.{
  acquire_port_lease, recover_stale_leases, is_bridge_active_remotely,
}
use retro_bridge.Terminal.Bridges.{State, Env, start_bridge}
use retro_bridge.Terminal.Events.{
  Request, granted, max_sessions, find_port, request_session, is_enabled_device,
}
use retro_bridge.Terminal.Events.Quota.{IsAllowed, request_session-IsAllowed}

abbrev user : User
user = record {
  id = 7;
  is_admin = false;
  max_queued_jobs = 5;
  max_terminal_sessions = 1;
  email_notify_jobs = false;
  patreon_tier = none;
}

abbrev device : Device
device = record { id = 1; name = codes "centurion"; display_name = none; is_enabled = true }

abbrev request : Request
request = record {
  sid = codes "a";
  user = some user;
  maintenance = false;
  device_id = 1;
  devices = device ∷ [];
  ports = record port { purpose = interactive } ∷ [];
  new_id = λ n. 9;
  lease_fails = λ n. false;
  opens = λ p. true;
  flushed = 0;
}

abbrev empty : State
empty = record { active = []; suspended = []; db = record { sessions = []; leases = [] } }

abbrev env : Env
env = record { fails = false; worker = codes "host:1"; now = 50 * second }

abbrev no_setting : Text → ℕ
no_setting s = 0

first_granted : (request_session no_setting env request empty).0 ≡ granted 9
unfolding request_session max_sessions find_port start_bridge acquire_port_lease
    recover_stale_leases is_bridge_active_remotely
first_granted = refl

request_session-IsAllowed_example :
    (u : User) × (request.user ≡ some u)
    × (is_enabled_device (find (λ d. d.id == 1) request.devices) ≡ true)
    × IsAllowed no_setting env request u empty (request_session no_setting env request empty) 9
request_session-IsAllowed_example =
    request_session-IsAllowed no_setting env request empty first_granted
