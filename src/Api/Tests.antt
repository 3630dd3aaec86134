-- ===== src/Api/Tests.antt =====
-- A few jobs, read over the interface.
use retro_bridge.Prelude.{
  ℕ, ◌≡◌, ◌≢◌, refl, ap, ◌*◌, true, false, none, some, List, [], ◌∷◌, ◌++◌, arith, Text, codes,
  take, second,
}
use retro_bridge.Model.{Status, running, completed}
use retro_bridge.Jobs.Output.{last, read_blocks, read_output_tail}
use retro_bridge.Jobs.Output.Tail.{read_output_tail-last}
use retro_bridge.Terminal.Leases.{TerminalSession, active}
use retro_bridge.Terminal.Bridges.{State, Env}
use retro_bridge.Accounts.Users.{RegisterRequest}
use retro_bridge.Api.Jobs.{Current}
use retro_bridge.Api.Events.{Poll, job_events}
use retro_bridge.Api.Events.Stream.{sent, ascii, job_events-output}
use retro_bridge.Api.Sessions.{bulk_disconnect, check_username, available}
use retro_bridge.Api.Sessions.Laws.{disconnect_each, bulk_disconnect-eq-disconnect_each}

abbrev admin : Current
admin = record { user_id = 1; is_admin = true }

abbrev lines : List ℕ
lines = codes "one" ++ (13 ∷ 10 ∷ codes "two" ++ (10 ∷ codes "three"))

-- ASCII with errors="replace"
abbrev decode : List ℕ → Text
decode [] = []
decode (b ∷ bytes) = b ∷ decode bytes

newline-decode : (x y : List ℕ) → decode (x ++ 10 ∷ y) ≡ decode x ++ 10 ∷ decode y
newline-decode [] y = refl
newline-decode (b ∷ x) y = ap (λ t. b ∷ t) (newline-decode x y)

nonempty-decode : (b : ℕ) (bytes : List ℕ) → decode (b ∷ bytes) ≢ []
nonempty-decode b bytes e = cc

last_two : read_output_tail decode (some lines) (some 2) ≡ codes "two" ∷ codes "three" ∷ []
unfolding read_output_tail read_blocks
last_two = refl

abbrev poll : Status → ℕ → Poll
poll status n = record {
  status = status;
  size = some n;
  file = some (take 5 (codes "HELLO WORLD"));
  is_over = false;
}

abbrev polls : List Poll
polls = poll running 2 ∷ poll running 2 ∷ poll completed 5 ∷ []

abbrev session : ℕ → TerminalSession
session i = record {
  id = i;
  user_id = 7;
  device_id = 1;
  port_id = 5;
  status = active;
  connected_at = none;
  disconnected_at = none;
  duration_seconds = none;
  disconnect_reason = none;
  bridge_worker_id = none;
  bridge_heartbeat_at = none;
  bridge_status = none;
}

abbrev state : State
state = record {
  active = [];
  suspended = [];
  db = record { sessions = session 1 ∷ session 2 ∷ []; leases = [] };
}

abbrev now : Env
now = record { fails = false; worker = codes "host:1"; now = 9 * second }

abbrev registration : RegisterRequest
registration = record {
  is_authenticated = false;
  registration_open = true;
  is_valid_form = true;
  username = codes "ada";
  email = codes "a@b.c";
  password = codes "secret";
  full_name = none;
  new_id = 1;
  now = 5;
}

ada_is_free : check_username true (codes " ada") [] ≡ available
unfolding check_username
ada_is_free = refl

read_output_tail-last_example :
    read_output_tail decode (some lines) (some 2)
    ≡ last 2 (read_output_tail decode (some lines) none)
read_output_tail-last_example =
    read_output_tail-last decode newline-decode nonempty-decode refl 2 (some lines)
      (λ e. absurd (omega (arith, e)))

job_events-output_example : sent (job_events ascii running polls) ≡ codes "HELLO"
job_events-output_example =
    job_events-output (codes "HELLO WORLD") running polls (search)
      ((omega arith, (5, refl)), ((omega arith, (5, refl)), ((omega arith, (5, refl)), tt)))

both_disconnected :
    bulk_disconnect now (some 1 ∷ none ∷ some 3 ∷ []) (0, state)
    ≡ disconnect_each now (1 ∷ 3 ∷ []) (0, state)
both_disconnected = bulk_disconnect-eq-disconnect_each now (some 1 ∷ none ∷ some 3 ∷ []) (0, state)
