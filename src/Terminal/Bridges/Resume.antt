-- ===== src/Terminal/Bridges/Resume.antt =====
-- A browser that loses its connection and comes back.
use retro_bridge.Prelude.{
  ℕ, ◌+◌, ◌-◌, ◌≤◌, ◌≡◌, refl, inl, inr, Bool, true, false, Option, none, some, List, [], ◌∷◌,
  arith, if◌then◌else◌, Bool-cases, Text, text_eq, text_eq_self, or_none,
}
use retro_bridge.Terminal.Leases.{
  TerminalSession, bridge_suspended, has_session_id, update_bridge_registry, owned_elsewhere,
  is_bridge_active_remotely, BridgeStatus,
}
use retro_bridge.Terminal.Bridges.{
  Bridge, State, Env, dict_get, dict_remove, dict_set, nat_eq, get_active, get_suspended,
  grace_period, is_over, resumed, resume_bridge, suspend_bridge,
}

module _ {K V : Type 0} (eq : K → K → Bool) where
  dict_get-set :
      (k : K) (v : V) (d : List (K × V))
      → eq k k ≡ true
      → dict_get eq k (dict_set eq k v d) ≡ some v
  dict_get-set k v [] h = rw h refl
  dict_get-set k v ((x, w) ∷ d) h = elim (Bool-cases (eq x k)) [
    | inl e ↦ rw (e, e) refl
    | inr e ↦ rw (e, e) (dict_get-set k v d h)
  ]

  dict_get-remove : (k : K) (d : List (K × V)) → dict_get eq k (dict_remove eq k d) ≡ none
  dict_get-remove k [] = refl
  dict_get-remove k ((x, w) ∷ d) = elim (Bool-cases (eq x k)) [
    | inl e ↦ rw e (dict_get-remove k d)
    | inr e ↦ rw (e, e) (dict_get-remove k d)
  ]

-- A process never finds that a bridge that it has registered is another's.
registered_here :
    (worker : Text) (now later session_id : ℕ) (status : Option BridgeStatus)
    (sessions : List TerminalSession)
    → is_bridge_active_remotely worker later session_id
        (update_bridge_registry false worker now session_id status sessions)
      ≡ false
unfolding is_bridge_active_remotely update_bridge_registry
registered_here worker now later k status [] = refl
registered_here worker now later k status (s ∷ sessions) = elim (Bool-cases (has_session_id k s)) [
  | inl e ↦ rw (e, e) (own worker)
  | inr e ↦ rw (e, e) (registered_here worker now later k status sessions)
]
  where
    own :
        (w : Text)
        → owned_elsewhere w later
            (record s {
              bridge_worker_id = some w;
              bridge_heartbeat_at = some now;
              bridge_status = status;
            })
            (or_none (some w))
          ≡ false
    own [] = refl
    own (c ∷ w) = ground (arith, text_eq_self (c ∷ w))

-- The bridge that comes back: its session, its port and its counters are those that it had, and so is the
-- time that it has been in use.
pub record IsBack (b b' : Bridge) (before now flushed : ℕ) (new_sid : Text) : Type 0 where
  pub new_owner : b'.sid ≡ some new_sid
  pub same_session : b'.session_id ≡ b.session_id
  pub same_port : b'.port_id ≡ b.port_id
  pub same_sent : b'.bytes_sent ≡ b.bytes_sent
  pub same_output : b'.output_buffer ≡ b.output_buffer
  pub more_received : b'.bytes_received ≡ b.bytes_received + (if b.is_open then flushed else 0)
  pub same_usage : now - b'.start_time ≡ before - b.start_time

-- A connection that drops and comes back to the same process within the grace period, with nothing
-- between, gets its bridge back: it is active under the new connection and no longer suspended, with
-- its counters, its output and the time that counts against its runtime.
pub suspend_bridge-resume_bridge :
    (e e' : Env) (sid new_sid : Text) (flushed : ℕ) (w : State) {b : Bridge}
    → get_active sid w ≡ some b
    → e.fails ≡ false
    → e'.worker ≡ e.worker
    → b.start_time ≤ e.now
    → e.now ≤ e'.now
    → e'.now ≤ e.now + grace_period
    → let r = resume_bridge e' new_sid b.session_id flushed (suspend_bridge e sid w).1 in
      (b' : Bridge) × (r.0 ≡ some b')
      × (get_active new_sid r.1 ≡ some b')
      × (get_suspended b.session_id r.1 ≡ none)
      × IsBack b b' e.now e'.now flushed new_sid
unfolding suspend_bridge resume_bridge
suspend_bridge-resume_bridge e e' sid new_sid flushed w {b} h ok same s le grace =
    let held = record b { running = true; suspended_at = some e.now; sid = none } in
    let k = b.session_id in
    let back = resumed e' new_sid flushed held in
    let here = registered_here e.worker e.now e'.now k (some bridge_suspended) w.db.sessions in
    let found = dict_get-set nat_eq k held w.suspended (ground arith) in
    let young : is_over e'.now (some e.now) ≡ false = ground arith in
    let mine : is_bridge_active_remotely e'.worker e'.now k
          (update_bridge_registry e.fails e.worker e.now k (some bridge_suspended) w.db.sessions)
        ≡ false =
      rw (same, ok) here in
    rw h (
      rw found (
        rw (mine, young)
          (
            back,
            refl,
            dict_get-set text_eq new_sid back (dict_remove text_eq sid w.active)
                (text_eq_self new_sid),
            dict_get-remove nat_eq k (dict_set nat_eq k held w.suspended),
            record {
              new_owner = refl;
              same_session = refl;
              same_port = refl;
              same_sent = refl;
              same_output = refl;
              more_received = refl;
              same_usage = omega arith;
            },
          )))
