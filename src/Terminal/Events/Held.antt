-- ===== src/Terminal/Events/Held.antt =====
-- How many active sessions of a user the parts of `handle_request_session` leave.
use retro_bridge.Prelude.{
  ℕ, suc, ◌+◌, ◌≤◌, ◌≡◌, refl, ap, inl, inr, Bool, true, false, not, ◌&&◌, ◌||◌, Option, none, some,
  List, [], ◌∷◌, arith, Bool-cases, Text,
}
use retro_bridge.Model.{
  DevicePort, count, update_where, delete_where, count-append, count-le, count-update_where_le,
  count-update_where_same,
}
use retro_bridge.Terminal.Leases.{
  TerminalSession, PortLease, Db, lease_expired, is_active, has_session_id, is_expired, disconnect,
  recover_sessions, recover_stale_leases, create_session, acquire_port_lease,
  update_bridge_registry, active, BridgeStatus, bridge_active,
}
use retro_bridge.Terminal.Bridges.{State, Env, has_local_bridge, start_bridge}
use retro_bridge.Terminal.Events.{Request, is_active_of, find_port}

recover_sessions-count :
    (q : TerminalSession → Bool) (is_local : ℕ → Bool) (now : ℕ) (ls : List PortLease)
    (ss : List TerminalSession)
    → ((s : TerminalSession) → q (disconnect now lease_expired s) ≡ true → q s ≡ true)
    → count q (recover_sessions is_local now ls ss) ≤ count q ss
unfolding recover_sessions
recover_sessions-count q is_local now [] ss h = omega arith
recover_sessions-count q is_local now (l ∷ ls) ss h =
    elim (Bool-cases (not (is_expired now l) || is_local l.session_id)) [
      | inl e ↦ rw e (recover_sessions-count q is_local now ls ss h)
      | inr e ↦ rw e (
          omega (
            arith,
            recover_sessions-count q is_local now ls
                (update_where gone (disconnect now lease_expired) ss) h,
            count-update_where_le q gone (disconnect now lease_expired) ss (λ s _. h s),
          ))
    ]
  where
    gone : TerminalSession → Bool
    gone s = has_session_id l.session_id s && is_active s.status

count-delete :
    (q p : TerminalSession → Bool) (ss : List TerminalSession)
    → count q (delete_where p ss) ≡ count (λ s. q s && not (p s)) ss
count-delete q p [] = refl
count-delete q p (s ∷ ss) = ground (arith, count-delete q p ss)

acquire_port_lease-sessions :
    (is_local : ℕ → Bool) (fails : Bool) (worker : Text) (now port_id session_id : ℕ) (db : Db)
    → (acquire_port_lease is_local fails worker now port_id session_id db).1.sessions
      ≡ recover_sessions is_local now db.leases db.sessions
unfolding acquire_port_lease recover_stale_leases
acquire_port_lease-sessions is_local fails worker now port_id session_id db = ground arith

registry-count :
    (user_id : ℕ) (fails : Bool) (worker : Text) (now k : ℕ) (status : Option BridgeStatus)
    (ss : List TerminalSession)
    → count (is_active_of user_id) (update_bridge_registry fails worker now k status ss)
      ≡ count (is_active_of user_id) ss
unfolding update_bridge_registry
registry-count user_id true worker now k status ss = refl
registry-count user_id false worker now k status ss =
    count-update_where_same (is_active_of user_id) (has_session_id k)
      (λ s. record s {
        bridge_worker_id = some worker;
        bridge_heartbeat_at = some now;
        bridge_status = status;
      })
      ss (λ s _. refl)

module _ (user_id : ℕ) where
  abbrev pub held : State → ℕ
  held w = count (is_active_of user_id) w.db.sessions

  pub start_bridge-held :
      (e : Env) (opens : Bool) (sid : Text) (k : ℕ) (p : DevicePort) (w : State)
      → held (start_bridge e opens sid k p w).1 ≤ held w
  unfolding start_bridge
  start_bridge-held e opens sid k p w =
      ground
        (arith, registry-count user_id e.fails e.worker e.now k (some bridge_active) w.db.sessions)

  pub find_port-held :
      (e : Env) (r : Request) (n : ℕ) (ps : List DevicePort) (w : State)
      → held (find_port e r user_id n ps w).1 ≤ held w + 1
  unfolding find_port
  find_port-held e r n [] w = omega arith
  find_port-held e r n (p ∷ ps) w = by_ok tried.0 (find_port-held e r (suc n) ps left)
    where
      id : ℕ
      id = r.new_id n

      made : Db
      made = create_session id e.now user_id r.device_id p.id w.db

      fresh : TerminalSession
      fresh = record {
        id = id;
        user_id = user_id;
        device_id = r.device_id;
        port_id = p.id;
        status = active;
        connected_at = some e.now;
        disconnected_at = none;
        duration_seconds = none;
        disconnect_reason = none;
        bridge_worker_id = none;
        bridge_heartbeat_at = none;
        bridge_status = none;
      }

      tried : Bool × Db
      tried = acquire_port_lease (has_local_bridge w) (r.lease_fails n) e.worker e.now p.id id made

      left : State
      left = record w {
        db = record tried.1 { sessions = delete_where (has_session_id id) tried.1.sessions };
      }

      sessions :
          tried.1.sessions ≡ recover_sessions (has_local_bridge w) e.now made.leases made.sessions
      sessions =
          acquire_port_lease-sessions (has_local_bridge w) (r.lease_fails n) e.worker e.now p.id id
            made

      other : TerminalSession → Bool
      other s = is_active_of user_id s && not (has_session_id id s)

      one_more : count (is_active_of user_id) tried.1.sessions ≤ held w + 1
      one_more =
          let less =
            recover_sessions-count (is_active_of user_id) (has_local_bridge w) e.now made.leases
              made.sessions (λ s h. ground arith) in
          let sum = count-append (is_active_of user_id) w.db.sessions (fresh ∷ []) in
          let one : count (is_active_of user_id) (fresh ∷ []) ≤ 1 = ground arith in
          rw sessions (omega (arith, less, sum, one))

      no_more : held left ≤ held w
      no_more =
          let kept = count-delete (is_active_of user_id) (has_session_id id) tried.1.sessions in
          let less =
            recover_sessions-count other (has_local_bridge w) e.now made.leases made.sessions
              (λ s h. ground arith) in
          let sum = count-append other w.db.sessions (fresh ∷ []) in
          let zero_ : count other (fresh ∷ []) ≡ 0 = ground arith in
          let fewer = count-le other (is_active_of user_id) w.db.sessions (λ s h. ground arith) in
          let same = ap (count other) sessions in omega (arith, kept, less, sum, zero_, fewer, same)

      by_ok :
          (ok : Bool)
          → held (find_port e r user_id (suc n) ps left).1 ≤ held left + 1
          → held
              (elim ok as (λ _. Option (DevicePort × ℕ) × State) [
                | true ↦ (some (p, id), record w { db = tried.1 })
                | false ↦ find_port e r user_id (suc n) ps left
              ]).1
            ≤ held w + 1
      by_ok true rest = one_more
      by_ok false rest = omega (arith, rest, no_more)
