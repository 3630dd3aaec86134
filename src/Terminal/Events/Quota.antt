-- ===== src/Terminal/Events/Quota.antt =====
-- A user gets no new terminal session beyond the limit.
use retro_bridge.Prelude.{
  ℕ, ◌≤◌, ◌≡◌, ◌⊎◌, refl, inl, inr, Bool, true, false, not, ◌&&◌, Option, none, some, ◌==◌, leb,
  arith, Bool-cases, Text,
}
use retro_bridge.Model.{User, DevicePort, filter, find}
use retro_bridge.Terminal.Leases.{TerminalSession, get_session}
use retro_bridge.Terminal.Bridges.{Bridge, State, Env, start_bridge, resume_bridge, get_active}
use retro_bridge.Terminal.Events.{
  Request, Answer, granted, is_existing, max_sessions, is_interactive_on, find_port, bridged,
  open_found, new_session, is_still_active, after_resume, resume_or_new, request_by,
  request_session, is_enabled_device, is_running_bridge,
}
use retro_bridge.Terminal.Events.Held.{held, start_bridge-held, find_port-held}

module _ (setting : Text → ℕ) (e : Env) (r : Request) (user : User) where
  bridged-held :
      (id : ℕ) (b : Bool × State) {k : ℕ}
      → (bridged e id b).0 ≡ granted k
      → held user.id (bridged e id b).1 ≡ held user.id b.1
  bridged-held id (true, w) h = refl
  bridged-held id (false, w) h = cc

  open_found-held :
      (f : Option (DevicePort × ℕ) × State) {k : ℕ}
      → (open_found e r f).0 ≡ granted k
      → held user.id (open_found e r f).1 ≤ held user.id f.1
  open_found-held (none, w) h = cc
  open_found-held (some (p, id), w) h =
      let started = start_bridge e (r.opens p.id) r.sid id p w in
      omega
        (arith, bridged-held id started h, start_bridge-held user.id e (r.opens p.id) r.sid id p w)

  new_session-held :
      (w : State) {k : ℕ}
      → (new_session setting e r user w).0 ≡ granted k
      → held user.id (new_session setting e r user w).1 ≤ max_sessions setting user
  new_session-held w h = elim (Bool-cases (leb (max_sessions setting user) (held user.id w))) [
    | inl full ↦ cc (rw full at h)
    | inr free ↦
        let found = find_port e r user.id 0 (filter (is_interactive_on r.device_id) r.ports) w in
        let opened = open_found-held found (rw free at h) in
        let more =
          find_port-held user.id e r 0 (filter (is_interactive_on r.device_id) r.ports) w in
        rw free (ground (arith, opened, more))
  ]

  -- The session that is granted was there before, or leaves the user within the limit.
  abbrev pub IsAllowed : State → Answer × State → ℕ → Type 0
  IsAllowed w a k =
      ((s : TerminalSession) × (find (is_existing user.id r.device_id) w.db.sessions ≡ some s)
        × (k ≡ s.id))
      ⊎ (held user.id a.1 ≤ max_sessions setting user)

  after_resume-IsAllowed :
      (w : State) (s : TerminalSession) (o : Option Bridge × State) {k : ℕ}
      → find (is_existing user.id r.device_id) w.db.sessions ≡ some s
      → (after_resume setting e r user s o).0 ≡ granted k
      → IsAllowed w (after_resume setting e r user s o) k
  after_resume-IsAllowed w s (some b, w') f h = inl (s, f, ground arith)
  after_resume-IsAllowed w s (none, w') f h =
      elim (Bool-cases (is_still_active (get_session s.id w'.db.sessions))) [
        | inl y ↦ cc (rw y at h)
        | inr n ↦ rw n (inr (new_session-held w' (rw n at h)))
      ]

  resume_or_new-IsAllowed :
      (w : State) (o : Option TerminalSession) {k : ℕ}
      → find (is_existing user.id r.device_id) w.db.sessions ≡ o
      → (resume_or_new setting e r user o w).0 ≡ granted k
      → IsAllowed w (resume_or_new setting e r user o w) k
  resume_or_new-IsAllowed w none f h = inr (new_session-held w h)
  resume_or_new-IsAllowed w (some s) f h =
      after_resume-IsAllowed w s (resume_bridge e r.sid s.id r.flushed w) f h

  abbrev enabled : Bool
  enabled = is_enabled_device (find (λ d. d.id == r.device_id) r.devices)

  request_by-IsAllowed :
      (w : State) {k : ℕ}
      → (request_by setting e r (some user) w).0 ≡ granted k
      → (enabled ≡ true) × IsAllowed w (request_by setting e r (some user) w) k
  request_by-IsAllowed w h = elim (Bool-cases (r.maintenance && not user.is_admin)) [
    | inl m ↦ cc (rw m at h)
    | inr m ↦ elim (Bool-cases enabled) [
      | inr d ↦ cc (rw (m, d) at h)
      | inl d ↦ elim (Bool-cases (is_running_bridge (get_active r.sid w))) [
        | inl b ↦ cc (rw (m, d, b) at h)
        | inr b ↦
            rw (m, d, b)
              (
                refl,
                resume_or_new-IsAllowed w (find (is_existing user.id r.device_id) w.db.sessions)
                    refl (rw (m, d, b) at h),
              )
      ]
    ]
  ]

-- A request that is granted is a user's who is logged in, for an enabled device. It resumes the user's
-- active session on the device, or leaves the user with no more active sessions than the limit, the
-- new one counted. This holds where no other call comes between the commits of the request.
pub request_session-IsAllowed :
    (setting : Text → ℕ) (e : Env) (r : Request) (w : State) {k : ℕ}
    → (request_session setting e r w).0 ≡ granted k
    → (user : User) × (r.user ≡ some user)
      × (is_enabled_device (find (λ d. d.id == r.device_id) r.devices) ≡ true)
      × IsAllowed setting e r user w (request_session setting e r w) k
unfolding request_session
request_session-IsAllowed setting e r w {k} = by_user r.user
  where
    by_user :
        (o : Option User)
        → (request_by setting e r o w).0 ≡ granted k
        → (user : User) × (o ≡ some user)
          × (is_enabled_device (find (λ d. d.id == r.device_id) r.devices) ≡ true)
          × IsAllowed setting e r user w (request_by setting e r o w) k
    by_user none h = cc
    by_user (some user) h =
        let (on, allowed) = request_by-IsAllowed setting e r user w h in (user, refl, on, allowed)
