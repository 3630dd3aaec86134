-- ===== src/Terminal/Leases/Recovery.antt =====
-- What becomes of the sessions whose leases ran out.
use retro_bridge.Prelude.{
  ℕ, ◌≡◌, inl, inr, refl, sym, ap, ◌∙◌, Bool, true, false, not, ◌&&◌, ◌||◌, some, List, [], ◌∷◌,
  ◌==◌, if◌then◌else◌, arith, Bool-cases,
}
use retro_bridge.Model.{count, update_where, delete_where}
use retro_bridge.Terminal.Leases.{
  TerminalSession, PortLease, Db, lease_expired, is_active, has_session_id, get_session,
  is_for_session, is_expired, disconnect, recover_sessions, recover_stale_leases,
}

module _ (is_local : ℕ → Bool) (now : ℕ) where
  -- A lease of the session that has expired, with no bridge here.
  abbrev pub is_lost : ℕ → PortLease → Bool
  is_lost k l = is_for_session k l && (is_expired now l && not (is_local k))

  abbrev pub settled : List PortLease → TerminalSession → TerminalSession
  settled leases s =
      if is_active s.status && not (count (is_lost s.id) leases == 0)
      then disconnect now lease_expired s
      else s

  get_session-update :
      (k : ℕ) (p : TerminalSession → Bool) (sessions : List TerminalSession) {s : TerminalSession}
      → get_session k sessions ≡ some s
      → get_session k (update_where p (disconnect now lease_expired) sessions)
        ≡ some (if p s then disconnect now lease_expired s else s)
  get_session-update k p [] h = cc
  get_session-update k p (x ∷ sessions) {s} h =
      ground (arith, get_session-update k p sessions {s = s})

  get_session-id :
      (k : ℕ) (sessions : List TerminalSession) {s : TerminalSession}
      → get_session k sessions ≡ some s
      → s.id ≡ k
  get_session-id k [] h = cc
  get_session-id k (x ∷ sessions) {s} h = ground (arith, get_session-id k sessions {s = s})

  abbrev gone : PortLease → TerminalSession → Bool
  gone l s = has_session_id l.session_id s && is_active s.status

  settled-skipped :
      (l : PortLease) (ls : List PortLease) (s : TerminalSession)
      → not (is_expired now l) || is_local l.session_id ≡ true
      → settled (l ∷ ls) s ≡ settled ls s
  settled-skipped l ls s e = ground arith

  settled-lost :
      (l : PortLease) (ls : List PortLease) (s : TerminalSession)
      → not (is_expired now l) || is_local l.session_id ≡ false
      → settled (l ∷ ls) s ≡ settled ls (if gone l s then disconnect now lease_expired s else s)
  settled-lost l ls s e = ground arith

  none_expired :
      (ls : List PortLease) → count (is_expired now) (delete_where (is_expired now) ls) ≡ 0
  none_expired [] = refl
  none_expired (l ∷ ls) = ground (arith, none_expired ls)

  recover_sessions-settled :
      (k : ℕ) (ls : List PortLease) (sessions : List TerminalSession) {s : TerminalSession}
      → get_session k sessions ≡ some s
      → get_session k (recover_sessions is_local now ls sessions) ≡ some (settled ls s)
  unfolding recover_sessions
  recover_sessions-settled k [] sessions {s} h = ground arith
  recover_sessions-settled k (l ∷ ls) sessions {s} h =
      elim (Bool-cases (not (is_expired now l) || is_local l.session_id)) [
        | inl e ↦
            rw e
              (recover_sessions-settled k ls sessions h ∙ ap some (sym (settled-skipped l ls s e)))
        | inr e ↦ rw e (
            recover_sessions-settled k ls
              (update_where (gone l) (disconnect now lease_expired) sessions)
              (get_session-update k (gone l) sessions h)
            ∙ ap some (sym (settled-lost l ls s e)))
      ]

  -- Every lease that has expired is deleted; and a session is disconnected with its time and duration if
  -- it was active, one of its leases has expired and this process has no bridge for it, and stays as
  -- it was otherwise.
  pub recover_stale_leases-settled :
      (k : ℕ) (db : Db) {s : TerminalSession}
      → get_session k db.sessions ≡ some s
      → (count (is_expired now) (recover_stale_leases is_local now db).leases ≡ 0)
        × (get_session k (recover_stale_leases is_local now db).sessions
            ≡ some (settled db.leases s))
  unfolding recover_stale_leases
  recover_stale_leases-settled k db h =
      (none_expired db.leases, recover_sessions-settled k db.leases db.sessions h)
