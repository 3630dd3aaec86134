-- ===== src/Terminal/Leases/Exclusive.antt =====
-- No two sessions hold one port.
use retro_bridge.Prelude.{
  ℕ, ◌+◌, ◌≤◌, ◌≡◌, ◌≢◌, refl, Bool, true, false, ◌&&◌, List, [], ◌∷◌, leb, arith, All, Text,
}
use retro_bridge.Model.{count, update_where, delete_where, count-append, count-le}
use retro_bridge.Terminal.Leases.{
  PortLease, Db, Reason, terminal_lease, is_for_session, is_for_port, is_expired,
  recover_stale_leases, acquire_port_lease, heartbeat_port_lease, release_port_lease, end_session,
}

-- What the workers do to the leases.
pub data Call : Type 0 where
  recovers : (ℕ → Bool) → ℕ → Call
  acquires : (ℕ → Bool) → Bool → Text → ℕ → ℕ → ℕ → Call
  beats : Bool → ℕ → ℕ → Call
  releases : Bool → ℕ → Call
  ends : ℕ → ℕ → Reason → Call

abbrev pub call : Call → Db → Db
call (recovers is_local now) db = recover_stale_leases is_local now db
call (acquires is_local fails worker now port_id session_id) db =
    (acquire_port_lease is_local fails worker now port_id session_id db).1
call (beats fails now session_id) db = heartbeat_port_lease fails now session_id db
call (releases fails session_id) db = release_port_lease fails session_id db
call (ends now session_id reason) db = end_session now session_id reason db

abbrev pub run_calls : List Call → Db → Db
run_calls [] db = db
run_calls (c ∷ cs) db = run_calls cs (call c db)

abbrev pub OnePerPort : Db → Type 0
OnePerPort db = (p : ℕ) → count (is_for_port p) db.leases ≤ 1

count-delete_where :
    (q p : PortLease → Bool) (ls : List PortLease) → count q (delete_where p ls) ≤ count q ls
count-delete_where q p [] = omega arith
count-delete_where q p (l ∷ ls) = ground (arith, count-delete_where q p ls)

count-beat :
    (q : PortLease → Bool) (p : PortLease → Bool) (f : PortLease → PortLease) (ls : List PortLease)
    → ((l : PortLease) → q (f l) ≡ q l)
    → count q (update_where p f ls) ≡ count q ls
count-beat q p f [] h = refl
count-beat q p f (l ∷ ls) h = ground (arith, h l, count-beat q p f ls h)

call-OnePerPort : (c : Call) (db : Db) → OnePerPort db → OnePerPort (call c db)
unfolding recover_stale_leases acquire_port_lease heartbeat_port_lease release_port_lease
    end_session
call-OnePerPort (recovers is_local now) db h p =
    omega (arith, h p, count-delete_where (is_for_port p) (is_expired now) db.leases)
call-OnePerPort (acquires is_local fails worker now port_id session_id) db h p =
    let left = delete_where (is_expired now) db.leases in
    ground (
      arith,
      h p,
      count-delete_where (is_for_port p) (is_expired now) db.leases,
      count-append (is_for_port p) left (
          record {
            port_id = port_id;
            session_id = session_id;
            claimed_by = worker;
            claimed_at = now;
            lease_expires_at = now + terminal_lease;
            heartbeat_at = now;
          }
          ∷ []),
    )
call-OnePerPort (beats true now session_id) db h p = h p
call-OnePerPort (beats false now session_id) db h p =
    rw
      (count-beat (is_for_port p) (is_for_session session_id)
        (λ l. record l { heartbeat_at = now; lease_expires_at = now + terminal_lease }) db.leases
        (λ l. refl))
      (h p)
call-OnePerPort (releases true session_id) db h p = h p
call-OnePerPort (releases false session_id) db h p =
    omega (arith, h p, count-delete_where (is_for_port p) (is_for_session session_id) db.leases)
call-OnePerPort (ends now session_id reason) db h p =
    omega (arith, h p, count-delete_where (is_for_port p) (is_for_session session_id) db.leases)

-- Whatever calls the workers make, in any order: a port that has one lease at most never has two.
pub run_calls-OnePerPort : (cs : List Call) (db : Db) → OnePerPort db → OnePerPort (run_calls cs db)
run_calls-OnePerPort [] db h = h
run_calls-OnePerPort (c ∷ cs) db h = run_calls-OnePerPort cs (call c db) (call-OnePerPort c db h)

module _ (port_id session_id since : ℕ) where
  abbrev until : ℕ
  until = since + terminal_lease

  -- A lease of the session on the port that is good until then.
  abbrev held : PortLease → Bool
  held l = is_for_port port_id l && (is_for_session session_id l && leb until l.lease_expires_at)

  -- The calls of the other sessions, and the session's own heartbeats, while the lease is good.
  abbrev pub IsWithin : Call → Type 0
  IsWithin (recovers is_local now) = now ≤ until
  IsWithin (acquires is_local fails worker now p s) = now ≤ until
  IsWithin (beats fails now s) = since ≤ now
  IsWithin (releases fails s) = s ≢ session_id
  IsWithin (ends now s reason) = s ≢ session_id

  held-delete_where :
      (p : PortLease → Bool) (ls : List PortLease)
      → ((l : PortLease) → held l ≡ true → p l ≡ false)
      → count held (delete_where p ls) ≡ count held ls
  held-delete_where p [] h = refl
  held-delete_where p (l ∷ ls) h = ground (arith, h l, held-delete_where p ls h)

  held-update_where :
      (p : PortLease → Bool) (f : PortLease → PortLease) (ls : List PortLease)
      → ((l : PortLease) → held l ≡ true → held (f l) ≡ true)
      → count held ls ≤ count held (update_where p f ls)
  held-update_where p f [] h = omega arith
  held-update_where p f (l ∷ ls) h = ground (arith, h l, held-update_where p f ls h)

  still_held :
      (c : Call) (db : Db)
      → IsWithin c
      → 1 ≤ count held db.leases
      → 1 ≤ count held (call c db).leases
  unfolding recover_stale_leases acquire_port_lease heartbeat_port_lease release_port_lease
      end_session
  still_held (recovers is_local now) db w h =
      rw (held-delete_where (is_expired now) db.leases (λ l e. ground arith)) h
  still_held (acquires is_local fails worker now p s) db w h =
      let left = delete_where (is_expired now) db.leases in
      let same = held-delete_where (is_expired now) db.leases (λ l e. ground arith) in
      ground (
        arith,
        same,
        count-append held left (
            record {
              port_id = p;
              session_id = s;
              claimed_by = worker;
              claimed_at = now;
              lease_expires_at = now + terminal_lease;
              heartbeat_at = now;
            }
            ∷ []),
      )
  still_held (beats true now s) db w h = h
  still_held (beats false now s) db w h = omega (
    arith,
    held-update_where (is_for_session s)
        (λ l. record l { heartbeat_at = now; lease_expires_at = now + terminal_lease }) db.leases
        (λ l e. ground arith),
  )
  still_held (releases true s) db w h = h
  still_held (releases false s) db w h =
      rw (held-delete_where (is_for_session s) db.leases (λ l e. ground arith)) h
  still_held (ends now s reason) db w h =
      rw (held-delete_where (is_for_session s) db.leases (λ l e. ground arith)) h

  run_held :
      (cs : List Call) (db : Db)
      → All IsWithin cs
      → 1 ≤ count held db.leases
      → 1 ≤ count held (run_calls cs db).leases
  run_held [] db w h = h
  run_held (c ∷ cs) db w h = run_held cs (call c db) w.1 (still_held c db w.0 h)

  acquired_held :
      (is_local : ℕ → Bool) (fails : Bool) (worker : Text) (db : Db)
      → (acquire_port_lease is_local fails worker since port_id session_id db).0 ≡ true
      → 1
        ≤ count held (acquire_port_lease is_local fails worker since port_id session_id db).1.leases
  unfolding acquire_port_lease recover_stale_leases
  acquired_held is_local fails worker db h =
      let left = delete_where (is_expired since) db.leases in
      ground (
        arith,
        count-append held left (
            record {
              port_id = port_id;
              session_id = session_id;
              claimed_by = worker;
              claimed_at = since;
              lease_expires_at = since + terminal_lease;
              heartbeat_at = since;
            }
            ∷ []),
      )

  refused_held :
      (is_local : ℕ → Bool) (fails : Bool) (worker : Text) (now s : ℕ) (db : Db)
      → now ≤ until
      → 1 ≤ count held db.leases
      → (acquire_port_lease is_local fails worker now port_id s db).0 ≡ false
  unfolding acquire_port_lease recover_stale_leases
  refused_held is_local fails worker now s db w h =
      let left = delete_where (is_expired now) db.leases in
      let same = held-delete_where (is_expired now) db.leases (λ l e. ground arith) in
      let more = count-le held (is_for_port port_id) left (λ l. ground arith) in ground arith

  -- Once a session has acquired a port, no one acquires it for the five minutes of the lease, whatever
  -- the workers do meanwhile, unless the session itself is ended or its lease released.
  pub acquire_port_lease-excludes :
      (is_local : ℕ → Bool) (fails : Bool) (worker : Text) (db : Db) (cs : List Call)
      (is_local' : ℕ → Bool) (fails' : Bool) (worker' : Text) (now s : ℕ)
      → (acquire_port_lease is_local fails worker since port_id session_id db).0 ≡ true
      → All IsWithin cs
      → now ≤ since + terminal_lease
      → let db' =
          run_calls cs (acquire_port_lease is_local fails worker since port_id session_id db).1 in
        (acquire_port_lease is_local' fails' worker' now port_id s db').0 ≡ false
  acquire_port_lease-excludes is_local fails worker db cs is_local' fails' worker' now s h w le =
      let db' = (acquire_port_lease is_local fails worker since port_id session_id db).1 in
      refused_held is_local' fails' worker' now s (run_calls cs db') le
        (run_held cs db' w (acquired_held is_local fails worker db h))
