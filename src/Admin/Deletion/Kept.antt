-- ===== src/Admin/Deletion/Kept.antt =====
-- The references that stay name rows that stay.
use retro_bridge.Prelude.{
  ℕ, ◌≡◌, ◌≢◌, refl, Bool, true, false, ◌&&◌, ◌||◌, Option, none, some, List, [], ◌∷◌, ◌==◌, arith,
  if◌then◌else◌, All,
}
use mathlib.Core.Path.{subst}
use retro_bridge.Model.{Account, Device, DevicePort, count, delete_where}
use retro_bridge.Terminal.Leases.{PortLease}
use retro_bridge.Admin.Tables.{
  Tables, IsConsistent, HasPort, is_account, is_device, is_port, is_session, count-delete_kept,
  All-delete,
}
use retro_bridge.Admin.Deletion.{
  Target, the_account, the_device, the_port, takes_account, takes_device, takes_port, takes_port_id,
  owns, takes_its_port, takes_job, takes_session, takes_lease, is_orphaned, without, delete,
}

kept {ℓ} :
    {A : Type ℓ} (q p : A → Bool) (xs : List A)
    → count (λ x. q x && p x) xs ≡ 0
    → count q xs ≢ 0
    → count q (delete_where p xs) ≢ 0
kept q p xs none_taken h e = h (omega (arith, count-delete_kept q p xs none_taken))

count-none {ℓ} :
    {A : Type ℓ} (p : A → Bool) (xs : List A) → ((x : A) → p x ≡ false) → count p xs ≡ 0
count-none p [] h = omega arith
count-none p (x ∷ xs) h = ground (arith, h x, count-none p xs h)

other_account :
    (x : Target) (u d : ℕ)
    → owns x u d ≡ false
    → (a : Account) → (is_account u a && takes_account x a) ≡ false
other_account (the_account k) u d h a = ground arith
other_account (the_device k) u d h a = ground arith
other_account (the_port k) u d h a = ground arith

other_device :
    (x : Target) (u d : ℕ)
    → owns x u d ≡ false
    → (e : Device) → (is_device d e && takes_device x e) ≡ false
other_device (the_account k) u d h e = ground arith
other_device (the_device k) u d h e = ground arith
other_device (the_port k) u d h e = ground arith

ports_device :
    (x : Target) (p : DevicePort)
    → takes_port x p ≡ false
    → (e : Device) → (is_device p.device_id e && takes_device x e) ≡ false
ports_device (the_account k) p h e = ground arith
ports_device (the_device k) p h e = ground arith
ports_device (the_port k) p h e = ground arith

port_stays :
    (x : Target) (ports : List DevicePort) (k : ℕ)
    → takes_port_id x ports k ≡ false
    → count (is_port k) ports ≢ 0
    → count (is_port k) (delete_where (takes_port x) ports) ≢ 0
port_stays x ports k h = kept (is_port k) (takes_port x) ports (ground arith)

its_port_stays :
    (x : Target) (ports : List DevicePort) (o : Option ℕ)
    → takes_its_port x ports o ≡ false
    → HasPort o ports
    → HasPort o (delete_where (takes_port x) ports)
its_port_stays x ports none h g = tt
its_port_stays x ports (some k) h g = port_stays x ports k h g

or_first : (a b : Bool) → (a || b) ≡ false → a ≡ false
or_first true b h = h
or_first false b h = refl

or_second : (a b : Bool) → (a || b) ≡ false → b ≡ false
or_second true b h = ground arith
or_second false b h = h

accounts_stay :
    (x : Target) (t : Tables) (u d : ℕ)
    → owns x u d ≡ false
    → count (is_account u) t.accounts ≢ 0
    → count (is_account u) (without x t).accounts ≢ 0
accounts_stay x t u d h =
    kept (is_account u) (takes_account x) t.accounts
      (count-none (λ a. is_account u a && takes_account x a) t.accounts (other_account x u d h))

devices_stay :
    (x : Target) (t : Tables) (u d : ℕ)
    → owns x u d ≡ false
    → count (is_device d) t.devices ≢ 0
    → count (is_device d) (without x t).devices ≢ 0
devices_stay x t u d h =
    kept (is_device d) (takes_device x) t.devices
      (count-none (λ e. is_device d e && takes_device x e) t.devices (other_device x u d h))

none_orphaned :
    (x : Target) (t : Tables) (leases : List PortLease)
    → count (is_orphaned x t) leases ≡ 0
    → All (λ l. is_orphaned x t l ≡ false) leases
none_orphaned x t [] h = tt
none_orphaned x t (l ∷ leases) h = (ground arith, none_orphaned x t leases (ground arith))

both {ℓ κ μ} :
    {A : Type ℓ} (P : A → Type κ) (Q : A → Type μ) (xs : List A)
    → All P xs
    → All Q xs
    → All (λ x. P x × Q x) xs
both P Q [] p q = tt
both P Q (x ∷ xs) p q = ((p.0, q.0), both P Q xs p.1 q.1)

without-IsConsistent :
    (x : Target) (t : Tables)
    → count (is_orphaned x t) t.leases ≡ 0
    → IsConsistent t
    → IsConsistent (without x t)
without-IsConsistent x t free c = record {
  port_device =
      All-delete _ _ (takes_port x) t.ports
        (λ p h g.
          kept (is_device p.device_id) (takes_device x) t.devices
            (count-none (λ e. is_device p.device_id e && takes_device x e) t.devices
              (ports_device x p h))
            g)
        c.port_device;
  job_user =
      All-delete _ _ (takes_job x t.ports) t.jobs
        (λ j h. accounts_stay x t j.user_id j.device_id (or_first _ _ h)) c.job_user;
  job_device =
      All-delete _ _ (takes_job x t.ports) t.jobs
        (λ j h. devices_stay x t j.user_id j.device_id (or_first _ _ h)) c.job_device;
  job_port =
      All-delete _ _ (takes_job x t.ports) t.jobs
        (λ j h. its_port_stays x t.ports j.port_id (or_second (owns x j.user_id j.device_id) _ h))
        c.job_port;
  session_user =
      All-delete _ _ (takes_session x t.ports) t.sessions
        (λ s h. accounts_stay x t s.user_id s.device_id (or_first _ _ h)) c.session_user;
  session_device =
      All-delete _ _ (takes_session x t.ports) t.sessions
        (λ s h. devices_stay x t s.user_id s.device_id (or_first _ _ h)) c.session_device;
  session_port =
      All-delete _ _ (takes_session x t.ports) t.sessions
        (λ s h. port_stays x t.ports s.port_id (or_second (owns x s.user_id s.device_id) _ h))
        c.session_port;
  lease_port =
      All-delete _ _ (takes_lease x t.ports) t.leases (λ l h. port_stays x t.ports l.port_id h)
        c.lease_port;
  lease_session =
      All-delete _ _ (takes_lease x t.ports) t.leases
        (λ l h g.
          kept (is_session l.session_id) (takes_session x t.ports) t.sessions (session_free l h g.1)
            g.0)
        (both _ _ t.leases c.lease_session (none_orphaned x t t.leases free));
}
  where
    session_free :
        (l : PortLease)
        → takes_lease x t.ports l ≡ false
        → is_orphaned x t l ≡ false
        → count (λ s. is_session l.session_id s && takes_session x t.ports s) t.sessions ≡ 0
    session_free l h g = ground (arith, h, g)

some_eq : (a b : Tables) → some a ≡ some b → a ≡ b
some_eq a b e = cc

pub delete-IsConsistent :
    (x : Target) (t t' : Tables) → delete x t ≡ some t' → IsConsistent t → IsConsistent t'
unfolding delete
delete-IsConsistent x t t' h c = by_count (count (is_orphaned x t) t.leases == 0) refl h
  where
    by_count :
        (b : Bool)
        → (count (is_orphaned x t) t.leases == 0) ≡ b
        → (if◌then◌else◌ {A = Option Tables} b (some (without x t)) none) ≡ some t'
        → IsConsistent t'
    by_count true e g =
        subst IsConsistent (some_eq (without x t) t' g) (without-IsConsistent x t (ground arith) c)
    by_count false e g = absurd cc
