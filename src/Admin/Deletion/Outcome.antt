-- ===== src/Admin/Deletion/Outcome.antt =====
-- What deleting an account leaves, and when it fails.
use retro_bridge.Prelude.{
  ℕ, ◌≡◌, refl, ap, Bool, true, false, not, ◌&&◌, ◌||◌, Option, none, some, List, [], ◌∷◌, ◌==◌,
  arith, if◌then◌else◌, Bool-cases, inl, inr,
}
use retro_bridge.Model.{Account, Job, DevicePort, count, find, filter, delete_where, find-holds}
use retro_bridge.Terminal.Leases.{TerminalSession, PortLease}
use retro_bridge.Admin.Tables.{Tables, is_account, is_port, is_session}
use retro_bridge.Admin.Deletion.{
  the_account, Directory, takes_port, takes_port_id, takes_its_port, takes_job, takes_session,
  takes_lease, is_orphaned, without, delete, Reply, deleted, integrity_error, own_account,
  redirected, user_directories, committed, delete_found, delete_user,
}

abbrev pub is_job_of : ℕ → Job → Bool
is_job_of k j = j.user_id == k

abbrev pub is_session_of : ℕ → TerminalSession → Bool
is_session_of k s = s.user_id == k

-- The lease names a session of the user.
abbrev pub is_lease_of : ℕ → List TerminalSession → PortLease → Bool
is_lease_of k sessions l =
    not (count (λ s. is_session l.session_id s && is_session_of k s) sessions == 0)

-- The tables without the rows of a user.
abbrev pub without_user : ℕ → Tables → Tables
without_user k t = record t {
  accounts = filter (λ a. not (is_account k a)) t.accounts;
  jobs = filter (λ j. not (is_job_of k j)) t.jobs;
  sessions = filter (λ s. not (is_session_of k s)) t.sessions;
}

delete_where-filter {ℓ} :
    {A : Type ℓ} (p q : A → Bool) (xs : List A)
    → ((x : A) → p x ≡ q x)
    → delete_where p xs ≡ filter (λ x. not (q x)) xs
delete_where-filter p q [] h = refl
delete_where-filter p q (x ∷ xs) h = elim (Bool-cases (q x)) [
  | inl e ↦ rw (h x, e) (delete_where-filter p q xs h)
  | inr e ↦ rw (h x, e) (ap (λ ys. x ∷ ys) (delete_where-filter p q xs h))
]

delete_where-never {ℓ} :
    {A : Type ℓ} (p : A → Bool) (xs : List A) → ((x : A) → p x ≡ false) → delete_where p xs ≡ xs
delete_where-never p [] h = refl
delete_where-never p (x ∷ xs) h = rw (h x) (ap (λ ys. x ∷ ys) (delete_where-never p xs h))

count-eq {ℓ} :
    {A : Type ℓ} (p q : A → Bool) (xs : List A) → ((x : A) → p x ≡ q x) → count p xs ≡ count q xs
count-eq p q [] h = refl
count-eq p q (x ∷ xs) h = ground (arith, h x, count-eq p q xs h)

no_ports :
    (k i : ℕ) (ports : List DevicePort)
    → count (λ p. is_port i p && takes_port (the_account k) p) ports ≡ 0
no_ports k i [] = refl
no_ports k i (p ∷ ports) = ground (arith, no_ports k i ports)

no_port_id :
    (k : ℕ) (ports : List DevicePort) (i : ℕ) → takes_port_id (the_account k) ports i ≡ false
no_port_id k ports i = ground (arith, no_ports k i ports)

same_job :
    (k : ℕ) (ports : List DevicePort) (j : Job) → takes_job (the_account k) ports j ≡ is_job_of k j
same_job k ports j = by_port j.port_id
  where
    by_port :
        (o : Option ℕ)
        → ((j.user_id == k) || takes_its_port (the_account k) ports o) ≡ is_job_of k j
    by_port none = ground arith
    by_port (some i) = ground (arith, no_port_id k ports i)

same_session :
    (k : ℕ) (ports : List DevicePort) (s : TerminalSession)
    → takes_session (the_account k) ports s ≡ is_session_of k s
same_session k ports s = ground (arith, no_port_id k ports s.port_id)

same_orphan :
    (k : ℕ) (t : Tables) (l : PortLease)
    → is_orphaned (the_account k) t l ≡ is_lease_of k t.sessions l
same_orphan k t l = ground (
  arith,
  no_port_id k t.ports l.port_id,
  count-eq (λ s. is_session l.session_id s && takes_session (the_account k) t.ports s)
      (λ s. is_session l.session_id s && is_session_of k s) t.sessions
      (λ s. ground (arith, same_session k t.ports s)),
)

same_tables : (k : ℕ) (t : Tables) → without (the_account k) t ≡ without_user k t
same_tables k t =
    rw
      (
        delete_where-filter (is_account k) (is_account k) t.accounts (λ a. refl),
        delete_where-never (takes_port (the_account k)) t.ports (λ p. refl),
        delete_where-never (λ d. false) t.devices (λ d. refl),
        delete_where-filter (takes_job (the_account k) t.ports) (is_job_of k) t.jobs
            (same_job k t.ports),
        delete_where-filter (takes_session (the_account k) t.ports) (is_session_of k) t.sessions
            (same_session k t.ports),
        delete_where-never (takes_lease (the_account k) t.ports) t.leases
            (λ l. no_port_id k t.ports l.port_id),
      )
      refl

-- What deleting a user is to do, in the words of the tables.
abbrev pub deletion : ℕ → Tables → Reply × (Tables × List Directory)
deletion k t =
    if count (is_lease_of k t.sessions) t.leases == 0
    then (
      deleted,
      (
        without_user k t,
        user_directories (filter (is_job_of k) t.jobs) (filter (is_session_of k) t.sessions),
      ),
    )
    else (integrity_error, (t, []))

committed-deletion :
    (k : ℕ) (t : Tables)
    → committed deleted
        (delete (the_account k) t)
        t
        (user_directories (filter (is_job_of k) t.jobs) (filter (is_session_of k) t.sessions))
      ≡ deletion k t
unfolding delete
committed-deletion k t = elim (Bool-cases (count (is_lease_of k t.sessions) t.leases == 0)) [
  | inl e ↦ rw (same, e) rw (same_tables k t) refl
  | inr e ↦ rw (same, e) refl
]
  where
    same :
        count (is_orphaned (the_account k) t) t.leases ≡ count (is_lease_of k t.sessions) t.leases
    same =
        count-eq (is_orphaned (the_account k) t) (is_lease_of k t.sessions) t.leases
          (same_orphan k t)

delete_found-deletion :
    (r : Reply) (k : ℕ) (o : Option Account) (t : Tables)
    → find (is_account k) t.accounts ≡ o
    → delete_found r o t ≡ (elim o [ none ↦ (r, (t, [])) | some a ↦ deletion k t ])
delete_found-deletion r k none t h = refl
delete_found-deletion r k (some a) t h =
    rw (same_id a.id (find-holds (is_account k) t.accounts h)) (committed-deletion k t)
  where
    same_id : (i : ℕ) → (i == k) ≡ true → i ≡ k
    same_id i g = ground arith

-- Deleting another user removes the account, that user's jobs and sessions and their directories,
-- and nothing else. A session of the user that still has a lease makes it fail, and then the tables and
-- the disk are as before. A user cannot delete the account in use on this page.
pub delete_user-deletion :
    (current k : ℕ) (t : Tables)
    → delete_user current k t ≡ (
        if k == current then (own_account, (t, [])) else elim (find (is_account k) t.accounts) [
          | none ↦ (redirected, (t, []))
          | some a ↦ deletion k t
        ])
unfolding delete_user
delete_user-deletion current k t = elim (Bool-cases (k == current)) [
  | inl e ↦ rw e refl
  | inr e ↦ rw e (delete_found-deletion redirected k (find (is_account k) t.accounts) t refl)
]
