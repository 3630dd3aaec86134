-- ===== src/Admin/Tables.antt =====
-- The tables that refer to one another, and what the references ask.
use retro_bridge.Prelude.{
  ℕ, ◌≡◌, ◌≢◌, inl, inr, Bool, false, ◌&&◌, Option, none, some, List, [], ◌∷◌, ◌==◌, arith, All,
  Bool-cases,
}
use retro_bridge.Model.{Job, Device, DevicePort, Account, count, delete_where}
use retro_bridge.Terminal.Leases.{TerminalSession, PortLease}

pub record Tables : Type 0 where
  pub accounts : List Account
  pub devices : List Device
  pub ports : List DevicePort
  pub jobs : List Job
  pub sessions : List TerminalSession
  pub leases : List PortLease

abbrev pub is_account : ℕ → Account → Bool
is_account k a = a.id == k

abbrev pub is_device : ℕ → Device → Bool
is_device k d = d.id == k

abbrev pub is_port : ℕ → DevicePort → Bool
is_port k p = p.id == k

abbrev pub is_session : ℕ → TerminalSession → Bool
is_session k s = s.id == k

-- `port_id` of a job may be NULL.
abbrev pub HasPort : Option ℕ → List DevicePort → Type 0
HasPort none ports = Unit
HasPort (some k) ports = count (is_port k) ports ≢ 0

-- The foreign keys: each names a row.
pub record IsConsistent (t : Tables) : Type 0 where
  pub port_device : All (λ p. count (is_device p.device_id) t.devices ≢ 0) t.ports
  pub job_user : All (λ j. count (is_account j.user_id) t.accounts ≢ 0) t.jobs
  pub job_device : All (λ j. count (is_device j.device_id) t.devices ≢ 0) t.jobs
  pub job_port : All (λ j. HasPort j.port_id t.ports) t.jobs
  pub session_user : All (λ s. count (is_account s.user_id) t.accounts ≢ 0) t.sessions
  pub session_device : All (λ s. count (is_device s.device_id) t.devices ≢ 0) t.sessions
  pub session_port : All (λ s. count (is_port s.port_id) t.ports ≢ 0) t.sessions
  pub lease_port : All (λ l. count (is_port l.port_id) t.ports ≢ 0) t.leases
  pub lease_session : All (λ l. count (is_session l.session_id) t.sessions ≢ 0) t.leases

module _ {ℓ} {A : Type ℓ} where
  -- Where none of the rows that pass a test is deleted, the test counts as many rows.
  pub count-delete_kept :
      (q p : A → Bool) (xs : List A)
      → count (λ x. q x && p x) xs ≡ 0
      → count q (delete_where p xs) ≡ count q xs
  count-delete_kept q p [] h = omega arith
  count-delete_kept q p (x ∷ xs) h = ground (arith, count-delete_kept q p xs)

  pub All-weaken {κ μ} :
      (P : A → Type κ) (Q : A → Type μ) (xs : List A) → ((x : A) → P x → Q x) → All P xs → All Q xs
  All-weaken P Q [] h a = tt
  All-weaken P Q (x ∷ xs) h a = (h x a.0, All-weaken P Q xs h a.1)

  -- What holds of all rows, and what holds of each row that stays.
  pub All-delete {κ μ} :
      (P : A → Type κ) (Q : A → Type μ) (p : A → Bool) (xs : List A)
      → ((x : A) → p x ≡ false → P x → Q x)
      → All P xs
      → All Q (delete_where p xs)
  All-delete P Q p [] h a = tt
  All-delete P Q p (x ∷ xs) h a = elim (Bool-cases (p x)) [
    | inl e ↦ rw e (All-delete P Q p xs h a.1)
    | inr e ↦ rw e (h x e a.0, All-delete P Q p xs h a.1)
  ]
