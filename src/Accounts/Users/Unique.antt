-- ===== src/Accounts/Users/Unique.antt =====
-- Ids, user names and addresses are unique.
use retro_bridge.Prelude.{
  ℕ, ◌+◌, ◌≤◌, ◌≡◌, refl, inl, inr, Bool, true, false, not, ◌&&◌, Option, none, some, List, [], ◌∷◌,
  ◌++◌, arith, if◌then◌else◌, Bool-cases, Text, text_eq, text_eq→eq,
}
use retro_bridge.Model.{
  Account, count, count-append, count-update_where_le, count-update_where_same, find, update_where,
}
use retro_bridge.Accounts.Users.{
  Reply, RegisterRequest, UserForm, ProfileForm, has_id, has_username, has_email, other_than,
  exists_row, new_account, insert_new, register, create_user, edited, edit_found, edit_user,
  profiled, profile_found, profile, is_empty_text, redirected, registration_closed, form_shown,
  username_taken, email_taken, wrong_password, integrity_error,
}

pub record IsUnique (accounts : List Account) : Type 0 where
  pub ids : (k : ℕ) → count (has_id k) accounts ≤ 1
  pub usernames : (u : Text) → count (has_username u) accounts ≤ 1
  pub emails : (m : Text) → count (has_email m) accounts ≤ 1

-- A refusal keeps the table; so it is enough to look behind it.
guarded :
    (refused : Bool) (r : Reply) (accounts : List Account) (rest : Reply × List Account)
    → IsUnique accounts
    → (refused ≡ false → IsUnique rest.1)
    → IsUnique (if◌then◌else◌ {A = Reply × List Account} refused (r, accounts) rest).1
guarded true r accounts rest u h = u
guarded false r accounts rest u h = h refl

insert_new-IsUnique :
    (a : Account) (accounts : List Account)
    → count (has_id a.id) accounts ≡ 0
    → IsUnique accounts
    → IsUnique (insert_new a accounts).1
insert_new-IsUnique a accounts free u =
    elim (Bool-cases (exists_row (has_username a.username) accounts)) [
      | inl taken ↦ rw taken u
      | inr name ↦ elim (Bool-cases (exists_row (has_email a.email) accounts)) [
        | inl taken ↦ rw (name, taken) u
        | inr email ↦
            rw (name, email)
              record {
                ids = λ k. ground (arith, u.ids k, count-append (has_id k) accounts (a ∷ []));
                usernames = λ n.
                    more (has_username n) (u.usernames n)
                      (λ h. rw (text_eq→eq n a.username h) (ground arith));
                emails = λ m.
                    more (has_email m) (u.emails m)
                      (λ h. rw (text_eq→eq m a.email h) (ground arith));
              }
      ]
    ]
  where
    more :
        (p : Account → Bool)
        → count p accounts ≤ 1
        → (p a ≡ true → count p accounts ≡ 0)
        → count p (accounts ++ a ∷ []) ≤ 1
    more p one none_yet = elim (Bool-cases (p a)) [
      | inl y ↦ ground (arith, none_yet y, count-append p accounts (a ∷ []))
      | inr n ↦ ground (arith, count-append p accounts (a ∷ []))
    ]

-- An update of the row with one id adds that row at most to those that pass a test.
count-edit :
    (p : Account → Bool) (f : Account → Account) (k : ℕ) (accounts : List Account)
    → count p (update_where (has_id k) f accounts)
      ≤ count (other_than k p) accounts + count (has_id k) accounts
count-edit p f k [] = omega arith
count-edit p f k (a ∷ accounts) = ground (arith, count-edit p f k accounts)

-- A key that the changed row alone has is unique, and so is one that it does not have.
edit_unique :
    (key : Text → Account → Bool) (f : Account → Account) (new : Text) (k : ℕ)
    (accounts : List Account)
    → ((t : Text) (a : Account) → key t (f a) ≡ text_eq t new)
    → count (has_id k) accounts ≤ 1
    → exists_row (other_than k (key new)) accounts ≡ false
    → ((t : Text) → count (key t) accounts ≤ 1)
    → (t : Text) → count (key t) (update_where (has_id k) f accounts) ≤ 1
edit_unique key f new k accounts is_new one free u t = elim (Bool-cases (text_eq t new)) [
  | inl y ↦
      let added = count-edit (key new) f k accounts in
      let nobody : count (other_than k (key new)) accounts ≡ 0 = ground arith in
      rw (text_eq→eq t new y) (omega (arith, added, nobody))
  | inr n ↦ omega (
    arith,
    u t,
    count-update_where_le (key t) (has_id k) f accounts (λ a _ h. ground (arith, is_new t a)),
  )
]

same_ids :
    (f : Account → Account) (k : ℕ) (accounts : List Account)
    → ((a : Account) → (f a).id ≡ a.id)
    → ((i : ℕ) → count (has_id i) accounts ≤ 1)
    → (i : ℕ) → count (has_id i) (update_where (has_id k) f accounts) ≤ 1
same_ids f k accounts h u i = omega (
  arith,
  u i,
  count-update_where_same (has_id i) (has_id k) f accounts (λ a _. ground (arith, h a)),
)

module _ (hash : Text → Text) (check : Text → Text → Bool) where
  edit_found-IsUnique :
      (f : UserForm) (o : Option Account) (accounts : List Account)
      → IsUnique accounts
      → IsUnique (edit_found hash check f o accounts).1
  edit_found-IsUnique f none accounts u = u
  edit_found-IsUnique f (some a) accounts u = guarded (not f.is_valid) form_shown accounts _ u (λ _.
      guarded (exists_row (other_than a.id (has_username f.username)) accounts) username_taken
        accounts _ u
        (λ g.
          guarded (exists_row (other_than a.id (has_email f.email)) accounts) email_taken accounts _
            u
            (λ h. record {
              ids = same_ids (edited hash check f) a.id accounts (λ x. refl) u.ids;
              usernames =
                  edit_unique has_username (edited hash check f) f.username a.id accounts
                    (λ t x. refl) (u.ids a.id) g u.usernames;
              emails =
                  edit_unique has_email (edited hash check f) f.email a.id accounts (λ t x. refl)
                    (u.ids a.id) h u.emails;
            })))

  profile_found-IsUnique :
      (f : ProfileForm) (o : Option Account) (accounts : List Account)
      → IsUnique accounts
      → IsUnique (profile_found hash check f o accounts).1
  profile_found-IsUnique f none accounts u = u
  profile_found-IsUnique f (some a) accounts u =
      guarded (not f.is_valid) form_shown accounts _ u (λ _.
        guarded
          (not (is_empty_text f.new_password) && not (check a.password_hash f.current_password))
          wrong_password accounts _ u
          (λ _.
            guarded (exists_row (other_than a.id (has_email f.email)) accounts) integrity_error
              accounts _ u
              (λ h. record {
                ids = same_ids (profiled hash check f) a.id accounts (λ x. refl) u.ids;
                usernames = λ t. omega (
                  arith,
                  u.usernames t,
                  count-update_where_same (has_username t) (has_id a.id) (profiled hash check f)
                      accounts (λ x _. refl),
                );
                emails =
                    edit_unique has_email (profiled hash check f) f.email a.id accounts
                      (λ t x. refl) (u.ids a.id) h u.emails;
              })))

  -- What the web workers do to the accounts. A new row's id is free.
  pub data Change : List Account → List Account → Type 0 where
    registers :
        {accounts : List Account} (r : RegisterRequest)
        → count (has_id r.new_id) accounts ≡ 0
        → Change accounts (register hash check r accounts).1
    creates :
        {accounts : List Account} (new_id now : ℕ) (f : UserForm)
        → count (has_id new_id) accounts ≡ 0
        → Change accounts (create_user hash check new_id now f accounts).1
    edits :
        {accounts : List Account} (k : ℕ) (f : UserForm)
        → Change accounts (edit_user hash check k f accounts).1
    profiles :
        {accounts : List Account} (k : ℕ) (f : ProfileForm)
        → Change accounts (profile hash check k f accounts).1

  pub data Changes : List Account → List Account → Type 0 where
    unchanged : {a : List Account} → Changes a a
    then_ : {a b c : List Account} → Changes a b → Change b c → Changes a c

  Change-IsUnique : {a b : List Account} → Change a b → IsUnique a → IsUnique b
  unfolding register create_user edit_user profile
  Change-IsUnique {a = accounts} (registers r free) u =
      guarded r.is_authenticated redirected accounts _ u (λ _.
        guarded (not r.registration_open) registration_closed accounts _ u (λ _.
          guarded (not r.is_valid_form) form_shown accounts _ u (λ _.
            insert_new-IsUnique
              (new_account r.new_id r.now r.username r.email (hash r.password) r.full_name) accounts
              free u)))
  Change-IsUnique {a = accounts} (creates new_id now f free) u =
      guarded (not f.is_valid) form_shown accounts _ u (λ _.
        insert_new-IsUnique
          (record (new_account new_id now f.username f.email (hash f.password) f.full_name) {
            is_admin = f.is_admin;
            max_queued_jobs = f.max_queued_jobs;
            max_terminal_sessions = f.max_terminal_sessions;
          })
          accounts free u)
  Change-IsUnique {a = accounts} (edits k f) u =
      edit_found-IsUnique f (find (has_id k) accounts) accounts u
  Change-IsUnique {a = accounts} (profiles k f) u =
      profile_found-IsUnique f (find (has_id k) accounts) accounts u

  -- However users register and change their profiles, and admins create and edit accounts: no two
  -- accounts ever have the same id, the same user name or the same address.
  pub Changes-IsUnique : {a b : List Account} → Changes a b → IsUnique a → IsUnique b
  Changes-IsUnique unchanged u = u
  Changes-IsUnique (then_ cs c) u = Change-IsUnique c (Changes-IsUnique cs u)
