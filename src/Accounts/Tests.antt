-- ===== src/Accounts/Tests.antt =====
-- Two users, who log in and change their profiles.
use retro_bridge.Prelude.{
  ℕ, ◌*◌, ◌≡◌, ◌≢◌, refl, Bool, true, false, none, some, List, [], ◌∷◌, ◌++◌, arith, Text, codes,
  text_eq, second,
}
use retro_bridge.Model.{Account, count}
use retro_bridge.Accounts.Throttle.{is_throttled, clear_failed_attempts}
use retro_bridge.Accounts.Throttle.Bound.{IsBounded}
use retro_bridge.Accounts.Login.{Request, State, logged_in, page, is_safe_redirect_url, login}
use retro_bridge.Accounts.Login.Laws.{log_in_all, log_in_all-IsBounded, IsGranted, login-IsGranted}
use retro_bridge.Accounts.Patreon.{
  Callback, Reply, linked, invalid_state, patreon_callback, get_valid_token,
}
use retro_bridge.Accounts.Patreon
use retro_bridge.Accounts.Patreon.Laws.{IsLinked, patreon_callback-IsLinked}
use retro_bridge.Accounts.Users.{
  RegisterRequest, ProfileForm, new_account, has_id, register, profile, integrity_error,
}
use retro_bridge.Accounts.Users.Unique.{
  IsUnique, unchanged, then_, registers, profiles, Changes-IsUnique,
}

abbrev hash : Text → Text
hash password = codes "h:" ++ password

abbrev check : Text → Text → Bool
check stored password = text_eq stored (hash password)

abbrev parse : Text → Text × Text
parse url = (codes "http", url)

abbrev join : Text → Text → Text
join base url = base ++ url

abbrev sync : Account → Account
sync a = a

abbrev ada : Account
ada = new_account 1 0 (codes "ada") (codes "a@b.c") (hash (codes "pass")) none

abbrev bob : Account
bob = new_account 2 0 (codes "bob") (codes "b@b.c") (hash (codes "word")) none

abbrev request : Text → ℕ → Request
request password now = record {
  is_authenticated = false;
  client_ip = some (codes "10.0.0.1");
  is_valid_form = true;
  username = codes "ada";
  password = password;
  next_page = some (codes "/jobs");
  now = now * second;
}

abbrev state : State
state = record { accounts = ada ∷ bob ∷ []; attempts = [] }

abbrev guess : ℕ → Request
guess = request (codes "wrong")

abbrev guesses : List Request
guesses = guess 1 ∷ guess 2 ∷ guess 3 ∷ guess 4 ∷ guess 5 ∷ guess 6 ∷ request (codes "pass") 7 ∷ []

log_in_all-IsBounded_example :
    IsBounded (log_in_all parse join (codes "http://h/") check sync guesses state).attempts
log_in_all-IsBounded_example =
    log_in_all-IsBounded parse join (codes "http://h/") check sync guesses state
      (λ u t. ground arith)

is_logged_in :
    (login parse join (codes "http://h/") check sync (request (codes "pass") 9) state).0
    ≡ logged_in 1 true (page (codes "/jobs"))
unfolding login is_safe_redirect_url is_throttled clear_failed_attempts
is_logged_in = refl

login-IsGranted_example :
    (a : Account) × IsGranted parse join
      (codes "http://h/")
      check
      sync
      (request (codes "pass") 9)
      state
      1
      a
login-IsGranted_example =
    login-IsGranted parse join (codes "http://h/") check sync (request (codes "pass") 9) state
      is_logged_in

abbrev form : Text → ProfileForm
form email = record {
  is_valid = true;
  email = email;
  full_name = none;
  bio = none;
  email_notify_jobs = true;
  email_notify_security = true;
  preferences = [];
  current_password = [];
  new_password = [];
}

abbrev registration : ℕ → Text → Text → RegisterRequest
registration id username email = record {
  is_authenticated = false;
  registration_open = true;
  is_valid_form = true;
  username = username;
  email = email;
  password = codes "secret";
  full_name = none;
  new_id = id;
  now = 5;
}

nobody-IsUnique : IsUnique []
nobody-IsUnique = record {
  ids = λ k. omega arith;
  usernames = λ u. omega arith;
  emails = λ m. omega arith;
}

-- Bob asks for Ada's address: the commit raises.
profile-taken : (profile hash check 2 (form (codes "a@b.c")) state.accounts).0 ≡ integrity_error
unfolding profile
profile-taken = refl

abbrev one : List Account
one = (register hash check (registration 1 (codes "ada") (codes "a@b.c")) []).1

abbrev two : List Account
two = (register hash check (registration 2 (codes "bob") (codes "b@b.c")) one).1

one-free : count (has_id 2) one ≡ 0
unfolding register
one-free = refl

Changes-IsUnique_example : IsUnique (profile hash check 2 (form (codes "c@b.c")) two).1
Changes-IsUnique_example =
    Changes-IsUnique hash check
      (then_
        (then_ (then_ unchanged (registers (registration 1 (codes "ada") (codes "a@b.c")) refl))
          (registers (registration 2 (codes "bob") (codes "b@b.c")) one-free))
        (profiles 2 (form (codes "c@b.c"))))
      nobody-IsUnique

abbrev callback : Text → Callback
callback state = record {
  code = some (codes "c");
  state = some state;
  error = none;
  tokens = some (record { access_token = codes "t"; refresh_token = codes "r"; expires_in = 3600 });
  identity = some (codes "42");
  is_taken = false;
  tier = some (codes "Gold");
  now = 0;
}

abbrev sent_away : Patreon.State
sent_away = record { account = ada; oauth_state = some (codes "xyz") }

forged : (patreon_callback (callback (codes "abc")) sent_away).0 ≡ invalid_state
unfolding patreon_callback
forged = refl

genuine : (patreon_callback (callback (codes "xyz")) sent_away).0 ≡ linked
unfolding patreon_callback
genuine = refl

patreon_callback-IsLinked_example :
    IsLinked
      (callback (codes "xyz"))
      sent_away
      (patreon_callback (callback (codes "xyz")) sent_away).1
    × ((patreon_callback
          (callback (codes "xyz"))
          (patreon_callback (callback (codes "xyz")) sent_away).1).0
        ≢ linked)
patreon_callback-IsLinked_example =
    patreon_callback-IsLinked (callback (codes "xyz")) (callback (codes "xyz")) sent_away genuine
