-- ===== src/Admin/Settings.antt =====
-- The settings: SETTING_MAP, SETTING_REVERSE and `settings` of retrobridge/admin/routes.py, and
-- retrobridge/admin/settings_utils.py. The table is the list of its keys and values.
pub mod RoundTrip
use retro_bridge.Prelude.{
  ℕ, ◌+◌, ◌-◌, ◌*◌, ◌/◌, Bool, true, false, not, ◌&&◌, Option, none, some, List, [], ◌∷◌, ◌++◌,
  if◌then◌else◌, Text, codes, text_eq, one_of, lower, decimal, parse_int,
}

-- A Python integer: whether it is negative, and its size.
abbrev pub Signed : Type 0
Signed = Bool × ℕ

-- How a field is written to the table and read from it.
pub data Kind : Type 0 where
  megabytes number minutes boolean plain optional_number : Kind

-- What a field of a valid form holds.
abbrev pub Field : Kind → Type 0
Field megabytes = Signed
Field number = Signed
Field minutes = Signed
Field boolean = Bool
Field plain = Text
Field optional_number = Option Signed

pub record Entry : Type 0 where
  pub field : Text
  pub key : Text
  pub kind : Kind

abbrev entry : Text → Text → Kind → Entry
entry field key kind = record { field = field; key = key; kind = kind }

-- `SETTING_MAP`
unfoldable pub setting_map : List Entry
setting_map =
    entry (codes "max_upload_size_mb") (codes "MAX_UPLOAD_SIZE_BYTES") megabytes
    ∷ entry (codes "default_max_queued_jobs") (codes "DEFAULT_MAX_QUEUED_JOBS") number
    ∷ entry (codes "default_max_terminal_sessions") (codes "DEFAULT_MAX_TERMINAL_SESSIONS") number
    ∷ entry (codes "max_jobs_per_hour") (codes "MAX_JOBS_PER_HOUR") number
    ∷ entry (codes "max_terminal_session_minutes") (codes "MAX_TERMINAL_SESSION_SECONDS") minutes
    ∷ entry (codes "terminal_idle_timeout_minutes") (codes "TERMINAL_IDLE_TIMEOUT_SECONDS") minutes
    ∷ entry (codes "worker_poll_seconds") (codes "WORKER_POLL_SECONDS") number
    ∷ entry (codes "registration_open") (codes "REGISTRATION_OPEN") boolean
    ∷ entry (codes "maintenance_mode") (codes "MAINTENANCE_MODE") boolean
    ∷ entry (codes "terminal_session_log_enabled") (codes "TERMINAL_SESSION_LOG_ENABLED") boolean
    ∷ entry (codes "email_smtp_host") (codes "EMAIL_SMTP_HOST") plain
    ∷ entry (codes "email_smtp_port") (codes "EMAIL_SMTP_PORT") optional_number
    ∷ entry (codes "email_smtp_user") (codes "EMAIL_SMTP_USER") plain
    ∷ entry (codes "email_smtp_password") (codes "EMAIL_SMTP_PASSWORD") plain
    ∷ entry (codes "email_use_tls") (codes "EMAIL_USE_TLS") boolean
    ∷ entry (codes "email_from_address") (codes "EMAIL_FROM_ADDRESS") plain
    ∷ entry (codes "email_from_name") (codes "EMAIL_FROM_NAME") plain
    ∷ []

-- `str(n)`
abbrev pub str_int : Signed → Text
str_int (false, n) = decimal n
str_int (true, n) = b'-' ∷ decimal n

abbrev pub times : ℕ → Signed → Signed
times k (minus, n) = (minus, n * k)

-- `n // k`, which rounds down.
abbrev pub floor_div : ℕ → Signed → Signed
floor_div k (false, n) = (false, n / k)
floor_div k (true, n) = (true, ((n + k) - 1) / k)

abbrev pub format : (kind : Kind) → Field kind → Text
format megabytes n = str_int (times 1048576 n)
format number n = str_int n
format minutes n = str_int (times 60 n)
format boolean b = if b then codes "1" else codes "0"
format plain s = s
format optional_number none = codes "None"
format optional_number (some n) = str_int n

abbrev pub or_zero : Option Signed → Signed
or_zero none = (false, 0)
or_zero (some n) = n

-- `_safe_int` with 0 for what is not a number
abbrev pub safe_int : Text → Signed
safe_int v = or_zero (parse_int v)

-- `_safe_bool`
unfoldable pub safe_bool : Text → Bool
safe_bool v = one_of (lower v) (codes "1" ∷ codes "true" ∷ codes "yes" ∷ codes "on" ∷ [])

-- `SETTING_REVERSE`
abbrev pub reversed : (kind : Kind) → Text → Field kind
reversed megabytes v = floor_div 1048576 (safe_int v)
reversed number v = safe_int v
reversed minutes v = floor_div 60 (safe_int v)
reversed boolean v = safe_bool v
reversed plain v = v
reversed optional_number v = parse_int v

abbrev pub Settings : Type 0
Settings = List (Text × Text)

-- `db_session.get(AdminSetting, key)`
abbrev pub get : Text → Settings → Option Text
get key [] = none
get key ((k, v) ∷ t) = if text_eq k key then some v else get key t

-- Changes the row of the key, or adds one.
abbrev pub put : Text → Text → Settings → Settings
put key value [] = (key, value) ∷ []
put key value ((k, v) ∷ t) =
    let rest = put key value t in if text_eq k key then (k, value) ∷ t else (k, v) ∷ rest

abbrev pub is_password : Entry → Bool
is_password e = text_eq e.field (codes "email_smtp_password")

abbrev pub is_blank : (kind : Kind) → Field kind → Bool
is_blank megabytes n = false
is_blank number n = false
is_blank minutes n = false
is_blank boolean b = not b
is_blank plain [] = true
is_blank plain (_ ∷ _) = false
is_blank optional_number n = false

abbrev pub save_one : Entry → ((e : Entry) → Field e.kind) → Settings → Settings
save_one e form t =
    if is_password e && is_blank e.kind (form e) then t else put e.key (format e.kind (form e)) t

-- `settings` on a valid POST, for a form with all fields
unfoldable pub save : List Entry → ((e : Entry) → Field e.kind) → Settings → Settings
save [] form t = t
save (e ∷ es) form t = save es form (save_one e form t)

abbrev pub converted : (kind : Kind) → Option Text → Option (Field kind)
converted kind none = none
converted kind (some v) = some (reversed kind v)

-- `settings` on a GET: what a field is filled with, if anything.
unfoldable pub load : (e : Entry) → Settings → Option (Field e.kind)
load e t = if is_password e then none else converted e.kind (get e.key t)

-- `SETTING_DEFAULTS`, without the types, which nothing reads.
unfoldable pub setting_defaults : Settings
setting_defaults =
    (codes "MAX_UPLOAD_SIZE_BYTES", codes "16777216")
    ∷ (codes "DEFAULT_MAX_QUEUED_JOBS", codes "3")
    ∷ (codes "DEFAULT_MAX_TERMINAL_SESSIONS", codes "1")
    ∷ (codes "MAX_JOBS_PER_HOUR", codes "10")
    ∷ (codes "MAX_TERMINAL_SESSION_SECONDS", codes "3600")
    ∷ (codes "TERMINAL_IDLE_TIMEOUT_SECONDS", codes "300")
    ∷ (codes "WORKER_POLL_SECONDS", codes "5")
    ∷ (codes "REGISTRATION_OPEN", codes "1")
    ∷ (codes "MAINTENANCE_MODE", codes "0")
    ∷ (codes "TERMINAL_SESSION_LOG_ENABLED", codes "0")
    ∷ (codes "PATREON_CLIENT_ID", [])
    ∷ (codes "PATREON_CLIENT_SECRET", [])
    ∷ (codes "PATREON_CAMPAIGN_ID", [])
    ∷ (codes "PATREON_TIER_BRONZE_JOBS", codes "10")
    ∷ (codes "PATREON_TIER_BRONZE_SESSIONS", codes "3")
    ∷ (codes "PATREON_TIER_SILVER_JOBS", codes "50")
    ∷ (codes "PATREON_TIER_SILVER_SESSIONS", codes "10")
    ∷ (codes "PATREON_TIER_GOLD_JOBS", codes "999")
    ∷ (codes "PATREON_TIER_GOLD_SESSIONS", codes "20")
    ∷ []

abbrev pub or_else : Option Text → Option Text → Option Text
or_else none o = o
or_else (some v) o = some v

-- `_get_raw`
unfoldable pub get_raw : Text → Settings → Option Text
get_raw key t = or_else (get key t) (get key setting_defaults)

abbrev pub int_or_zero : Option Text → Signed
int_or_zero none = (false, 0)
int_or_zero (some v) = safe_int v

-- `get_int`
unfoldable pub get_int : Text → Settings → Signed
get_int key t = int_or_zero (get_raw key t)

-- `str(None)` is none of the texts that stand for true.
abbrev pub bool_of : Option Text → Bool
bool_of none = false
bool_of (some v) = safe_bool v

-- `get_bool`
unfoldable pub get_bool : Text → Settings → Bool
get_bool key t = bool_of (get_raw key t)
