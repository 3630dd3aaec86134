-- ===== src/Security/Store.antt =====
-- The two timestamp stores of the rate limiter in retrobridge/security.py. `max_req` is positive where
-- a store is asked; `window` is in seconds, and the clock in microseconds.
pub mod Window
mod Tracks
pub mod Answers
pub mod Equal
pub mod MemoryEqual
pub mod Bound
use retro_bridge.Prelude.{
  ℕ, ◌+◌, ◌*◌, Bool, true, false, not, ◌&&◌, Option, none, some, List, [], ◌∷◌, ◌++◌, ltb, leb,
  if◌then◌else◌, length, Text, text_eq, second,
}
use retro_bridge.Model.{count, delete_where}

-- `timestamp < now - window`
abbrev pub is_old : ℕ → ℕ → ℕ → Bool
is_old window now t = ltb (t + window * second) now

-- `_MemoryRateLimiterStore._store`
abbrev pub Memory : Type 0
Memory = Text → Option (List ℕ)

abbrev pub no_keys : Memory
no_keys k = none

abbrev pub put : Text → List ℕ → Memory → Memory
put key ts s k = if text_eq k key then some ts else s k

-- `while timestamps and timestamps[0] < cutoff: timestamps.pop(0)`
abbrev pub pop_old : ℕ → ℕ → List ℕ → List ℕ
pop_old window now [] = []
pop_old window now (t ∷ ts) = if is_old window now t then pop_old window now ts else t ∷ ts

-- `self._store.get(key, [])`
abbrev pub get_or_empty : Option (List ℕ) → List ℕ
get_or_empty none = []
get_or_empty (some ts) = ts

-- The list is the stored one where the key has one, so that what is popped stays popped.
abbrev pub store_popped : Text → Option (List ℕ) → List ℕ → Memory → Memory
store_popped key none ts s = s
store_popped key (some _) ts s = put key ts s

-- `_MemoryRateLimiterStore.check`: whether the request is over the limit.
unfoldable pub check_memory : ℕ → ℕ → Text → ℕ → Memory → Bool × Memory
check_memory max_req window key now s =
    let ts = pop_old window now (get_or_empty (s key)) in
    if leb max_req (length ts)
    then (true, store_popped key (s key) ts s)
    else (false, put key (ts ++ now ∷ []) s)

-- A row of the table `rate_limits`.
pub record Row : Type 0 where
  pub key : Text
  pub timestamp : ℕ

pub record Sqlite : Type 0 where
  pub rows : List Row
  pub last_sweep : ℕ

abbrev pub max_age : ℕ
max_age = 24 * 3600

abbrev pub sweep_interval : ℕ
sweep_interval = 300

-- `_sweep_if_due`; a DELETE that fails is logged, and tried again when the next sweep is due.
abbrev pub sweep_if_due : Bool → ℕ → Sqlite → Sqlite
sweep_if_due fails now s = if ltb now (s.last_sweep + sweep_interval * second) then s else record {
  rows = if fails then s.rows else delete_where (λ r. is_old max_age now r.timestamp) s.rows;
  last_sweep = now;
}

abbrev pub has_key : Text → Row → Bool
has_key key r = text_eq key r.key

-- `_SqliteRateLimiterStore.check`, where the transaction goes through.
unfoldable pub check_sqlite : Bool → ℕ → ℕ → Text → ℕ → Sqlite → Bool × Sqlite
check_sqlite sweep_fails max_req window key now s =
    let swept = sweep_if_due sweep_fails now s in
    let kept = delete_where (λ r. has_key key r && is_old window now r.timestamp) swept.rows in
    if leb max_req (count (has_key key) kept)
    then (true, record swept { rows = kept })
    else (false, record swept { rows = kept ++ record { key = key; timestamp = now } ∷ [] })
