-- ===== src/Security/Store/Window.antt =====
-- What a rate limiter promises: of the requests that it lets through for a key, no more than `max_req`
-- fall into any span of `window` seconds. The reference limiter remembers all of them.
use retro_bridge.Prelude.{
  ℕ, Bool, true, false, not, ◌&&◌, List, [], ◌∷◌, ◌++◌, leb, if◌then◌else◌, Text,
}
use retro_bridge.Model.{count}
use retro_bridge.Security.Store.{is_old, Row, has_key}

-- The limits of a key, which are configured by endpoint: at most `max_req` in `window` seconds.
module _ (max_req window : Text → ℕ) where
  abbrev pub is_recent : Text → ℕ → Row → Bool
  is_recent key now r = has_key key r && not (is_old (window key) now r.timestamp)

  -- The limiter that looks at all that it has let through.
  unfoldable pub check_all : Text → ℕ → List Row → Bool × List Row
  check_all key now h =
      if leb (max_req key) (count (is_recent key now) h)
      then (true, h)
      else (false, h ++ record { key = key; timestamp = now } ∷ [])

-- The answers to a sequence of requests, each with its key and its time.
unfoldable pub run {ℓ} : {S : Type ℓ} → (Text → ℕ → S → Bool × S) → List (Text × ℕ) → S → List Bool
run step [] s = []
run step ((key, now) ∷ rs) s = let (b, s') = step key now s in b ∷ run step rs s'
