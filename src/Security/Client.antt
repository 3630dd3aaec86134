-- ===== src/Security/Client.antt =====
-- Whose requests the rate limiter in retrobridge/security.py counts: `_check_rate_limit` before a store.
pub mod Laws
use retro_bridge.Prelude.{
  ℕ, zero, suc, Bool, true, false, not, ◌&&◌, ◌||◌, Option, none, some, List, [], ◌∷◌, ◌++◌, ◌==◌,
  if◌then◌else◌, Text, codes, text_eq, one_of, starts_with, has_char, strip, or_none, text_or,
}
use mathlib.Core.List.{reverse}

abbrev pub exempt_blueprints : List Text
exempt_blueprints = codes "health" ∷ []

abbrev pub exempt_endpoints : List Text
exempt_endpoints = codes "static" ∷ []

abbrev pub exempt_path_prefixes : List Text
exempt_path_prefixes = codes "/socket.io/" ∷ []

-- What the middleware reads of a request. `trusted` is TRUSTED_PROXIES of `request.app`, and none
-- where the request has no attribute `app`.
pub record Request : Type 0 where
  pub endpoint : Option Text
  pub blueprint : Option Text
  pub path : Text
  pub remote_addr : Option Text
  pub forwarded_for : Option Text
  pub trusted : List Text

-- `a in (t, ...)`, for a value that may be None
abbrev pub is_one_of : Option Text → List Text → Bool
is_one_of none ts = false
is_one_of (some a) ts = one_of a ts

abbrev pub any_prefix : List Text → Text → Bool
any_prefix [] path = false
any_prefix (p ∷ ps) path = starts_with p path || any_prefix ps path

-- `_is_exempt`
unfoldable pub is_exempt : Request → Bool
is_exempt r =
    if is_one_of r.endpoint exempt_endpoints
    then true
    else if is_one_of r.blueprint exempt_blueprints
    then true
    else any_prefix exempt_path_prefixes r.path

-- The dictionary `RATE_LIMITS`, in the order of its entries.
abbrev pub lookup : List (Text × (ℕ × ℕ)) → Text → Option (ℕ × ℕ)
lookup [] k = none
lookup ((key, v) ∷ kvs) k = if text_eq k key then some v else lookup kvs k

abbrev pub endpoint_of : Request → Text
endpoint_of r = text_or r.endpoint r.path

abbrev pub lookup_some : List (Text × (ℕ × ℕ)) → Option Text → Option (ℕ × ℕ)
lookup_some limits none = none
lookup_some limits (some k) = lookup limits k

abbrev pub or_limits : Option (ℕ × ℕ) → ℕ × ℕ → ℕ × ℕ
or_limits none d = d
or_limits (some v) d = v

-- `_resolve_limits`: of the endpoint, the blueprint, or `default`.
unfoldable pub resolve_limits : List (Text × (ℕ × ℕ)) → Request → ℕ × ℕ
resolve_limits limits r = or_limits (lookup limits (endpoint_of r)) (
    or_limits (lookup_some limits (or_none r.blueprint))
      (or_limits (lookup limits (codes "default")) (0, 60)))

-- A Python truth test
abbrev pub has_text : Text → Bool
has_text [] = false
has_text (_ ∷ _) = true

-- `s.split(c)`
abbrev pub cons_head : ℕ → List Text → List Text
cons_head x [] = (x ∷ []) ∷ []
cons_head x (p ∷ ps) = (x ∷ p) ∷ ps

abbrev pub split : ℕ → Text → List Text
split c [] = [] ∷ []
split c (x ∷ s) = if x == c then [] ∷ split c s else cons_head x (split c s)

-- What `ipaddress` answers: an address, and whether it stands in a network (host bits are dropped).
-- The functions return none where they raise a ValueError.
module _ {Ip : Type 0} (ip_address : Text → Option Ip) (ip_eq : Ip → Ip → Bool)
    (in_network : Ip → Text → Option Bool) where
  abbrev pub is_true : Option Bool → Bool
  is_true none = false
  is_true (some b) = b

  abbrev pub is_same : Ip → Option Ip → Bool
  is_same ip none = false
  is_same ip (some other) = ip_eq ip other

  -- The loop over the trusted addresses and networks; one that does not parse is passed over.
  abbrev pub matches_any : Ip → List Text → Bool
  matches_any ip [] = false
  matches_any ip (spec ∷ specs) =
      (if has_char b'/' spec then is_true (in_network ip spec) else is_same ip (ip_address spec))
      || matches_any ip specs

  abbrev pub matches_parsed : Option Ip → List Text → Bool
  matches_parsed none trusted = false
  matches_parsed (some ip) trusted = matches_any ip trusted

  -- `_is_trusted_proxy`
  unfoldable pub is_trusted_proxy : Option Text → List Text → Bool
  is_trusted_proxy none trusted = false
  is_trusted_proxy (some []) trusted = false
  is_trusted_proxy (some (c ∷ addr)) trusted = matches_parsed (ip_address (c ∷ addr)) trusted

  -- The first entry that is not empty and not trusted, from the right.
  abbrev pub first_untrusted : List Text → List Text → Option Text
  first_untrusted trusted [] = none
  first_untrusted trusted (entry ∷ entries) =
      let ip = strip entry in
      if has_text ip && not (is_trusted_proxy (some ip) trusted)
      then some ip
      else first_untrusted trusted entries

  abbrev pub or_remote : Option Text → Option Text → Option Text
  or_remote none remote = remote
  or_remote (some ip) remote = some ip

  abbrev pub forwarded_ip : Option Text → Request → Option Text
  forwarded_ip none r = r.remote_addr
  forwarded_ip (some header) r =
      or_remote (first_untrusted r.trusted (reverse (split b',' header))) r.remote_addr

  -- `_client_ip`
  unfoldable pub client_ip : Request → Option Text
  client_ip r =
      if not (is_trusted_proxy r.remote_addr r.trusted)
      then r.remote_addr
      else forwarded_ip (or_none r.forwarded_for) r

  -- `str` of what may be None
  abbrev pub shown : Option Text → Text
  shown none = codes "None"
  shown (some s) = s

  abbrev pub store_key : Request → Text
  store_key r = shown (client_ip r) ++ codes ":" ++ endpoint_of r

  -- `_check_rate_limit`, on any store. An answer of 429 carries the window as `Retry-After`.
  abbrev pub answered {ℓ} : {S : Type ℓ} → ℕ → Bool × S → Option ℕ × S
  answered window (true, s) = (some window, s)
  answered window (false, s) = (none, s)

  abbrev pub limited {ℓ} :
      {S : Type ℓ} → (ℕ → ℕ → Text → S → Bool × S) → Text → ℕ × ℕ → S → Option ℕ × S
  limited check key (zero, window) s = (none, s)
  limited check key (suc n, window) s = answered window (check (suc n) window key s)

  unfoldable pub rate_limit {ℓ} :
      {S : Type ℓ}
      → (ℕ → ℕ → Text → S → Bool × S)
      → List (Text × (ℕ × ℕ))
      → Request
      → S
      → Option ℕ × S
  rate_limit check limits r s =
      if is_exempt r then (none, s) else limited check (store_key r) (resolve_limits limits r) s
