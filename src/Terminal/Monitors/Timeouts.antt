-- ===== src/Terminal/Monitors/Timeouts.antt =====
-- What the monitors end: running bridges past their limits, and suspended ones past the grace period.
use retro_bridge.Prelude.{
  ℕ, ◌≡◌, refl, sym, ap, inl, inr, Bool, true, false, not, ◌||◌, Option, none, some, List, [], ◌∷◌,
  arith, All, Bool-cases, Text, text_eq, text_eq_self, map,
}
use retro_bridge.Terminal.Leases.{Reason}
use retro_bridge.Terminal.Bridges.{
  Bridge, State, Env, dict_get, dict_remove, get_active, nat_eq, is_some, is_over, get_suspended,
  stop_found, stop_bridge,
}
use retro_bridge.Terminal.Monitors.{
  over_keys, with_key, drop_suspended, drop_all, cleanup_suspended, overdue, overdue_sids,
  with_reason, stop_all, check_timeouts,
}

abbrev is_listed : {K : Type 0} → (K → K → Bool) → K → List K → Bool
is_listed eq k [] = false
is_listed eq k (x ∷ xs) = eq k x || is_listed eq k xs

module _ {K V : Type 0} (eq : K → K → Bool) where
  dict_remove-missing : (k : K) (d : List (K × V)) → dict_get eq k d ≡ none → dict_remove eq k d ≡ d
  dict_remove-missing k [] h = refl
  dict_remove-missing k ((x, v) ∷ d) h = elim (Bool-cases (eq x k)) [
    | inl e ↦ cc (rw e at h)
    | inr e ↦ rw e (ap (λ r. (x, v) ∷ r) (dict_remove-missing k d (rw e at h)))
  ]

  -- An entry that is to go has its key on the list.
  abbrev IsCovered : (V → Bool) → List K → List (K × V) → Type 0
  IsCovered bad keys = All (λ kv. not (bad kv.1) || is_listed eq kv.0 keys ≡ true)

  IsCovered-remove :
      (bad : V → Bool) (k : K) (keys : List K) (d : List (K × V))
      → IsCovered bad (k ∷ keys) d
      → IsCovered bad keys (dict_remove eq k d)
  IsCovered-remove bad k keys [] h = tt
  IsCovered-remove bad k keys ((x, v) ∷ d) h = elim (Bool-cases (eq x k)) [
    | inl e ↦ rw e (IsCovered-remove bad k keys d h.1)
    | inr e ↦ rw e ((let here = h.0 in ground arith), IsCovered-remove bad k keys d h.1)
  ]

  IsCovered-more :
      (bad : V → Bool) (k : K) (keys : List K) (d : List (K × V))
      → IsCovered bad keys d
      → IsCovered bad (k ∷ keys) d
  IsCovered-more bad k keys [] h = tt
  IsCovered-more bad k keys ((x, v) ∷ d) h =
      ((let here = h.0 in ground arith), IsCovered-more bad k keys d h.1)

  IsCovered-nil :
      (bad : V → Bool) (d : List (K × V)) → IsCovered bad [] d → All (λ kv. bad kv.1 ≡ false) d
  IsCovered-nil bad [] h = tt
  IsCovered-nil bad ((x, v) ∷ d) h = ((let here = h.0 in ground arith), IsCovered-nil bad d h.1)

abbrev is_overdue : ℕ → Bridge → Bool
is_overdue now b = is_some (overdue now b)

abbrev sids : List (Text × Reason) → List Text
sids = map (λ r. r.0)

overdue_sids-IsCovered :
    (now : ℕ) (d : List (Text × Bridge))
    → IsCovered text_eq (is_overdue now) (sids (overdue_sids now d)) d
overdue_sids-IsCovered now [] = tt
overdue_sids-IsCovered now ((sid, b) ∷ d) =
    by_reason (overdue now b) refl (overdue_sids-IsCovered now d)
  where
    by_reason :
        (o : Option Reason)
        → overdue now b ≡ o
        → IsCovered text_eq (is_overdue now) (sids (overdue_sids now d)) d
        → IsCovered text_eq
            (is_overdue now)
            (sids (with_reason sid o (overdue_sids now d)))
            ((sid, b) ∷ d)
    by_reason none e rest = (rw e refl, rest)
    by_reason (some r) e rest = (
      (let self = text_eq_self sid in ground arith),
      IsCovered-more text_eq (is_overdue now) sid (sids (overdue_sids now d)) d rest,
    )

stop_bridge-active :
    (e : Env) (sid : Text) (reason : Reason) (w : State)
    → (stop_bridge e sid reason w).active ≡ dict_remove text_eq sid w.active
unfolding stop_bridge
stop_bridge-active e sid reason w = by_bridge (get_active sid w) refl
  where
    by_bridge :
        (o : Option Bridge)
        → get_active sid w ≡ o
        → (stop_found e sid reason w o).active ≡ dict_remove text_eq sid w.active
    by_bridge none h = sym (dict_remove-missing text_eq sid w.active h)
    by_bridge (some b) h = refl

stop_all-IsCovered :
    (e : Env) (raises : Text → Bool) (now : ℕ) (rs : List (Text × Reason)) (w : State)
    → ((sid : Text) → raises sid ≡ false)
    → IsCovered text_eq (is_overdue now) (sids rs) w.active
    → All (λ kv. is_overdue now kv.1 ≡ false) (stop_all e raises rs w).active
stop_all-IsCovered e raises now [] w quiet h = IsCovered-nil text_eq (is_overdue now) w.active h
stop_all-IsCovered e raises now ((sid, reason) ∷ rs) w quiet h = rw (quiet sid) (
    stop_all-IsCovered e raises now rs (stop_bridge e sid reason w) quiet (
      rw (stop_bridge-active e sid reason w)
        (IsCovered-remove text_eq (is_overdue now) sid (sids rs) w.active h)))

-- After a check of the timeouts in which no ending of a session fails, no running bridge of this
-- process that has a connection has exceeded its longest runtime or its idle time. Suspended
-- bridges are not checked.
pub check_timeouts-overdue :
    (e : Env) (raises : Text → Bool) (w : State)
    → ((sid : Text) → raises sid ≡ false)
    → All (λ kv. is_some (overdue e.now kv.1) ≡ false) (check_timeouts e raises w).active
unfolding check_timeouts
check_timeouts-overdue e raises w quiet =
    stop_all-IsCovered e raises e.now (overdue_sids e.now w.active) w quiet
      (overdue_sids-IsCovered e.now w.active)

over_keys-IsCovered :
    (now : ℕ) (d : List (ℕ × Bridge))
    → IsCovered nat_eq (λ b. is_over now b.suspended_at) (over_keys now d) d
over_keys-IsCovered now [] = tt
over_keys-IsCovered now ((k, b) ∷ d) =
    by_test (is_over now b.suspended_at) refl (over_keys-IsCovered now d)
  where
    bad : Bridge → Bool
    bad x = is_over now x.suspended_at

    by_test :
        (t : Bool)
        → is_over now b.suspended_at ≡ t
        → IsCovered nat_eq bad (over_keys now d) d
        → IsCovered nat_eq bad (with_key t k (over_keys now d)) ((k, b) ∷ d)
    by_test true e rest = (ground arith, IsCovered-more nat_eq bad k (over_keys now d) d rest)
    by_test false e rest = (rw e refl, rest)

drop_suspended-suspended :
    (e : Env) (k : ℕ) (w : State)
    → (drop_suspended e k w (get_suspended k w)).suspended ≡ dict_remove nat_eq k w.suspended
drop_suspended-suspended e k w = by_bridge (get_suspended k w) refl
  where
    by_bridge :
        (o : Option Bridge)
        → get_suspended k w ≡ o
        → (drop_suspended e k w o).suspended ≡ dict_remove nat_eq k w.suspended
    by_bridge none h = sym (dict_remove-missing nat_eq k w.suspended h)
    by_bridge (some b) h = refl

drop_all-IsCovered :
    (e : Env) (now : ℕ) (ks : List ℕ) (w : State)
    → IsCovered nat_eq (λ b. is_over now b.suspended_at) ks w.suspended
    → All (λ kv. is_over now kv.1.suspended_at ≡ false) (drop_all e ks w).suspended
drop_all-IsCovered e now [] w h =
    IsCovered-nil nat_eq (λ b. is_over now b.suspended_at) w.suspended h
drop_all-IsCovered e now (k ∷ ks) w h =
    drop_all-IsCovered e now ks (drop_suspended e k w (get_suspended k w)) (
      rw (drop_suspended-suspended e k w)
        (IsCovered-remove nat_eq (λ b. is_over now b.suspended_at) k ks w.suspended h))

-- After a clean-up no bridge of this process has been suspended for longer than the grace period.
pub cleanup_suspended-over :
    (e : Env) (w : State)
    → All (λ kv. is_over e.now kv.1.suspended_at ≡ false) (cleanup_suspended e w).suspended
unfolding cleanup_suspended
cleanup_suspended-over e w =
    drop_all-IsCovered e e.now (over_keys e.now w.suspended) w
      (over_keys-IsCovered e.now w.suspended)
