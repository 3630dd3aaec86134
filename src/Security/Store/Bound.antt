-- ===== src/Security/Store/Bound.antt =====
-- How many requests the stores of the rate limiter let through.
use retro_bridge.Prelude.{
  ℕ, ◌≤◌, ◌≡◌, sym, inl, inr, Bool, true, false, not, ◌&&◌, List, [], ◌∷◌, ◌++◌, arith, leb,
  Bool-cases, Text, text_eq→eq, append-nil, append_assoc,
}
use retro_bridge.Model.{count, count-append, count-le}
use retro_bridge.Security.Store.{is_old, Row, has_key, max_age, no_keys, check_memory, check_sqlite}
use retro_bridge.Security.Store.Window.{is_recent, check_all, run}
use retro_bridge.Security.Store.Answers.{IsOrdered}
use retro_bridge.Security.Store.Equal.{check_sqlite-eq-check_all}
use retro_bridge.Security.Store.MemoryEqual.{check_memory-eq-check_all}

-- The requests that are not over the limit, by their answers.
abbrev pub let_through : List (Text × ℕ) → List Bool → List Row
let_through [] bs = []
let_through (r ∷ rs) [] = []
let_through ((key, now) ∷ rs) (true ∷ bs) = let_through rs bs
let_through ((key, now) ∷ rs) (false ∷ bs) =
    record { key = key; timestamp = now } ∷ let_through rs bs

module _ (max_req window : Text → ℕ) where
  -- A request of the key in the `window` seconds up to `t`.
  abbrev pub in_span : Text → ℕ → Row → Bool
  in_span k t r = has_key k r && (leb r.timestamp t && not (is_old (window k) t r.timestamp))

  abbrev Bounded : List Row → Type 0
  Bounded h = (k : Text) (t : ℕ) → count (in_span k t) h ≤ max_req k

  Bounded-push :
      (key : Text) (now : ℕ) (h : List Row)
      → leb (max_req key) (count (is_recent max_req window key now) h) ≡ false
      → Bounded h
      → Bounded (h ++ record { key = key; timestamp = now } ∷ [])
  Bounded-push key now h free b k t = elim (Bool-cases (in_span k t row)) [
    | inr out ↦ ground (arith, b k t, count-append (in_span k t) h (row ∷ []))
    | inl in_ ↦
        let same : k ≡ key = text_eq→eq k key (ground arith) in
        let less =
          count-le (in_span key t) (is_recent max_req window key now) h (λ r. ground arith) in
        let more = count-append (in_span key t) h (row ∷ []) in rw (same) (ground arith)
  ]
    where
      row : Row
      row = record { key = key; timestamp = now }

  run-Bounded :
      (rs : List (Text × ℕ)) (h : List Row)
      → Bounded h
      → Bounded (h ++ let_through rs (run (check_all max_req window) rs h))
  unfolding run check_all
  run-Bounded [] h b = rw (append-nil h) b
  run-Bounded ((key, now) ∷ rs) h b =
      elim (Bool-cases (leb (max_req key) (count (is_recent max_req window key now) h))) [
        | inl e ↦ rw e (run-Bounded rs h b)
        | inr e ↦ rw e (
            let row : Row = record { key = key; timestamp = now } in
            rw
              (sym (
                append_assoc h (row ∷ [])
                  (let_through rs (run (check_all max_req window) rs (h ++ row ∷ [])))))
              (run-Bounded rs (h ++ row ∷ []) (Bounded-push key now h e b)))
      ]

  -- On requests whose times do not go back, and with no window longer than a day, either store lets
  -- through at most `max_req` requests of a key in any span of the key's window.
  pub count-let_through_le :
      (sweep_fails : Text → ℕ → Bool) (rs : List (Text × ℕ)) (k : Text) (t : ℕ)
      → ((key : Text) → window key ≤ max_age)
      → IsOrdered 0 rs
      → let memory = run (λ key now. check_memory (max_req key) (window key) key now) rs no_keys in
        let sqlite =
          run
            (λ key now. check_sqlite (sweep_fails key now) (max_req key) (window key) key now)
            rs
            (record { rows = []; last_sweep = 0 }) in
        (count (in_span k t) (let_through rs memory) ≤ max_req k)
        × (count (in_span k t) (let_through rs sqlite) ≤ max_req k)
  count-let_through_le sweep_fails rs k t old o =
      let bound = run-Bounded rs [] (λ key u. omega arith) k t in
      (
        rw (check_memory-eq-check_all max_req window rs o) bound,
        rw (check_sqlite-eq-check_all max_req window sweep_fails rs old o) bound,
      )
