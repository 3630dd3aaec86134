-- ===== src/Security/Store/Equal.antt =====
-- The SQLite store of the rate limiter gives the answers of the limiter that remembers everything.
use retro_bridge.Prelude.{
  ℕ, ◌+◌, ◌*◌, ◌≤◌, ◌≡◌, refl, sym, ap, ◌∙◌, inl, inr, Bool, true, false, ◌&&◌, List, [], ◌∷◌, ◌++◌,
  arith, ltb, leb, if◌then◌else◌, length, Bool-cases, Text, text_eq, text_eq→eq, second,
}
use retro_bridge.Model.{count, delete_where}
use retro_bridge.Security.Store.{
  is_old, Row, Sqlite, max_age, sweep_interval, sweep_if_due, has_key, check_sqlite,
}
use retro_bridge.Security.Store.Window.{is_recent, check_all, run}
use retro_bridge.Security.Store.Tracks.{
  times, young, young-append, young-young, times-append, count-times, times-sweep, times-delete_own,
  times-delete_other, count-recent, Tracks, pushed, Tracks-keep, Tracks-push,
}
use mathlib.Core.Path.{subst}
use retro_bridge.Security.Store.Answers.{IsOrdered, run-eq}

module _ (max_req window : Text → ℕ) where
  sweep-young :
      (fails : Bool) (w now n : ℕ) (k : Text) (s : Sqlite)
      → w ≤ max_age
      → now ≤ n
      → young w n (times k (sweep_if_due fails now s).rows) ≡ young w n (times k s.rows)
  sweep-young fails w now n k s old later =
      elim (Bool-cases (ltb now (s.last_sweep + sweep_interval * second))) [
        | inl e ↦ rw e refl
        | inr e ↦ rw e (by_result fails)
      ]
    where
      by_result :
          (b : Bool)
          → young w n (
              times k
                (if b then s.rows else delete_where (λ r. is_old max_age now r.timestamp) s.rows))
            ≡ young w n (times k s.rows)
      by_result true = refl
      by_result false =
          ap (young w n) (times-sweep k max_age now s.rows)
          ∙ young-young w max_age now n (times k s.rows) old later

  delete-young :
      (key k : Text) (now n : ℕ) (rs : List Row)
      → now ≤ n
      → young
          (window k)
          n
          (times k (delete_where (λ r. has_key key r && is_old (window key) now r.timestamp) rs))
        ≡ young (window k) n (times k rs)
  delete-young key k now n rs later = elim (Bool-cases (text_eq k key)) [
    | inr e ↦ ap (young (window k) n) (times-delete_other k key (window key) now rs e)
    | inl e ↦
        subst
          (λ q.
            young (window k) n
              (times k (delete_where (λ r. has_key q r && is_old (window q) now r.timestamp) rs))
            ≡ young (window k) n (times k rs))
          (text_eq→eq k key e)
          (ap (young (window k) n) (times-delete_own k (window k) now rs)
            ∙ young-young (window k) (window k) now n (times k rs) (omega arith) later)
  ]

  abbrev stored : Sqlite → Text → List ℕ
  stored s k = times k s.rows

  sqlite_step :
      (fails : Bool) (t now : ℕ) (key : Text) (s : Sqlite) (h : List Row)
      → ((k : Text) → window k ≤ max_age)
      → t ≤ now
      → Tracks max_req window t (stored s) h
      → let r = check_sqlite fails (max_req key) (window key) key now s in
        let spec = check_all max_req window key now h in
        (r.0 ≡ spec.0) × Tracks max_req window now (stored r.1) spec.1
  unfolding check_sqlite check_all
  sqlite_step fails t now key s h old le tr =
      elim (Bool-cases (leb (max_req key) (count (is_recent max_req window key now) h))) [
        | inl e ↦
            rw (same, e)
              (refl, Tracks-keep max_req window t now (stored s) kept_times h le keeps tr)
        | inr e ↦
            rw (same, e)
              (
                refl,
                Tracks-push max_req window t now key (stored s) (λ k. times k (kept ++ row ∷ [])) h
                    le pushes tr,
              )
      ]
    where
      swept : Sqlite
      swept = sweep_if_due fails now s

      kept : List Row
      kept = delete_where (λ r. has_key key r && is_old (window key) now r.timestamp) swept.rows

      row : Row
      row = record { key = key; timestamp = now }

      kept_times : Text → List ℕ
      kept_times k = times k kept

      keeps :
          (k : Text) (n : ℕ)
          → now ≤ n
          → young (window k) n (times k kept) ≡ young (window k) n (times k s.rows)
      keeps k n later =
          delete-young key k now n swept.rows later
          ∙ sweep-young fails (window k) now n k s (old k) later

      pushes :
          (k : Text) (n : ℕ)
          → now ≤ n
          → young (window k) n (times k (kept ++ row ∷ []))
            ≡ young (window k) n (times k s.rows ++ pushed max_req window k key now)
      pushes k n later =
          ap (young (window k) n) (times-append k kept (row ∷ []))
          ∙ young-append (window k) n (times k kept) (pushed max_req window k key now)
          ∙ ap (λ xs. xs ++ young (window k) n (pushed max_req window k key now)) (keeps k n later)
          ∙ sym (young-append (window k) n (times k s.rows) (pushed max_req window k key now))

      same : count (has_key key) kept ≡ count (is_recent max_req window key now) h
      same =
          count-times key kept
          ∙ ap length (
              times-delete_own key (window key) now swept.rows
              ∙ sweep-young fails (window key) now now key s (old key) (omega arith)
              ∙ tr key now le)
          ∙ sym (count-recent max_req window key now h)

  -- On requests whose times do not go back, and with no window longer than a day, the SQLite store lets
  -- through exactly what a limiter lets through that remembers every request: its deletions and its
  -- sweeps, also those that fail, never change an answer.
  pub check_sqlite-eq-check_all :
      (sweep_fails : Text → ℕ → Bool) (rs : List (Text × ℕ))
      → ((k : Text) → window k ≤ max_age)
      → IsOrdered 0 rs
      → run
          (λ key now. check_sqlite (sweep_fails key now) (max_req key) (window key) key now)
          rs
          (record { rows = []; last_sweep = 0 })
        ≡ run (check_all max_req window) rs []
  check_sqlite-eq-check_all sweep_fails rs old o =
      run-eq max_req window
        (λ key now. check_sqlite (sweep_fails key now) (max_req key) (window key) key now)
        (λ t s. Tracks max_req window t (stored s))
        (λ t now key s h le tr. sqlite_step (sweep_fails key now) t now key s h old le tr) 0 rs
        (record { rows = []; last_sweep = 0 }) [] o (λ k n le. refl)
