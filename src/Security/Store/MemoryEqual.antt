-- ===== src/Security/Store/MemoryEqual.antt =====
-- The in-memory store of the rate limiter gives the answers of the limiter that remembers everything.
use retro_bridge.Prelude.{
  ℕ, ◌≤◌, ◌≡◌, refl, sym, ap, ◌∙◌, inl, inr, false, Option, none, some, List, [], ◌∷◌, ◌++◌, arith,
  leb, if◌then◌else◌, length, All, All-append, Bool-cases, Text, text_eq, text_eq→eq, append-nil,
}
use retro_bridge.Model.{count}
use retro_bridge.Security.Store.{
  is_old, Memory, put, pop_old, get_or_empty, store_popped, check_memory, Row, no_keys,
}
use retro_bridge.Security.Store.Window.{is_recent, check_all, run}
use retro_bridge.Security.Store.Tracks.{
  young, young-append, young-young, count-recent, Tracks, pushed, Tracks-keep, Tracks-push,
}
use mathlib.Core.Path.{subst}
use retro_bridge.Security.Store.Answers.{IsOrdered, run-eq}

-- Timestamps in the order of their insertion, none behind `t`.
abbrev IsSorted : ℕ → List ℕ → Type 0
IsSorted t [] = Unit
IsSorted t (x ∷ xs) = (x ≤ t) × All (λ y. x ≤ y) xs × IsSorted t xs

young-All :
    (w now x : ℕ) (xs : List ℕ) → is_old w now x ≡ false → All (λ y. x ≤ y) xs → young w now xs ≡ xs
young-All w now x [] h a = refl
young-All w now x (y ∷ xs) h a = let rest = young-All w now x xs h a.1 in ground (arith, a.0)

-- Where the list is sorted, what the loop leaves is what is young enough.
pop_old-eq-young : (w now t : ℕ) (ts : List ℕ) → IsSorted t ts → pop_old w now ts ≡ young w now ts
pop_old-eq-young w now t [] h = refl
pop_old-eq-young w now t (x ∷ ts) h = elim (Bool-cases (is_old w now x)) [
  | inl e ↦ rw e (pop_old-eq-young w now t ts h.2)
  | inr e ↦ rw e (ap (λ r. x ∷ r) (sym (young-All w now x ts e h.1)))
]

IsSorted-pop : (w now t : ℕ) (ts : List ℕ) → IsSorted t ts → IsSorted t (pop_old w now ts)
IsSorted-pop w now t [] h = tt
IsSorted-pop w now t (x ∷ ts) h = elim (Bool-cases (is_old w now x)) [
  | inl e ↦ rw e (IsSorted-pop w now t ts h.2)
  | inr e ↦ rw e h
]

IsSorted-later : (t now : ℕ) (ts : List ℕ) → t ≤ now → IsSorted t ts → IsSorted now ts
IsSorted-later t now [] le h = tt
IsSorted-later t now (x ∷ ts) le h = (omega (arith, h.0), h.1, IsSorted-later t now ts le h.2)

IsSorted-append :
    (t now : ℕ) (ts : List ℕ) → t ≤ now → IsSorted t ts → IsSorted now (ts ++ now ∷ [])
IsSorted-append t now [] le h = (omega arith, tt, tt)
IsSorted-append t now (x ∷ ts) le h =
    let here : x ≤ now = omega (arith, h.0) in
    (here, All-append (λ y. x ≤ y) ts (now ∷ []) h.1 (here, tt), IsSorted-append t now ts le h.2)

abbrev held : Memory → Text → List ℕ
held s k = get_or_empty (s k)

-- What a key holds behind an update of one key.
held-put :
    (key k : Text) (ts : List ℕ) (s : Memory)
    → held (put key ts s) k ≡ (if text_eq k key then ts else held s k)
held-put key k ts s = elim (Bool-cases (text_eq k key)) [ inl e ↦ rw e refl | inr e ↦ rw e refl ]

-- The pruned list of a key, whether or not it was stored.
held-popped :
    (key k : Text) (w now : ℕ) (s : Memory)
    → held (store_popped key (s key) (pop_old w now (held s key)) s) k
      ≡ (if text_eq k key then pop_old w now (held s key) else held s k)
held-popped key k w now s = by_row (s key) refl
  where
    by_row :
        (o : Option (List ℕ))
        → s key ≡ o
        → held (store_popped key o (pop_old w now (get_or_empty o)) s) k
          ≡ (if text_eq k key then pop_old w now (get_or_empty o) else held s k)
    by_row (some ts) e = held-put key k (pop_old w now ts) s
    by_row none e = elim (Bool-cases (text_eq k key)) [
      | inl y ↦ rw y (ap (held s) (text_eq→eq k key y) ∙ ap get_or_empty e)
      | inr n ↦ rw n refl
    ]

young-popped :
    (w now n t : ℕ) (ts : List ℕ)
    → now ≤ n
    → IsSorted t ts
    → young w n (pop_old w now ts) ≡ young w n ts
young-popped w now n t ts later h =
    ap (young w n) (pop_old-eq-young w now t ts h) ∙ young-young w w now n ts (omega arith) later

module _ (max_req window : Text → ℕ) where
  abbrev Related : ℕ → Memory → List Row → Type 0
  Related t s h = Tracks max_req window t (held s) h × ((k : Text) → IsSorted t (held s k))

  -- Where one key's list is replaced by one that agrees with it, up to what is pushed, for that key.
  young-replaced :
      (key k : Text) (now n : ℕ) (xs new : List ℕ) (f g : Text → List ℕ)
      → g k ≡ (if text_eq k key then xs else f k)
      → young (window key) n xs ≡ young (window key) n (f key ++ new)
      → young (window k) n (g k) ≡ young (window k) n (f k ++ (if text_eq k key then new else []))
  young-replaced key k now n xs new f g e y = elim (Bool-cases (text_eq k key)) [
    | inl h ↦
        let same : key ≡ k = sym (text_eq→eq k key h) in
        rw (e, h) (subst (λ q. young (window q) n xs ≡ young (window q) n (f q ++ new)) same y)
    | inr h ↦ rw (e, h) (ap (young (window k) n) (sym (append-nil (f k))))
  ]

  IsSorted-replaced :
      (key k : Text) (t : ℕ) (xs : List ℕ) (f g : Text → List ℕ)
      → g k ≡ (if text_eq k key then xs else f k)
      → IsSorted t xs
      → IsSorted t (f k)
      → IsSorted t (g k)
  IsSorted-replaced key k t xs f g e hx hf = elim (Bool-cases (text_eq k key)) [
    | inl h ↦ rw (e, h) hx
    | inr h ↦ rw (e, h) hf
  ]

  memory_step :
      (t now : ℕ) (key : Text) (s : Memory) (h : List Row)
      → t ≤ now
      → Related t s h
      → let r = check_memory (max_req key) (window key) key now s in
        let spec = check_all max_req window key now h in (r.0 ≡ spec.0) × Related now r.1 spec.1
  unfolding check_memory check_all
  memory_step t now key s h le (tracks, sorted) =
      elim (Bool-cases (leb (max_req key) (count (is_recent max_req window key now) h))) [
        | inl e ↦ rw (same, e) (refl, left_related)
        | inr e ↦ rw (same, e) (refl, added_related)
      ]
    where
      popped : List ℕ
      popped = pop_old (window key) now (held s key)

      left : Memory
      left = store_popped key (s key) popped s

      added : Memory
      added = put key (popped ++ now ∷ []) s

      pop_young :
          (n : ℕ) → now ≤ n → young (window key) n popped ≡ young (window key) n (held s key)
      pop_young n later = young-popped (window key) now n t (held s key) later (sorted key)

      push_young :
          (n : ℕ)
          → now ≤ n
          → young (window key) n (popped ++ now ∷ [])
            ≡ young (window key) n (held s key ++ now ∷ [])
      push_young n later =
          young-append (window key) n popped (now ∷ [])
          ∙ ap (λ xs. xs ++ young (window key) n (now ∷ [])) (pop_young n later)
          ∙ sym (young-append (window key) n (held s key) (now ∷ []))

      popped_sorted : IsSorted now popped
      popped_sorted =
          IsSorted-pop (window key) now now (held s key)
            (IsSorted-later t now (held s key) le (sorted key))

      no_push :
          (k : Text) (n : ℕ)
          → young (window k) n (held s k ++ (if text_eq k key then [] else []))
            ≡ young (window k) n (held s k)
      no_push k n = elim (Bool-cases (text_eq k key)) [
        | inl y ↦ rw y (ap (young (window k) n) (append-nil (held s k)))
        | inr y ↦ rw y (ap (young (window k) n) (append-nil (held s k)))
      ]

      same : length popped ≡ count (is_recent max_req window key now) h
      same =
          ap length
            (pop_old-eq-young (window key) now t (held s key) (sorted key) ∙ tracks key now le)
          ∙ sym (count-recent max_req window key now h)

      left_young :
          (k : Text) (n : ℕ)
          → now ≤ n
          → young (window k) n (held left k) ≡ young (window k) n (held s k)
      left_young k n later =
          young-replaced key k now n popped [] (held s) (held left)
            (held-popped key k (window key) now s)
            (pop_young n later ∙ ap (young (window key) n) (sym (append-nil (held s key))))
          ∙ no_push k n

      left_related : Related now left h
      left_related = (
        Tracks-keep max_req window t now (held s) (held left) h le left_young tracks,
        (λ k.
            IsSorted-replaced key k now popped (held s) (held left)
              (held-popped key k (window key) now s) popped_sorted
              (IsSorted-later t now (held s k) le (sorted k))),
      )

      added_young :
          (k : Text) (n : ℕ)
          → now ≤ n
          → young (window k) n (held added k)
            ≡ young (window k) n (held s k ++ pushed max_req window k key now)
      added_young k n later =
          young-replaced key k now n (popped ++ now ∷ []) (now ∷ []) (held s) (held added)
            (held-put key k (popped ++ now ∷ []) s) (push_young n later)

      added_related : Related now added (h ++ record { key = key; timestamp = now } ∷ [])
      added_related = (
        Tracks-push max_req window t now key (held s) (held added) h le added_young tracks,
        (λ k.
            IsSorted-replaced key k now (popped ++ now ∷ []) (held s) (held added)
              (held-put key k (popped ++ now ∷ []) s)
              (IsSorted-append now now popped (omega arith) popped_sorted)
              (IsSorted-later t now (held s k) le (sorted k))),
      )

  -- On requests whose times do not go back, the in-memory store lets through exactly what a limiter
  -- lets through that remembers every request.
  pub check_memory-eq-check_all :
      (rs : List (Text × ℕ))
      → IsOrdered 0 rs
      → run (λ key now. check_memory (max_req key) (window key) key now) rs no_keys
        ≡ run (check_all max_req window) rs []
  check_memory-eq-check_all rs o =
      run-eq max_req window (λ key now. check_memory (max_req key) (window key) key now) Related
        memory_step 0 rs no_keys [] o ((λ k n le. refl), (λ k. tt))
