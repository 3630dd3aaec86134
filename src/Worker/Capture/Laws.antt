-- ===== src/Worker/Capture/Laws.antt =====
-- When the capture loop ends, and that it sends no heartbeat.
use retro_bridge.Prelude.{
  ℕ, ◌+◌, ◌-◌, ◌*◌, ◌<◌, ◌≡◌, ◌≢◌, refl, ◌⊎◌, inl, inr, Bool, true, false, none, List, [], ◌∷◌,
  arith, if◌then◌else◌, second,
}
use retro_bridge.Worker.Recover.{job_heartbeat_interval}
use retro_bridge.Worker.Capture.{
  bytes, Turn, Setup, Captured, beat, is_beat_due, capture_from, capture,
}

no_beat :
    (s : Setup) (last_activity last_heartbeat : ℕ) (ts : List Turn)
    → s.max_runtime * second < last_heartbeat + job_heartbeat_interval
    → (capture_from s last_activity last_heartbeat ts).heartbeats ≡ []
unfolding capture_from
no_beat s a b [] h = refl
no_beat s a b (t ∷ ts) h = ground (arith, no_beat s a b ts h, no_beat s t.after b ts h)

-- For any run of the loop, with or without a session factory: no heartbeat is sent, if the clock's
-- value at the start plus the heartbeat interval exceeds the maximum runtime. (`time.time()` counts from
-- 1970, so this holds of every limit below fifty years.)
pub capture-no_heartbeat :
    (s : Setup) (ts : List Turn)
    → s.max_runtime * second < s.start_time + job_heartbeat_interval
    → (capture s ts).heartbeats ≡ []
unfolding capture
capture-no_heartbeat s ts h = no_beat s s.start_time s.start_time ts h

-- Some turn finds the maximum runtime exceeded.
abbrev pub HasLateTurn : Setup → List Turn → Type 0
HasLateTurn s [] = ⊥
HasLateTurn s (t ∷ ts) = (s.start_time + s.max_runtime * second < t.now) ⊎ HasLateTurn s ts

late_ends :
    (s : Setup) (a b : ℕ) (ts : List Turn) → HasLateTurn s ts → (capture_from s a b ts).end ≢ none
unfolding capture_from
late_ends s a b [] h = absurd h
late_ends s a b (t ∷ ts) (inl late) = ground arith
late_ends s a b (t ∷ ts) (inr later) =
    let elapsed = t.now - s.start_time in
    let b' = if is_beat_due s elapsed b then elapsed else b in
    ground (arith, late_ends s a b' ts later, late_ends s t.after b' ts later)

-- The chunks that the turns read.
abbrev pub chunks : List Turn → List (List ℕ)
chunks [] = []
chunks (t ∷ ts) = elim t.input [ bytes b bs ↦ (b ∷ bs) ∷ chunks ts | _ ↦ chunks ts ]

-- A list is the first part of another.
abbrev pub Begins : List (List ℕ) → List (List ℕ) → Type 0
Begins [] ys = Unit
Begins (x ∷ xs) [] = ⊥
Begins (x ∷ xs) (y ∷ ys) = (x ≡ y) × Begins xs ys

beat-received : (d : Bool) (n : ℕ) (c : Captured) → (beat d n c).received ≡ c.received
beat-received true n c = refl
beat-received false n c = refl

received_first :
    (s : Setup) (a b : ℕ) (ts : List Turn) → Begins (capture_from s a b ts).received (chunks ts)
unfolding capture_from
received_first s a b [] = tt
received_first s a b (t ∷ ts) =
    let elapsed = t.now - s.start_time in
    let b' = if is_beat_due s elapsed b then elapsed else b in
    ground (arith, received_first s a b' ts, received_first s t.after b' ts)

-- The loop always ends once a turn finds the maximum runtime exceeded, at that turn or before it, and
-- what it logs is a first part of the chunks that the device sent, in order.
pub capture-ends :
    (s : Setup) (ts : List Turn)
    → HasLateTurn s ts
    → ((capture s ts).end ≢ none) × Begins (capture s ts).received (chunks ts)
unfolding capture
capture-ends s ts h =
    (late_ends s s.start_time s.start_time ts h, received_first s s.start_time s.start_time ts)
