-- ===== src/Api/Events/Stream.antt =====
-- What the stream of a job has sent.
use retro_bridge.Prelude.{
  ℕ, zero, suc, ◌+◌, ◌-◌, ◌≤◌, ◌<◌, ◌≡◌, inl, inr, refl, sym, ap, ◌∙◌, true, false, ◌||◌, Option,
  none, some, List, [], ◌∷◌, ◌++◌, arith, length, take, drop, length-take, take-take-drop, max, All,
  ltb, if◌then◌else◌, Bool-cases, append_assoc, append-nil, ◌==◌, Text,
}
use retro_bridge.Jobs.Output.{universal}
use retro_bridge.Model.{Status, is_finished}
use retro_bridge.Api.Events.{
  Poll, Event, State, status_event, output_event, done_event, heartbeat, report_status,
  report_output, read_new, same_status, generate, job_events,
}

abbrev pub text_of : Event → Text
text_of (status_event s) = []
text_of (output_event t) = t
text_of (done_event s b) = []
text_of heartbeat = []

-- All output that was sent.
abbrev pub sent : List Event → Text
sent [] = []
sent (e ∷ es) = text_of e ++ sent es

sent-append : (xs ys : List Event) → sent (xs ++ ys) ≡ sent xs ++ sent ys
sent-append [] ys = refl
sent-append (x ∷ xs) ys =
    ap (λ t. text_of x ++ t) (sent-append xs ys)
    ∙ sym (append_assoc (text_of x) (sent xs) (sent ys))

-- ASCII: a byte is a character.
abbrev pub ascii : List ℕ → Text
ascii bytes = bytes

-- What is read is a beginning of the whole output, and is not shorter than the size says.
abbrev pub IsPrefix : List ℕ → ℕ → Option (List ℕ) → Type 0
IsPrefix output size none = Unit
IsPrefix output size (some file) = (size ≤ length file) × ((k : ℕ) × (file ≡ take k output))

abbrev pub IsGrowing : List ℕ → Option ℕ → Option (List ℕ) → Type 0
IsGrowing output none file = Unit
IsGrowing output (some size) file = IsPrefix output size file

take-drop-take {ℓ} :
    {A : Type ℓ} (m a k : ℕ) (xs : List A)
    → m + a ≤ k
    → take m (drop a (take k xs)) ≡ take m (drop a xs)
take-drop-take zero a k xs h = refl
take-drop-take (suc m) a zero xs h = absurd (omega (arith, h))
take-drop-take (suc m) zero (suc k) [] h = refl
take-drop-take (suc m) zero (suc k) (x ∷ xs) h =
    ap (λ l. x ∷ l) (take-drop-take m zero k xs (omega (arith, h)))
take-drop-take (suc m) (suc a) (suc k) [] h = refl
take-drop-take (suc m) (suc a) (suc k) (x ∷ xs) h = take-drop-take (suc m) a k xs (omega (arith, h))

-- Nothing is translated where there is no carriage return.
universal-plain : (s : Text) → All (λ c. (c == 13) ≡ false) s → universal s ≡ s
universal-plain [] h = refl
universal-plain (c ∷ []) h = rw h.0 refl
universal-plain (c ∷ d ∷ s) h = rw h.0 (ap (λ t. c ∷ t) (universal-plain (d ∷ s) h.1))

All-drop {ℓ} : {A : Type ℓ} (P : A → Type 0) (n : ℕ) (xs : List A) → All P xs → All P (drop n xs)
All-drop P zero xs h = h
All-drop P (suc n) [] h = tt
All-drop P (suc n) (x ∷ xs) h = All-drop P n xs h.1

All-take {ℓ} : {A : Type ℓ} (P : A → Type 0) (n : ℕ) (xs : List A) → All P xs → All P (take n xs)
All-take P zero xs h = tt
All-take P (suc n) [] h = tt
All-take P (suc n) (x ∷ xs) h = (h.0, All-take P n xs h.1)

abbrev pub HasNoReturn : List ℕ → Type 0
HasNoReturn = All (λ c. (c == 13) ≡ false)

universal-file :
    (a k : ℕ) (output file : List ℕ)
    → HasNoReturn output
    → file ≡ take k output
    → universal (drop a file) ≡ drop a file
universal-file a k output file h e = universal-plain (drop a file) (
    rw e (
      All-drop (λ c. (c == 13) ≡ false) a (take k output)
        (All-take (λ c. (c == 13) ≡ false) k output h)))

read_new-sent :
    (output : List ℕ) (size : ℕ) (s : State) (file : Option (List ℕ))
    → HasNoReturn output
    → ltb s.last_size size ≡ true
    → IsPrefix output size file
    → take s.last_size output ++ sent (read_new ascii size s file).0
      ≡ take (read_new ascii size s file).1.last_size output
read_new-sent output size s none plain l p = append-nil (take s.last_size output)
read_new-sent output size s (some file) plain l (long, (k, e)) =
    let long' : size ≤ k = omega (arith, long, ap length e, length-take k output) in
    let less : s.last_size < size = ground (arith, l) in
    ap (λ t. take s.last_size output ++ t)
      (append-nil (take (size - s.last_size) (universal (drop s.last_size file)))
        ∙ (ap (take (size - s.last_size)) (universal-file s.last_size k output file plain e)
            ∙ (ap (λ f. take (size - s.last_size) (drop s.last_size f)) e
                ∙ take-drop-take (size - s.last_size) s.last_size k output
                    (omega (arith, long', less)))))
    ∙ take-take-drop size s.last_size (size - s.last_size) output (omega (arith, less))

report_output-sent :
    (output : List ℕ) (p : Poll) (s : State) (size : Option ℕ)
    → HasNoReturn output
    → IsGrowing output size p.file
    → take s.last_size output ++ sent (report_output ascii p s size).0
      ≡ take (report_output ascii p s size).1.last_size output
report_output-sent output p s none plain g = append-nil (take s.last_size output)
report_output-sent output p s (some size) plain g = elim (Bool-cases (ltb s.last_size size)) [
  | inl l ↦ rw l (read_new-sent output size s p.file plain l g)
  | inr n ↦ rw n (append-nil (take s.last_size output))
]

report_status-same :
    (status : Status) (s : State)
    → (sent (report_status status s).0 ≡ []) × ((report_status status s).1.last_size ≡ s.last_size)
report_status-same status s = elim (Bool-cases (same_status status s.last_status)) [
  | inl e ↦ rw e (refl, refl)
  | inr e ↦ rw e (refl, refl)
]

-- A turn of the loop, up to what follows in it.
turn-sent :
    (output : List ℕ) (p : Poll) (s : State) (last : List Event)
    → HasNoReturn output
    → IsGrowing output p.size p.file
    → let a = report_status p.status s in
      let b = report_output ascii p a.1 p.size in
      take s.last_size output ++ sent (a.0 ++ (b.0 ++ last))
      ≡ take b.1.last_size output ++ sent last
turn-sent output p s last plain g =
    let a = report_status p.status s in
    let b = report_output ascii p a.1 p.size in
    let same = report_status-same p.status s in
    ap (λ t. take s.last_size output ++ t)
      (sent-append a.0 (b.0 ++ last)
        ∙ (ap (λ t. t ++ sent (b.0 ++ last)) same.0 ∙ sent-append b.0 last))
    ∙ (sym (append_assoc (take s.last_size output) (sent b.0) (sent last))
        ∙ (ap (λ n. (take n output ++ sent b.0) ++ sent last) (sym same.1)
            ∙ ap (λ t. t ++ sent last) (report_output-sent output p a.1 p.size plain g)))

-- The size that a turn finds, where the file can be read.
abbrev pub readable : Option ℕ → Option (List ℕ) → ℕ
readable none file = 0
readable (some size) none = 0
readable (some size) (some file) = size

-- The largest size that the polls find, up to the one that ends the stream.
abbrev pub largest : ℕ → List Poll → ℕ
largest n [] = n
largest n (p ∷ ps) =
    let m = max n (readable p.size p.file) in
    let rest = largest m ps in if is_finished p.status || p.is_over then m else rest

report_output-largest :
    (size : Option ℕ) (file : Option (List ℕ)) (p : Poll) (s : State)
    → p.file ≡ file
    → (report_output ascii p s size).1.last_size ≡ max s.last_size (readable size file)
report_output-largest none file p s e = omega arith
report_output-largest (some size) none p s e = elim (Bool-cases (ltb s.last_size size)) [
  | inl l ↦ rw (l, e) omega arith
  | inr n ↦ rw n omega arith
]
report_output-largest (some size) (some file) p s e = elim (Bool-cases (ltb s.last_size size)) [
  | inl l ↦ rw (l, e) ground (arith, l)
  | inr n ↦ rw n ground (arith, n)
]

generate-sent :
    (output : List ℕ) (s : State) (ps : List Poll)
    → HasNoReturn output
    → All (λ p. IsGrowing output p.size p.file) ps
    → take s.last_size output ++ sent (generate ascii s ps).0 ≡ take (largest s.last_size ps) output
unfolding generate
generate-sent output s [] plain g = append-nil (take s.last_size output)
generate-sent output s (p ∷ ps) plain g = elim (Bool-cases (is_finished p.status)) [
  | inl e ↦ rw e (ends (done_event p.status false) refl)
  | inr e ↦ elim (Bool-cases p.is_over) [
    | inl o ↦ rw (e, o) (ends (done_event p.status true) refl)
    | inr o ↦
        rw (e, o)
          (turn-sent output p s (heartbeat ∷ (generate ascii after ps).0) plain g.0
            ∙ (generate-sent output after ps plain g.1
                ∙ ap (λ n. take (largest n ps) output) size_after))
  ]
]
  where
    after : State
    after = (report_output ascii p (report_status p.status s).1 p.size).1

    size_after : after.last_size ≡ max s.last_size (readable p.size p.file)
    size_after =
        report_output-largest p.size p.file p (report_status p.status s).1 refl
        ∙ ap (λ n. max n (readable p.size p.file)) (report_status-same p.status s).1

    ends :
        (e : Event)
        → text_of e ≡ []
        → take s.last_size output
            ++ sent (
                (report_status p.status s).0
                ++ ((report_output ascii p (report_status p.status s).1 p.size).0 ++ e ∷ []))
          ≡ take (max s.last_size (readable p.size p.file)) output
    ends e h =
        turn-sent output p s (e ∷ []) plain g.0
        ∙ (ap (λ t. take after.last_size output ++ (t ++ [])) h
            ∙ (append-nil (take after.last_size output) ∙ ap (λ n. take n output) size_after))

-- The output that is sent over a job's stream, put together, is the job's output up to the largest
-- size that was found while the stream was open: no part is lost, and none is sent twice. This holds
-- for output in ASCII without carriage returns, which only grows.
pub job_events-output :
    (output : List ℕ) (status : Status) (ps : List Poll)
    → HasNoReturn output
    → All (λ p. IsGrowing output p.size p.file) ps
    → sent (job_events ascii status ps) ≡ take (largest 0 ps) output
unfolding job_events
job_events-output output status ps plain g =
    generate-sent output (record { last_status = status; last_size = 0 }) ps plain g
